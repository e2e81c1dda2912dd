-- ===== src/Auth/Service/Samples.antt =====
-- A server in memory and a table of one row, for the tests of internal/auth/service.go.
use Prim.Native.String.{◌++◌}
use anime_companion_ai.Prelude.{ℕ, ◌<◌, some, true, false, arith, str_eq, none, if◌then◌else◌}
use anime_companion_ai.Redis.Link.{Link, answered, call}
use anime_companion_ai.Redis.Memory.{Db, memory, fresh}
use anime_companion_ai.Auth.Sessions.{session_key, store_session}
use anime_companion_ai.Auth.Service.{User, Accounts, Passwords, World, log_in, forget_pending}
use anime_companion_ai.Auth.Service
use anime_companion_ai.Auth.Service.Codes.{Notation, Text, Config, pending_key}

abbrev pub strings : Text
strings = record {
  lower = λ s. s;
  upper = λ s. s;
  parse_address = λ s. some s;
  digest = λ s. "#" ++ s;
}

-- Only the digest of the code is written.
abbrev pub notation : Notation
notation = record {
  encode = λ p. p.code_hash;
  decode = λ s. some (record { email = ""; password_hash = ""; code_hash = s; attempts = 0 });
}

abbrev pub config : Config
config = record {
  session_ttl = 604800000;
  captcha_ttl = 300000;
  code_ttl = 600000;
  resend_window = 60000;
}

abbrev pub passwords : Passwords
passwords = record {
  hash = λ password salt. some (salt ++ (":" ++ password));
  verify = λ hash password. str_eq hash ("salt:" ++ password);
}

abbrev pub mina : User
mina = record {
  id = "mina";
  email = "mina@sos.jp";
  password_hash = "salt:secret";
  is_admin = false;
  verified_at = 0;
}

-- A table with one row.
abbrev pub accounts : Accounts
accounts = record {
  State = User;
  count_email = λ email row. some 1;
  by_email = λ email row. if str_eq row.email email then some row else none;
  by_id = λ id row. some row;
  create = λ user row. (Service.duplicated_key, row);
  update_password = λ user hash now row. (true, record row { password_hash = hash });
}

pub week : 0 < 604800000
week = omega arith

abbrev pub always : ℕ → Link
always call = answered

-- The code has been sent.
abbrev pub asked : Db
asked = memory.set (fresh 1000) (pending_key "reset" "mina@sos.jp") "#123456"

abbrev pub before : World memory strings notation config passwords accounts
before = record {
  db =
      store_session memory strings.digest 604800000
        (session_key memory strings.digest 604800000 "token-1") "mina" asked;
  users = mina;
}
