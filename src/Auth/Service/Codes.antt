-- ===== src/Auth/Service/Codes.antt =====
-- internal/auth/service.go: the captchas and the codes that are sent, in Redis.
use Prim.Native.String.{◌++◌}
use anime_companion_ai.Prelude.{
  ℕ, String, Bool, true, false, Option, none, some, if◌then◌else◌, Result, ok, err, ltb, leb,
  str_eq,
}
use anime_companion_ai.Prelude.Text.{trim_space, byte_len}
use anime_companion_ai.Redis.{Redis}
use anime_companion_ai.Redis.Entries.{get, exists}
use anime_companion_ai.Redis.Link.{Link, call}
use anime_companion_ai.Auth.Pending.{
  PendingVerification, CodeError, verify_pending, consume_captcha,
}
use anime_companion_ai.Auth.Sessions.{found, is_done}

pub data AuthError : Type 0 where
  invalid_credentials captcha_refused code_refused email_in_use rate_limited unauthorized :
      AuthError
  mail_unavailable invalid_email invalid_password internal : AuthError

-- How `pendingVerification` is written in JSON.
pub record Notation : Type 0 where
  pub encode : PendingVerification → String
  pub decode : String → Option PendingVerification

-- What the service calls: `lower` and `upper` of strings, the parser of addresses, and the keyed hash.
pub record Text : Type 0 where
  pub lower : String → String
  pub upper : String → String
  pub parse_address : String → Option String
  pub digest : String → String

-- `Config`, in milliseconds.
pub record Config : Type 0 where
  pub session_ttl : ℕ
  pub captcha_ttl : ℕ
  pub code_ttl : ℕ
  pub resend_window : ℕ

abbrev pub captcha_key : String → String
captcha_key id = "auth:captcha:" ++ id

-- `pendingKey`
unfoldable pub pending_key : String → String → String
pending_key purpose email = "auth:pending:" ++ (purpose ++ (":" ++ email))

unfoldable pub cooldown_key : String → String → String
cooldown_key purpose email = "auth:cooldown:" ++ (purpose ++ (":" ++ email))

module _ (text : Text) where
  open text use {lower, upper, parse_address, digest}

  -- `normalizeEmail`
  unfoldable pub normalize_email : String → Option String
  unfolding trim_space byte_len
  normalize_email value =
      let normal = lower (trim_space value) in
      elim (parse_address normal) [
        | none ↦ none
        | some address ↦
            if str_eq (lower address) normal
            then if ltb 320 (byte_len normal) then none else some normal
            else none
      ]

  module _ (redis : Redis) (notation : Notation) (config : Config) where
    open redis use {Db, read, set, del, pexpire}

    -- The end of `NewCaptcha`: the digest of the answer is stored.
    unfoldable pub store_captcha : Link → String → String → Db → Bool × Db
    unfolding call
    store_captcha link id answer db =
        let command : Db → Unit {0} × Db = λ d. (
          tt,
          pexpire (set d (captcha_key id) (digest answer)) (captcha_key id) config.captcha_ttl,
        ) in
        let (reply, db') = call link command db in (is_done reply, db')

    abbrev pub captcha_result : Result CodeError (Unit {0}) → Option AuthError
    captcha_result (ok done) = none
    captcha_result (err e) = some captcha_refused

    -- `consumeCaptcha`; GETDEL reads the key and deletes it.
    unfoldable pub take_captcha : Link → String → String → Db → Option AuthError × Db
    unfolding consume_captcha call trim_space
    take_captcha link id answer db =
        let key = captcha_key (trim_space id) in
        let (reply, db') = call link (λ d. (get (read d key), del d key)) db in
        (captcha_result (consume_captcha digest upper answer (found reply)).0, db')

    -- SETNX with a lifetime.
    unfoldable pub set_cooldown : String → Db → Bool × Db
    set_cooldown key db =
        if exists (read db key)
        then (false, db)
        else (true, pexpire (set db key "1") key config.resend_window)

    unfoldable pub new_pending : String → String → String → PendingVerification
    new_pending email password_hash code = record {
      email = email;
      password_hash = password_hash;
      code_hash = digest code;
      attempts = 0;
    }

    -- After the mail: what could not be sent is taken back.
    unfoldable pub after_mail : Link → String → String → Bool → Db → Option AuthError × Db
    unfolding pending_key cooldown_key call
    after_mail link purpose email mailed db =
        let command : Db → Unit {0} × Db =
          λ d. (tt, del (del d (pending_key purpose email)) (cooldown_key purpose email)) in
        let (reply, db') = call link command db in
        if mailed then (none, db) else (some mail_unavailable, db')

    unfoldable pub store_pending :
        (ℕ → Link)
        → String
        → String
        → String
        → String
        → Bool
        → Option Bool × Db
        → Option AuthError × Db
    unfolding after_mail new_pending pending_key call
    store_pending link purpose email password_hash code mailed (none, db) = (some internal, db)
    store_pending link purpose email password_hash code mailed (some false, db) =
        (some rate_limited, db)
    store_pending link purpose email password_hash code mailed (some true, db) =
        let key = pending_key purpose email in
        let command : Db → Unit {0} × Db = λ d. (
          tt,
          pexpire (set d key (notation.encode (new_pending email password_hash code))) key
              config.code_ttl,
        ) in
        let (reply, db') = call (link 1) command db in
        let last = after_mail (link 2) purpose email mailed db' in
        if is_done reply then last else (some internal, db')

    -- `createPending`; `code` is what is drawn, and `mailed` tells whether the mail goes out.
    unfoldable pub create_pending :
        (ℕ → Link) → String → String → String → String → Bool → Db → Option AuthError × Db
    unfolding store_pending set_cooldown cooldown_key call
    create_pending link purpose email password_hash code mailed db =
        store_pending link purpose email password_hash code mailed
          (call (link 0) (set_cooldown (cooldown_key purpose email)) db)

    abbrev pub decoded : Option String → Option PendingVerification
    decoded none = none
    decoded (some value) = notation.decode value

    -- The entry as GET finds it.
    unfoldable pub read_pending : Link → String → String → Db → Option PendingVerification × Db
    unfolding pending_key call
    read_pending link purpose email db =
        let key = pending_key purpose email in
        let (reply, db') = call link (λ d. (get (read d key), d)) db in (decoded (found reply), db')

    -- The write after a wrong code: the entry with one more attempt, for the rest of its lifetime, or
    -- none any more. Whether it succeeds is not asked.
    unfoldable pub write_pending : Link → String → Option PendingVerification → Db → Db
    unfolding call
    write_pending link key none db =
        let command : Db → Unit {0} × Db = λ d. (tt, del d key) in (call link command db).1
    write_pending link key (some pending) db =
        let command : Db → Unit {0} × Db = λ d. (tt, set d key (notation.encode pending)) in
        (call link command db).1

    abbrev pub pending_result :
        Result CodeError PendingVerification → Result AuthError PendingVerification
    pending_result (ok pending) = ok pending
    pending_result (err e) = err code_refused

    -- Only a wrong code, checked against an entry with attempts left, writes.
    unfoldable pub written_after :
        Link
        → String
        → Option PendingVerification
        → Result CodeError PendingVerification × Option PendingVerification
        → Db
        → Db
    unfolding write_pending
    written_after link key none checked db = db
    written_after link key (some pending) (ok accepted, held) db = db
    written_after link key (some pending) (err e, held) db =
        let written = write_pending link key held db in
        if leb 5 pending.attempts then db else written

    -- `verifyPending`
    unfoldable pub check_pending :
        (ℕ → Link) → String → String → String → Db → Result AuthError PendingVerification × Db
    unfolding read_pending written_after verify_pending pending_key
    check_pending link purpose email code db =
        let (held, db') = read_pending (link 0) purpose email db in
        let checked = verify_pending digest upper code held in
        (
          pending_result checked.0,
          written_after (link 1) (pending_key purpose email) held checked db',
        )
