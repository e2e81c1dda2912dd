-- ===== src/Redis.antt =====
-- The Redis server, which the program calls and does not implement: a parameter, with the documented
-- effect of each command that the scripts and pipelines of the program send.
pub mod Entries
pub mod Hashes
pub mod Memory
pub mod Link
use anime_companion_ai.Prelude.{ℕ, ◌+◌, ◌<◌, String, ◌≡◌, str_eq, ltb, if◌then◌else◌}
use anime_companion_ai.Prelude.Int.{ℤ, pos}
use Entries.{
  Entry, absent, text, hget, hset_entry, hdel_entry, hincrby_entry, incr_entry, rpush_entry,
  sadd_entry, srem_entry,
}

-- `read` is what a key holds at the time of the server's clock. A command on a key of another type
-- is an error of the server and changes nothing.
pub record Redis : Type 1 where
  pub Db : Type 0
  pub clock : Db → ℕ
  pub read : Db → String → Entry
  -- numbers as the server writes them, and Lua's `tonumber`
  pub itoa : ℤ → String
  pub tonumber : String → ℤ
  pub tonumber-itoa : (n : ℤ) → tonumber (itoa n) ≡ n
  pub tonumber_zero : tonumber "0" ≡ pos 0
  -- the commands
  pub set : Db → String → String → Db
  pub del : Db → String → Db
  pub incr : Db → String → Db
  pub rpush : Db → String → String → Db
  pub sadd : Db → String → String → Db
  pub srem : Db → String → String → Db
  pub hset : Db → String → String → String → Db
  pub hdel : Db → String → String → Db
  pub hincrby : Db → String → String → ℤ → Db
  -- a deadline as a Unix time, and one from now on
  pub expireat : Db → String → ℕ → Db
  pub pexpire : Db → String → ℕ → Db
  -- what each command leaves at each key
  pub read-set :
      (db : Db) (k v j : String) → read (set db k v) j ≡ (if str_eq k j then text v else read db j)
  pub read-del :
      (db : Db) (k j : String) → read (del db k) j ≡ (if str_eq k j then absent else read db j)
  pub read-incr :
      (db : Db) (k j : String)
      → read (incr db k) j
        ≡ (if str_eq k j then incr_entry itoa tonumber (read db k) else read db j)
  pub read-rpush :
      (db : Db) (k v j : String)
      → read (rpush db k v) j ≡ (if str_eq k j then rpush_entry v (read db k) else read db j)
  pub read-sadd :
      (db : Db) (k v j : String)
      → read (sadd db k v) j ≡ (if str_eq k j then sadd_entry v (read db k) else read db j)
  pub read-srem :
      (db : Db) (k v j : String)
      → read (srem db k v) j ≡ (if str_eq k j then srem_entry v (read db k) else read db j)
  pub read-hset :
      (db : Db) (k f v j : String)
      → read (hset db k f v) j ≡ (if str_eq k j then hset_entry f v (read db k) else read db j)
  pub read-hdel :
      (db : Db) (k f j : String)
      → read (hdel db k f) j ≡ (if str_eq k j then hdel_entry f (read db k) else read db j)
  pub read-hincrby :
      (db : Db) (k f : String) (n : ℤ) (j : String)
      → read (hincrby db k f n) j
        ≡ (if str_eq k j then hincrby_entry itoa tonumber f n (read db k) else read db j)
  pub read-expireat :
      (db : Db) (k : String) (t : ℕ) (j : String)
      → read (expireat db k t) j
        ≡ (if ltb (clock db) t then read db j else if str_eq k j then absent else read db j)
  pub read-pexpire :
      (db : Db) (k : String) (ms : ℕ) (j : String) → 0 < ms → read (pexpire db k ms) j ≡ read db j
  -- a command takes no time that the program could tell
  pub clock-hset : (db : Db) (k f v : String) → clock (hset db k f v) ≡ clock db
  pub clock-hdel : (db : Db) (k f : String) → clock (hdel db k f) ≡ clock db
  pub clock-hincrby : (db : Db) (k f : String) (n : ℤ) → clock (hincrby db k f n) ≡ clock db
