-- ===== src/Redisstore.antt =====
-- internal/redisstore/redis.go: what the gateway keeps in Redis: the ids of messages, the token of
-- WeChat and the counters of the limiter.
pub mod Window
pub mod Tests
use Prim.Native.String.{◌++◌}
use anime_companion_ai.Prelude.{
  ℕ, suc, zero, String, Bool, true, false, not, Option, none, some, List, [], ◌∷◌, ltb, ◌==◌,
  if◌then◌else◌,
}
use anime_companion_ai.Prelude.Int.{ℤ, pos, negsuc}
use anime_companion_ai.Prelude.Text.{is_empty}
use anime_companion_ai.Redis.{Redis}
use anime_companion_ai.Redis.Entries.{get, exists}
use anime_companion_ai.Redis.Link.{Link, call}

abbrev is_one : ℤ → Bool
is_one (pos n) = n == 1
is_one (negsuc n) = false

-- `count <= l.limit`
abbrev pub within : ℕ → ℤ → Bool
within limit (pos n) = not (ltb limit n)
within limit (negsuc n) = true

abbrev negated : Option Bool → Option Bool
negated none = none
negated (some added) = some (not added)

-- `none` is an error of the client.
module _ (redis : Redis) where
  open redis use {Db, read, set, del, incr, pexpire, tonumber}

  -- SETNX with a lifetime in milliseconds.
  unfoldable pub set_new : ℕ → String → Db → Bool × Db
  set_new ttl key db =
      if exists (read db key) then (false, db) else (true, pexpire (set db key "1") key ttl)

  -- `MessageDeduper.SeenOrAdd`
  unfoldable pub seen_or_add : String → ℕ → Link → String → Db → Option Bool × Db
  unfolding set_new call is_empty
  seen_or_add prefix ttl link id db =
      let (added, db') = call link (set_new ttl (prefix ++ id)) db in
      if is_empty id then (some false, db) else (negated added, db')

  -- `TokenCache.Get`; a key that is not there is no error.
  unfoldable pub cache_get : String → Link → Db → Option (Option String) × Db
  unfolding call
  cache_get key link db = call link (λ d. (get (read d key), d)) db

  -- `TokenCache.Set` and `TokenCache.Delete`
  unfoldable pub cache_set : String → Link → String → ℕ → Db → Option (Unit {0}) × Db
  unfolding call
  cache_set key link token ttl db = call link (λ d. (tt, pexpire (set d key token) key ttl)) db

  unfoldable pub cache_delete : String → Link → Db → Option (Unit {0}) × Db
  unfolding call
  cache_delete key link db = call link (λ d. (tt, del d key)) db

  -- The number that INCR returns; `none` is its error on a value of another type.
  abbrev pub counted : Option String → Option ℤ
  counted none = none
  counted (some s) = some (tonumber s)

  opened : ℕ → String → Option ℤ → Db → Option ℤ × Db
  opened window key none db = (none, db)
  opened window key (some current) db =
      (some current, if is_one current then pexpire db key window else db)

  -- `fixedWindowAllowScript`
  unfoldable pub allow_script : ℕ → String → Db → Option ℤ × Db
  unfolding opened
  allow_script window key db =
      let db' = incr db key in opened window key (counted (get (read db' key))) db'

  abbrev pub allowed : ℕ → Option (Option ℤ) → Option Bool
  allowed limit none = none
  allowed limit (some none) = none
  allowed limit (some (some current)) = some (within limit current)

  -- `FixedWindowLimiter.Allow`
  unfoldable pub allow : String → ℕ → ℕ → Link → String → Db → Option Bool × Db
  unfolding allow_script call is_empty
  allow prefix limit window link open_id db =
      let (reply, db') = call link (allow_script window (prefix ++ open_id)) db in
      if is_empty open_id then (some true, db) else (allowed limit reply, db')
