-- ===== src/Auth/Sessions.antt =====
-- internal/auth/service.go: the sessions, which Redis keeps: `createSession`, the key that `CurrentUser`
-- reads, `Logout` and `RevokeAllSessions`.
pub mod Listed
pub mod Dropped
pub mod Histories
pub mod Revocation
pub mod Tests
use Prim.Native.String.{◌++◌}
use mathlib.Core.List.{◌++◌ as append}
use anime_companion_ai.Prelude.{
  ℕ, String, Bool, true, false, Option, none, some, List, [], ◌∷◌, if◌then◌else◌,
}
use anime_companion_ai.Prelude.Text.{is_empty}
use anime_companion_ai.Redis.{Redis}
use anime_companion_ai.Redis.Entries.{get, smembers}
use anime_companion_ai.Redis.Link.{Link, call}

abbrev pub or_empty : Option String → String
or_empty none = ""
or_empty (some s) = s

-- A reply of GET, where no value is an error of the client too.
abbrev pub found : Option (Option String) → Option String
found none = none
found (some value) = value

abbrev pub is_done : Option (Unit {0}) → Bool
is_done none = false
is_done (some done) = true

unfoldable pub sessions_of : String → String
sessions_of user_id = "auth:user_sessions:" ++ user_id

-- `digest` is the keyed hash of the service, and `session_ttl` the lifetime in milliseconds.
module _ (redis : Redis) (digest : String → String) (session_ttl : ℕ) where
  open redis use {Db, read, set, del, sadd, srem, pexpire}

  -- `sessionKey`
  unfoldable pub session_key : String → String
  session_key token = "auth:session:" ++ digest token

  -- The pipeline of `createSession`.
  unfoldable pub store_session : String → String → Db → Db
  unfolding sessions_of
  store_session key user_id db =
      let written = pexpire (set db key user_id) key session_ttl in
      pexpire (sadd written (sessions_of user_id) key) (sessions_of user_id) session_ttl

  -- `createSession`; `token` is what `randomToken` draws.
  unfoldable pub create_session : Link → String → String → Db → Option String × Db
  unfolding store_session call session_key
  create_session link token user_id db =
      let pipeline : Db → Unit {0} × Db = λ d. (tt, store_session (session_key token) user_id d) in
      let (reply, db') = call link pipeline db in
      (elim reply [ none ↦ none | some done ↦ some token ], db')

  -- The user whose session it is, as `CurrentUser` asks Redis.
  unfoldable pub session_user : Link → String → Db → Option String × Db
  unfolding call session_key is_empty
  session_user link token db =
      let (reply, db') = call link (λ d. (get (read d (session_key token)), d)) db in
      if is_empty token then (none, db) else (found reply, db')

  -- The pipeline of `Logout`.
  unfoldable pub drop_session : String → String → Db → Db
  unfolding sessions_of is_empty
  drop_session key user_id db =
      let dropped = del db key in
      if is_empty user_id then dropped else srem dropped (sessions_of user_id) key

  -- `Logout`, with whether it succeeds.
  unfoldable pub logout : Link → Link → String → Db → Bool × Db
  unfolding drop_session call session_key is_empty
  logout link link' token db =
      let key = session_key token in
      let (reply, db₁) = call link (λ d. (get (read d key), d)) db in
      let pipeline : Db → Unit {0} × Db = λ d. (tt, drop_session key (or_empty (found reply)) d) in
      let (done, db₂) = call link' pipeline db₁ in
      if is_empty token then (true, db) else (is_done done, db₂)

  unfoldable pub del_all : List String → Db → Db
  del_all [] db = db
  del_all (key ∷ keys) db = del_all keys (del db key)

  -- The second call of `RevokeAllSessions`.
  unfoldable pub revoke : String → List String → Db → Db
  unfolding del_all sessions_of
  revoke user_id [] db = del db (sessions_of user_id)
  revoke user_id (key ∷ keys) db = del_all (append (key ∷ keys) (sessions_of user_id ∷ [])) db

  unfoldable pub revoke_listed : Link → String → Option (List String) × Db → Bool × Db
  unfolding revoke call
  revoke_listed link user_id (none, db) = (false, db)
  revoke_listed link user_id (some keys, db) =
      let command : Db → Unit {0} × Db = λ d. (tt, revoke user_id keys d) in
      let (reply, db') = call link command db in (is_done reply, db')

  -- `RevokeAllSessions`
  unfoldable pub revoke_all_sessions : Link → Link → String → Db → Bool × Db
  unfolding revoke_listed call sessions_of
  revoke_all_sessions link link' user_id db =
      revoke_listed link' user_id (call link (λ d. (smembers (read d (sessions_of user_id)), d)) db)
