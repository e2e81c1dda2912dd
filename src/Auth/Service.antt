-- ===== src/Auth/Service.antt =====
-- internal/auth/service.go: registration, login and the reset of a password over Redis and the table of
-- users.
pub mod Codes
pub mod Registration
pub mod Login
pub mod Authentication
pub mod Unrelated
pub mod Reset
pub mod Samples
pub mod Tests
use anime_companion_ai.Prelude.{
  ℕ, String, Bool, true, false, not, ◌||◌, Option, none, some, List, ltb, if◌then◌else◌, Result, ok,
  err,
}
use anime_companion_ai.Prelude.Text.{is_empty, byte_len}
use anime_companion_ai.Redis.{Redis}
use anime_companion_ai.Redis.Link.{Link, call}
use anime_companion_ai.Auth.Pending.{PendingVerification}
use anime_companion_ai.Auth.Sessions.{create_session, session_user, revoke_all_sessions}
use anime_companion_ai.Auth.Service.Codes.{
  Notation, Text, Config, AuthError, invalid_credentials, code_refused, email_in_use, unauthorized,
  invalid_email, invalid_password, internal, pending_key, normalize_email, take_captcha,
  create_pending, read_pending, check_pending,
}

-- `User`
pub record User : Type 0 where
  pub id : String
  pub email : String
  pub password_hash : String
  pub is_admin : Bool
  pub verified_at : ℕ

pub data Created : Type 0 where
  created duplicated_key not_created : Created

-- The table of users, which the database keeps. `none` is an error, a row that is not there included.
pub record Accounts : Type 1 where
  pub State : Type 0
  pub count_email : String → State → Option ℕ
  pub by_email : String → State → Option User
  pub by_id : String → State → Option User
  pub create : User → State → Created × State
  -- whether the update is done
  pub update_password : User → String → ℕ → State → Bool × State

-- `hashPassword` with the salt that is drawn, and `verifyPassword`; `none` is an error of the first.
pub record Passwords : Type 0 where
  pub hash : String → String → Option String
  pub verify : String → String → Bool

abbrev pub LoggedIn : Type 0
LoggedIn = User × String

abbrev answer : User → Option String → Result AuthError LoggedIn
answer user none = err internal
answer user (some token) = ok (user, token)

module _ (redis : Redis) (text : Text) (notation : Notation) (config : Config)
    (passwords : Passwords) (accounts : Accounts) where
  open redis use {Db, del}
  open text use {digest}

  -- What the service keeps: the server of Redis and the table.
  pub record World : Type 0 where
    pub db : Db
    pub users : accounts.State

  abbrev on_redis : World → Db → World
  on_redis w db = record w { db = db }

  -- The last step of the three operations that log in.
  unfoldable pub log_in : Link → String → User → World → Result AuthError LoggedIn × World
  unfolding create_session
  log_in link token user w =
      let (drawn, db) = create_session redis digest config.session_ttl link token user.id w.db in
      (answer user drawn, on_redis w db)

  -- DEL of an entry that is used up; its error is not asked for.
  unfoldable pub forget_pending : Link → String → String → World → World
  unfolding pending_key call
  forget_pending link purpose email w =
      let command : Db → Unit {0} × Db = λ d. (tt, del d (pending_key purpose email)) in
      on_redis w (call link command w.db).1

  unfoldable pub user_of : Option String → World → Result AuthError User
  user_of none w = err unauthorized
  user_of (some id) w = elim (accounts.by_id id w.users) [
    | none ↦ err unauthorized
    | some user ↦ ok user
  ]

  -- `CurrentUser`
  unfoldable pub current_user : Link → String → World → Result AuthError User × World
  unfolding user_of session_user
  current_user link token w =
      let (id, db) = session_user redis digest config.session_ttl link token w.db in
      (user_of id w, on_redis w db)
