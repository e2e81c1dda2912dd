-- ===== src/Auth/Service/Login.antt =====
-- internal/auth/service.go: `Login` and the reset of a password.
use anime_companion_ai.Prelude.{
  ℕ, String, Bool, true, false, Option, none, some, if◌then◌else◌, Result, ok, err,
}
use anime_companion_ai.Redis.{Redis}
use anime_companion_ai.Redis.Link.{Link}
use anime_companion_ai.Auth.Pending.{PendingVerification}
use anime_companion_ai.Auth.Sessions.{revoke_all_sessions}
use anime_companion_ai.Auth.Service.Codes.{
  Notation, Text, Config, AuthError, invalid_credentials, code_refused, invalid_password, internal,
  normalize_email, take_captcha, create_pending, check_pending,
}
use anime_companion_ai.Auth.Service.{
  User, Accounts, Passwords, LoggedIn, World, log_in, forget_pending,
}

module _ (redis : Redis) (text : Text) (notation : Notation) (config : Config)
    (passwords : Passwords) (accounts : Accounts) where
  open redis use {Db}
  open text use {digest}

  abbrev World' : Type 0
  World' = World redis text notation config passwords accounts

  unfoldable pub login_as :
      Link → String → String → Option User → World' → Result AuthError LoggedIn × World'
  unfolding log_in
  login_as link password token none w = (err invalid_credentials, w)
  login_as link password token (some user) w =
      let logged_in = log_in redis text notation config passwords accounts link token user w in
      if passwords.verify user.password_hash password
      then logged_in
      else (err invalid_credentials, w)

  unfoldable pub login_captured :
      Link
      → String
      → String
      → String
      → Option AuthError × Db
      → World'
      → Result AuthError LoggedIn × World'
  unfolding login_as
  login_captured link email password token (some e, db) w = (err e, record w { db = db })
  login_captured link email password token (none, db) w =
      login_as link password token (accounts.by_email email w.users) (record w { db = db })

  -- `Login`
  unfoldable pub login :
      (ℕ → Link)
      → String
      → String
      → String
      → String
      → String
      → World'
      → Result AuthError LoggedIn × World'
  unfolding login_captured normalize_email take_captcha
  login link email password captcha_id captcha_answer token w = elim (normalize_email text email) [
    | none ↦ (err invalid_credentials, w)
    | some normal ↦
        login_captured (link 1) normal password token
          (take_captcha text redis notation config (link 0) captcha_id captcha_answer w.db) w
  ]

  unfoldable pub reset_captured :
      (ℕ → Link)
      → String
      → String
      → Bool
      → Option AuthError × Db
      → World'
      → Option AuthError × World'
  unfolding create_pending
  reset_captured link email code mailed (some e, db) w = (some e, record w { db = db })
  reset_captured link email code mailed (none, db) w = elim (accounts.by_email email w.users) [
    | none ↦ (none, record w { db = db })
    | some user ↦
        let (e, db') =
          create_pending text redis notation config link "reset" email "" code mailed db in
        (e, record w { db = db' })
  ]

  -- `StartPasswordReset`
  unfoldable pub start_password_reset :
      (ℕ → Link) → String → String → String → String → Bool → World' → Option AuthError × World'
  unfolding reset_captured normalize_email take_captcha
  start_password_reset link email captcha_id captcha_answer code mailed w =
      elim (normalize_email text email) [
        | none ↦ (none, w)
        | some normal ↦
            reset_captured link normal code mailed
              (take_captcha text redis notation config (link 3) captcha_id captcha_answer w.db) w
      ]

  unfoldable pub after_revoke :
      (ℕ → Link) → String → User → String → Bool × Db → World' → Result AuthError LoggedIn × World'
  unfolding forget_pending log_in
  after_revoke link email user token (false, db) w = (err internal, record w { db = db })
  after_revoke link email user token (true, db) w =
      log_in redis text notation config passwords accounts (link 5) token user (
        forget_pending redis text notation config passwords accounts (link 4) "reset" email
          (record w { db = db }))

  unfoldable pub reset_user :
      (ℕ → Link)
      → String
      → String
      → ℕ
      → String
      → Option User
      → World'
      → Result AuthError LoggedIn × World'
  unfolding after_revoke revoke_all_sessions
  reset_user link email hash now token none w = (err code_refused, w)
  reset_user link email hash now token (some user) w =
      let (done, users) = accounts.update_password user hash now w.users in
      let updated : World' = record w { users = users } in
      let rest =
        after_revoke link email user token
          (revoke_all_sessions redis digest config.session_ttl (link 2) (link 3) user.id w.db)
          updated in
      if done then rest else (err internal, updated)

  unfoldable pub reset_verified :
      (ℕ → Link)
      → String
      → String
      → String
      → ℕ
      → String
      → Result AuthError PendingVerification × Db
      → World'
      → Result AuthError LoggedIn × World'
  unfolding reset_user
  reset_verified link email new_password salt now token (err e, db) w =
      (err e, record w { db = db })
  reset_verified link email new_password salt now token (ok pending, db) w =
      elim (passwords.hash new_password salt) [
        | none ↦ (err invalid_password, record w { db = db })
        | some hash ↦
            reset_user link email hash now token (accounts.by_email email w.users)
              (record w { db = db })
      ]

  -- `ResetPassword`
  unfoldable pub reset_password :
      (ℕ → Link)
      → String
      → String
      → String
      → String
      → ℕ
      → String
      → World'
      → Result AuthError LoggedIn × World'
  unfolding reset_verified normalize_email check_pending
  reset_password link email code new_password salt now token w = elim (normalize_email text email) [
    | none ↦ (err code_refused, w)
    | some normal ↦
        reset_verified link normal new_password salt now token
          (check_pending text redis notation config link "reset" normal code w.db) w
  ]
