-- ===== src/Auth/Service/Registration.antt =====
-- internal/auth/service.go: the registration of a user.
use anime_companion_ai.Prelude.{
  ℕ, String, Bool, false, Option, none, some, ltb, if◌then◌else◌, Result, ok, err,
}
use anime_companion_ai.Redis.{Redis}
use anime_companion_ai.Redis.Link.{Link}
use anime_companion_ai.Auth.Pending.{PendingVerification}
use anime_companion_ai.Auth.Service.Codes.{
  Notation, Text, Config, AuthError, code_refused, email_in_use, invalid_email, invalid_password,
  internal, normalize_email, take_captcha, create_pending, read_pending, check_pending,
}
use anime_companion_ai.Auth.Service.{
  User, Created, created, duplicated_key, not_created, Accounts, Passwords, LoggedIn, World, log_in,
  forget_pending,
}

module _ (redis : Redis) (text : Text) (notation : Notation) (config : Config)
    (passwords : Passwords) (accounts : Accounts) where
  open redis use {Db}
  open text use {digest}

  abbrev World' : Type 0
  World' = World redis text notation config passwords accounts

  unfoldable pub start_unless_used :
      (ℕ → Link)
      → String
      → String
      → String
      → String
      → Bool
      → Option ℕ
      → World'
      → Option AuthError × World'
  unfolding create_pending
  start_unless_used link email password salt code mailed none w = (some internal, w)
  start_unless_used link email password salt code mailed (some count) w =
      let started : Option AuthError × World' = elim (passwords.hash password salt) [
        | none ↦ (some invalid_password, w)
        | some hash ↦
            let (e, db) =
              create_pending text redis notation config link "register" email hash code mailed
                w.db in
            (e, record w { db = db })
      ] in
      if ltb 0 count then (some email_in_use, w) else started

  unfoldable pub start_captured :
      (ℕ → Link)
      → String
      → String
      → String
      → String
      → Bool
      → Option AuthError × Db
      → World'
      → Option AuthError × World'
  unfolding start_unless_used
  start_captured link email password salt code mailed (some e, db) w =
      (some e, record w { db = db })
  start_captured link email password salt code mailed (none, db) w =
      start_unless_used link email password salt code mailed (accounts.count_email email w.users)
        (record w { db = db })

  -- `StartRegistration`; the link 3 is that of the captcha, the others are those of `createPending`.
  unfoldable pub start_registration :
      (ℕ → Link)
      → String
      → String
      → String
      → String
      → String
      → String
      → Bool
      → World'
      → Option AuthError × World'
  unfolding start_captured normalize_email take_captcha
  start_registration link email password captcha_id captcha_answer salt code mailed w =
      elim (normalize_email text email) [
        | none ↦ (some invalid_email, w)
        | some normal ↦
            start_captured link normal password salt code mailed
              (take_captcha text redis notation config (link 3) captcha_id captcha_answer w.db) w
      ]

  unfoldable pub resend_pending :
      (ℕ → Link)
      → String
      → String
      → Bool
      → Option PendingVerification × Db
      → World'
      → Option AuthError × World'
  unfolding create_pending
  resend_pending link email code mailed (none, db) w = (some code_refused, record w { db = db })
  resend_pending link email code mailed (some pending, db) w =
      let (e, db') =
        create_pending text redis notation config link "register" email pending.password_hash code
          mailed db in
      (e, record w { db = db' })

  -- `ResendRegistration`
  unfoldable pub resend_registration :
      (ℕ → Link) → String → String → Bool → World' → Option AuthError × World'
  unfolding resend_pending normalize_email read_pending
  resend_registration link email code mailed w = elim (normalize_email text email) [
    | none ↦ (some invalid_email, w)
    | some normal ↦
        resend_pending link normal code mailed
          (read_pending text redis notation config (link 3) "register" normal w.db) w
  ]

  unfoldable pub register_user :
      (ℕ → Link)
      → User
      → String
      → Created × accounts.State
      → World'
      → Result AuthError LoggedIn × World'
  unfolding forget_pending log_in
  register_user link user token (duplicated_key, users) w =
      (err email_in_use, record w { users = users })
  register_user link user token (not_created, users) w = (err internal, record w { users = users })
  register_user link user token (created, users) w =
      log_in redis text notation config passwords accounts (link 3) token user (
        forget_pending redis text notation config passwords accounts (link 2) "register" user.email
          (record w { users = users }))

  unfoldable pub register_verified :
      (ℕ → Link)
      → String
      → String
      → String
      → ℕ
      → Result AuthError PendingVerification × Db
      → World'
      → Result AuthError LoggedIn × World'
  unfolding register_user
  register_verified link email id token now (err e, db) w = (err e, record w { db = db })
  register_verified link email id token now (ok pending, db) w =
      let user : User = record {
        id = id;
        email = email;
        password_hash = pending.password_hash;
        is_admin = false;
        verified_at = now;
      } in
      register_user link user token (accounts.create user w.users) (record w { db = db })

  -- `VerifyRegistration`; `id` and `token` are drawn, and `now` is the time.
  unfoldable pub verify_registration :
      (ℕ → Link)
      → String
      → String
      → String
      → String
      → ℕ
      → World'
      → Result AuthError LoggedIn × World'
  unfolding register_verified normalize_email check_pending
  verify_registration link email code id token now w = elim (normalize_email text email) [
    | none ↦ (err invalid_email, w)
    | some normal ↦
        register_verified link normal id token now
          (check_pending text redis notation config link "register" normal code w.db) w
  ]
