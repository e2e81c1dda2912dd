-- ===== src/Gateway/Accounts.antt =====
-- internal/gateway/auth_handler.go: the handlers of registration, login, reset and logout. The body of
-- a request is `none` if it cannot be read.
pub mod Blind
pub mod Logout
pub mod Tests
use anime_companion_ai.Prelude.{ℕ, String, Bool, true, false, Option, none, some, Result, ok, err}
use anime_companion_ai.Redis.{Redis}
use anime_companion_ai.Redis.Link.{Link}
use anime_companion_ai.Auth.Sessions.{logout}
use anime_companion_ai.Auth.Service.{User, LoggedIn, Accounts, Passwords, World, current_user}
use anime_companion_ai.Auth.Service.Codes.{
  Notation, Text, Config, AuthError, invalid_credentials, captcha_refused, code_refused,
  email_in_use, rate_limited, unauthorized, mail_unavailable, invalid_email, invalid_password,
  internal,
}
use anime_companion_ai.Auth.Service.Registration.{
  start_registration, resend_registration, verify_registration,
}
use anime_companion_ai.Auth.Service.Login.{login, start_password_reset, reset_password}

-- `credentialsReq`, `verifyReq` and `resetReq`
pub record Credentials : Type 0 where
  pub email : String
  pub password : String
  pub captcha_id : String
  pub captcha_answer : String

pub record Verification : Type 0 where
  pub email : String
  pub code : String

pub record Reset : Type 0 where
  pub email : String
  pub code : String
  pub new_password : String

-- What the response does to the session cookie.
pub data Cookie : Type 0 where
  kept cleared : Cookie
  session : String → Cookie

-- A status of HTTP with the code of an error, or with a word or a user.
pub data Reply : Type 0 where
  api_error : ℕ → String → Cookie → Reply
  said : ℕ → String → Cookie → Reply
  shown : ℕ → User → Cookie → Reply

-- `authError`
unfoldable pub auth_error : AuthError → Reply
auth_error invalid_credentials = api_error 401 "invalid_credentials" kept
auth_error captcha_refused = api_error 400 "invalid_captcha" kept
auth_error code_refused = api_error 400 "invalid_code" kept
auth_error email_in_use = api_error 409 "email_in_use" kept
auth_error mail_unavailable = api_error 503 "email_unavailable" kept
auth_error rate_limited = api_error 429 "rate_limited" kept
auth_error _ = api_error 400 "invalid_request" kept

abbrev pub invalid_request : Reply
invalid_request = api_error 400 "invalid_request" kept

abbrev sent_or : Option AuthError → Reply
unfolding auth_error
sent_or none = said 202 "verification_sent" kept
sent_or (some e) = auth_error e

-- A login that has succeeded sets the cookie.
abbrev logged_in : ℕ → Result AuthError LoggedIn → Reply
unfolding auth_error
logged_in status (ok (user, token)) = shown status user (session token)
logged_in status (err e) = auth_error e

-- Only an error of the captcha or of the mail is told.
unfoldable pub forgotten : Option AuthError → Reply
unfolding auth_error
forgotten (some captcha_refused) = auth_error captcha_refused
forgotten (some mail_unavailable) = auth_error mail_unavailable
forgotten _ = said 202 "if_account_exists_email_sent" kept

abbrev pub required : Result AuthError User → Result Reply User
required (ok user) = ok user
required (err e) = err (api_error 401 "unauthorized" cleared)

module _ (redis : Redis) (text : Text) (notation : Notation) (config : Config)
    (passwords : Passwords) (accounts : Accounts) where
  abbrev World' : Type 0
  World' = World redis text notation config passwords accounts

  -- What a request meets: the fate of its calls, what is drawn, the time, and whether the mail goes out.
  pub record Chance : Type 0 where
    pub link : ℕ → Link
    pub salt : String
    pub code : String
    pub id : String
    pub token : String
    pub now : ℕ
    pub mailed : Bool

  -- `authRegisterStart`
  unfoldable pub auth_register_start : Chance → Option Credentials → World' → Reply × World'
  unfolding start_registration sent_or
  auth_register_start c none w = (invalid_request, w)
  auth_register_start c (some req) w =
      let (e, w') =
        start_registration redis text notation config passwords accounts c.link req.email
          req.password req.captcha_id req.captcha_answer c.salt c.code c.mailed w in
      (sent_or e, w')

  -- `authRegisterResend`
  unfoldable pub auth_register_resend : Chance → Option String → World' → Reply × World'
  unfolding resend_registration sent_or
  auth_register_resend c none w = (invalid_request, w)
  auth_register_resend c (some email) w =
      let (e, w') =
        resend_registration redis text notation config passwords accounts c.link email c.code
          c.mailed w in
      (sent_or e, w')

  -- `authRegisterVerify`
  unfoldable pub auth_register_verify : Chance → Option Verification → World' → Reply × World'
  unfolding verify_registration logged_in
  auth_register_verify c none w = (invalid_request, w)
  auth_register_verify c (some req) w =
      let (r, w') =
        verify_registration redis text notation config passwords accounts c.link req.email req.code
          c.id c.token c.now w in
      (logged_in 201 r, w')

  -- `authLogin`
  unfoldable pub auth_login : Chance → Option Credentials → World' → Reply × World'
  unfolding login logged_in
  auth_login c none w = (invalid_request, w)
  auth_login c (some req) w =
      let (r, w') =
        login redis text notation config passwords accounts c.link req.email req.password
          req.captcha_id req.captcha_answer c.token w in
      (logged_in 200 r, w')

  -- `authForgotPassword`
  unfoldable pub auth_forgot_password : Chance → Option Credentials → World' → Reply × World'
  unfolding start_password_reset forgotten
  auth_forgot_password c none w = (invalid_request, w)
  auth_forgot_password c (some req) w =
      let (e, w') =
        start_password_reset redis text notation config passwords accounts c.link req.email
          req.captcha_id req.captcha_answer c.code c.mailed w in
      (forgotten e, w')

  -- `authResetPassword`
  unfoldable pub auth_reset_password : Chance → Option Reset → World' → Reply × World'
  unfolding reset_password logged_in
  auth_reset_password c none w = (invalid_request, w)
  auth_reset_password c (some req) w =
      let (r, w') =
        reset_password redis text notation config passwords accounts c.link req.email req.code
          req.new_password c.salt c.now c.token w in
      (logged_in 200 r, w')

  abbrev cookie_value : Option String → String
  cookie_value none = ""
  cookie_value (some token) = token

  -- `authLogout`, for the value of the cookie.
  unfoldable pub auth_logout : Chance → Option String → World' → Reply × World'
  unfolding logout
  auth_logout c cookie w =
      let (done, db) =
        logout redis text.digest config.session_ttl (c.link 1) (c.link 2) (cookie_value cookie)
          w.db in
      (
        elim done [ true ↦ said 204 "" cleared | false ↦ api_error 503 "logout_failed" kept ],
        record w { db = db },
      )

  -- `requireUser`: the user whom the handlers behind it find, or the response that refuses.
  unfoldable pub require_user : Link → Option String → World' → Result Reply User × World'
  unfolding current_user
  require_user link none w = (err (api_error 401 "unauthorized" kept), w)
  require_user link (some token) w =
      let (r, w') = current_user redis text notation config passwords accounts link token w in
      (required r, w')
