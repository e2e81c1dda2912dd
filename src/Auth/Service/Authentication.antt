-- ===== src/Auth/Service/Authentication.antt =====
-- internal/auth/service.go: what a login has shown.
use anime_companion_ai.Prelude.{
  ℕ, ◌<◌, String, ◌≡◌, refl, sym, ap, ◌∙◌, true, Option, none, some, if_cases, str_eq, eq_iff,
  eq_refl, Result, ok, err,
}
use anime_companion_ai.Prelude.Text.{trim_space}
use anime_companion_ai.Redis.{Redis}
use anime_companion_ai.Redis.Entries.{get, text as entry_text}
use anime_companion_ai.Redis.Link.{Link, answered, unsent, answer_lost, call}
use anime_companion_ai.Auth.Pending.{CodeError, consume_captcha}
use anime_companion_ai.Auth.Sessions.{session_key, store_session, create_session}
use anime_companion_ai.Auth.Sessions.Listed.{key_of, session-store_session}
use anime_companion_ai.Auth.Service.{User, LoggedIn, Accounts, Passwords, World, log_in}
use anime_companion_ai.Auth.Service.Login.{login_as, login_captured, login}
use anime_companion_ai.Auth.Service.Codes.{
  Notation, Text, Config, AuthError, internal, invalid_credentials, captcha_refused, captcha_key,
  captcha_result, take_captcha, normalize_email,
}

module _ (redis : Redis) (text : Text) (notation : Notation) (config : Config)
    (passwords : Passwords) (accounts : Accounts) (positive : 0 < config.session_ttl) where
  open redis use {Db, read, del}
  open text use {digest, upper}

  abbrev World' : Type 0
  World' = World redis text notation config passwords accounts

  -- The answer is right.
  abbrev Holds : String → Option String → Type 0
  Holds answer held = held ≡ some (digest (upper (trim_space answer)))

  consume_captcha-Holds :
      (answer : String) (held : Option String)
      → captcha_result text redis notation config (consume_captcha digest upper answer held).0
        ≡ none
      → Holds answer held
  unfolding consume_captcha
  consume_captcha-Holds answer none h =
      absurd (let impossible : some captcha_refused ≡ none = h in cc)
  consume_captcha-Holds answer (some want) h =
      if_cases
        (λ (r : Result CodeError (Unit {0}) × Option String).
          captcha_result text redis notation config r.0 ≡ none → Holds answer (some want))
        (str_eq want (digest (upper (trim_space answer))))
        (λ e _. ap some ((eq_iff want (digest (upper (trim_space answer)))).0 e))
        (λ _ e. absurd (let impossible : some captcha_refused ≡ none = e in cc)) h

  take_captcha-Holds :
      (link : Link) (id answer : String) (db : Db)
      → (take_captcha text redis notation config link id answer db).0 ≡ none
      → Holds answer (get (read db (captcha_key (trim_space id))))
  unfolding take_captcha call
  take_captcha-Holds answered id answer db h = consume_captcha-Holds answer _ h
  take_captcha-Holds unsent id answer db h =
      absurd (let none_held = consume_captcha-Holds answer none h in cc)
  take_captcha-Holds answer_lost id answer db h =
      absurd (let none_held = consume_captcha-Holds answer none h in cc)

  -- A login that opens a session of the user under the token.
  record Opens (token : String) (r : Result AuthError LoggedIn × World') (user : User) (t : String)
      : Type 0 where
    token_kept : t ≡ token
    opened : get (read r.1.db (key_of (digest token))) ≡ some user.id

  session-found :
      (id : String) (db : Db) (token : String)
      → read
          (store_session redis digest config.session_ttl (key_of (digest token)) id db)
          (key_of (digest token))
        ≡ entry_text id
  session-found id db token =
      session-store_session redis digest config.session_ttl positive (digest token) id db
        (digest token)
      ∙ rw (eq_refl (key_of (digest token))) refl

  log_in-Opens :
      (link : Link) (token : String) (user : User) (w : World') (u : User) (t : String)
      → (log_in redis text notation config passwords accounts link token user w).0 ≡ ok (u, t)
      → (user ≡ u)
        × Opens token (log_in redis text notation config passwords accounts link token user w) u t
  unfolding log_in create_session session_key call
  log_in-Opens unsent token user w u t h =
      absurd (let impossible : err internal ≡ ok (u, t) = h in cc)
  log_in-Opens answer_lost token user w u t h =
      absurd (let impossible : err internal ≡ ok (u, t) = h in cc)
  log_in-Opens answered token user w u t h =
      let same : user ≡ u = cc in
      (
        same,
        record {
          token_kept = cc;
          opened = ap get (session-found user.id w.db token) ∙ ap (λ x. some x.id) same;
        },
      )

  login_as-Opens :
      (link : Link) (password token : String) (row : Option User) (w : World') (u : User)
      (t : String)
      → (login_as redis text notation config passwords accounts link password token row w).0
        ≡ ok (u, t)
      → (row ≡ some u)
        × (passwords.verify u.password_hash password ≡ true)
        × Opens token
            (login_as redis text notation config passwords accounts link password token row w)
            u
            t
  unfolding login_as
  login_as-Opens link password token none w u t h =
      absurd (let impossible : err invalid_credentials ≡ ok (u, t) = h in cc)
  login_as-Opens link password token (some user) w u t h =
      if_cases
        (λ (r : Result AuthError LoggedIn × World').
          r.0 ≡ ok (u, t)
          → (some user ≡ some u)
            × (passwords.verify u.password_hash password ≡ true)
            × Opens token r u t)
        (passwords.verify user.password_hash password)
        (λ right f.
          let (same, opens) = log_in-Opens link token user w u t f in
          (
            ap some same,
            ap (λ x. passwords.verify x.password_hash password) (sym same) ∙ right,
            opens,
          ))
        (λ _ f. absurd (let impossible : err invalid_credentials ≡ ok (u, t) = f in cc)) h

  -- What is shown by a login of `u`.
  pub record Shows (email password captcha_id captcha_answer token : String) (w : World')
      (r : Result AuthError LoggedIn × World') (u : User) (t : String) : Type 0 where
    pub normal : String
    pub named : normalize_email text email ≡ some normal
    pub registered : accounts.by_email normal w.users ≡ some u
    pub verified : passwords.verify u.password_hash password ≡ true
    pub captcha :
        get (read w.db (captcha_key (trim_space captcha_id)))
        ≡ some (digest (upper (trim_space captcha_answer)))
    pub token_kept : t ≡ token
    pub opened : get (read r.1.db (session_key redis digest config.session_ttl token)) ≡ some u.id

  login_captured-Opens :
      (link : Link) (email password token : String) (captured : Option AuthError × Db) (w : World')
      (u : User) (t : String)
      → (login_captured redis text notation config passwords accounts link email password token
          captured w).0
        ≡ ok (u, t)
      → (captured.0 ≡ none)
        × (accounts.by_email email w.users ≡ some u)
        × (passwords.verify u.password_hash password ≡ true)
        × Opens token
            (login_captured redis text notation config passwords accounts link email password token
              captured w)
            u
            t
  unfolding login_captured
  login_captured-Opens link email password token (some e, db) w u t h =
      absurd (let impossible : err e ≡ ok (u, t) = h in cc)
  login_captured-Opens link email password token (none, db) w u t h =
      let (registered, verified, opens) =
        login_as-Opens link password token (accounts.by_email email w.users) (record w { db = db })
          u t h in
      (refl, registered, verified, opens)

  -- `Login` from the normal form of the address on.
  abbrev outcome :
      (ℕ → Link)
      → String
      → String
      → String
      → String
      → World'
      → Option String
      → Result AuthError LoggedIn × World'
  outcome link password captcha_id captcha_answer token w normal = elim normal [
    | none ↦ (err invalid_credentials, w)
    | some x ↦
        login_captured redis text notation config passwords accounts (link 1) x password token
          (take_captcha text redis notation config (link 0) captcha_id captcha_answer w.db) w
  ]

  -- If `Login` succeeds for a user and with a token, whatever calls are lost, then the captcha had the
  -- given answer, the user is the one of the given address, its password is the given one, and the
  -- token is the one that was drawn and is a session of this user.
  pub login-Shows :
      (link : ℕ → Link) (email password captcha_id captcha_answer token : String) (w : World')
      (u : User) (t : String)
      → (login redis text notation config passwords accounts link email password captcha_id
          captcha_answer token w).0
        ≡ ok (u, t)
      → Shows email password captcha_id captcha_answer token w
          (login redis text notation config passwords accounts link email password captcha_id
            captcha_answer token w)
          u
          t
  unfolding login session_key
  login-Shows link email password captcha_id captcha_answer token w u t h =
      by_email (normalize_email text email) refl h
    where
      by_email :
          (normal : Option String)
          → normalize_email text email ≡ normal
          → (outcome link password captcha_id captcha_answer token w normal).0 ≡ ok (u, t)
          → Shows email password captcha_id captcha_answer token w
              (outcome link password captcha_id captcha_answer token w normal)
              u
              t
      by_email none named f =
          absurd (let impossible : err invalid_credentials ≡ ok (u, t) = f in cc)
      by_email (some x) named f =
          let (captured, registered, verified, opens) =
            login_captured-Opens (link 1) x password token
              (take_captcha text redis notation config (link 0) captcha_id captcha_answer w.db) w u
              t f in
          record {
            normal = x;
            named = named;
            registered = registered;
            verified = verified;
            captcha = take_captcha-Holds (link 0) captcha_id captcha_answer w.db captured;
            token_kept = opens.token_kept;
            opened = opens.opened;
          }
