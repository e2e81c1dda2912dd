-- ===== src/Auth/Service/Reset.antt =====
-- internal/auth/service.go: what `ResetPassword` leaves of the user's sessions.
use anime_companion_ai.Prelude.{
  ℕ, ◌<◌, String, ◌≡◌, ◌≢◌, refl, sym, ap, ◌∙◌, Bool, true, false, Option, none, some, if_cases,
  str_eq, Result, ok, err,
}
use anime_companion_ai.Redis.{Redis}
use anime_companion_ai.Redis.Entries.{get, absent}
use anime_companion_ai.Redis.Link.{Link, answered, unsent, answer_lost, call}
use anime_companion_ai.Auth.Pending.{PendingVerification}
use anime_companion_ai.Auth.Sessions.{
  session_key, create_session, revoke_all_sessions, session_user,
}
use anime_companion_ai.Auth.Sessions.Listed.{key_of, session-store_session}
use anime_companion_ai.Auth.Sessions.Histories.{
  Listed', Reach, Reach-AllListed, IsEmpty-AllListed, revoked-none,
}
use anime_companion_ai.Auth.Sessions.Revocation.{revoke_all_sessions-done, session_user-live}
use anime_companion_ai.Auth.Service.Unrelated.{
  call-Same, del-Same, check_pending-Same, Same-AllListed,
}
use anime_companion_ai.Auth.Service.{
  User, LoggedIn, Accounts, Passwords, World, log_in, forget_pending,
}
use anime_companion_ai.Auth.Service.Login.{after_revoke, reset_user, reset_verified, reset_password}
use anime_companion_ai.Auth.Service.Codes.{
  Notation, Text, Config, AuthError, code_refused, invalid_password, pending_key, check_pending,
  normalize_email,
}

module _ (redis : Redis) (text : Text) (notation : Notation) (config : Config)
    (passwords : Passwords) (accounts : Accounts) (positive : 0 < config.session_ttl) where
  open redis use {Db, read, set, del}
  open text use {digest}

  abbrev World' : Type 0
  World' = World redis text notation config passwords accounts

  abbrev Listed'' : Db → Type 0
  Listed'' db = Listed' redis digest config.session_ttl positive db

  -- The user has no session but that of `token`.
  record Alone (token : String) (r : Result AuthError LoggedIn × World') : Type 0 where
    alone :
        (user : User) (t : String)
        → r.0 ≡ ok (user, t)
        → (d : String) → str_eq (key_of (digest token)) (key_of d) ≡ false
        → get (read r.1.db (key_of d)) ≢ some user.id

  refused : (token : String) (e : AuthError) (w : World') → Alone token (err e, w)
  refused token e w = record {
    alone = λ user t f d other own. absurd (let impossible : err e ≡ ok (user, t) = f in cc);
  }

  -- Nobody is logged in as the user.
  abbrev NoneLeft : User → World' → Type 0
  NoneLeft user w = (d : String) → get (read w.db (key_of d)) ≢ some user.id

  log_in-Alone :
      (link : Link) (token : String) (user : User) (w : World')
      → NoneLeft user w
      → Alone token (log_in redis text notation config passwords accounts link token user w)
  unfolding log_in create_session session_key call
  log_in-Alone unsent token user w none_left = refused token _ _
  log_in-Alone answer_lost token user w none_left = refused token _ _
  log_in-Alone answered token user w none_left = record {
    alone = λ user' t f d other own.
        let same_user : user ≡ user' = cc in
        let old =
          session-store_session redis digest config.session_ttl positive (digest token) user.id w.db
            d
          ∙ rw other refl in
        none_left d (ap get (sym old) ∙ own ∙ ap (λ u. some u.id) (sym same_user));
  }

  forget_pending-NoneLeft :
      (link : Link) (email : String) (user : User) (w : World')
      → NoneLeft user w
      → NoneLeft user
          (forget_pending redis text notation config passwords accounts link "reset" email w)
  unfolding forget_pending
  forget_pending-NoneLeft link email user w none_left d own =
      let command : Db → Unit {0} × Db = λ db. (tt, del db (pending_key "reset" email)) in
      let kept =
        call-Same redis text notation config passwords accounts positive link command w.db
          (del-Same redis text notation config passwords accounts positive "reset" email w.db) in
      none_left d (ap get (sym (kept.sessions d)) ∙ own)

  after_revoke-Alone :
      (link : ℕ → Link) (email : String) (user : User) (token : String) (revoked : Bool × Db)
      (w : World')
      → (revoked.0 ≡ true → NoneLeft user (record w { db = revoked.1 }))
      → Alone token (
          after_revoke redis text notation config passwords accounts link email user token revoked
            w)
  unfolding after_revoke
  after_revoke-Alone link email user token (false, db) w none_left = refused token _ _
  after_revoke-Alone link email user token (true, db) w none_left =
      log_in-Alone (link 5) token user _
        (forget_pending-NoneLeft (link 4) email user (record w { db = db }) (none_left refl))

  reset_user-Alone :
      (link : ℕ → Link) (email hash : String) (now : ℕ) (token : String) (user : Option User)
      (w : World')
      → Listed'' w.db
      → Alone token (
          reset_user redis text notation config passwords accounts link email hash now token user w)
  unfolding reset_user
  reset_user-Alone link email hash now token none w h = refused token _ _
  reset_user-Alone link email hash now token (some user) w h =
      let updated = accounts.update_password user hash now w.users in
      let revoked =
        revoke_all_sessions redis digest config.session_ttl (link 2) (link 3) user.id w.db in
      if_cases (Alone token) updated.0
        (λ _.
          after_revoke-Alone link email user token revoked (record w { users = updated.1 })
            λ done d.
              rw
                (revoke_all_sessions-done redis digest config.session_ttl positive (link 2) (link 3)
                  user.id w.db done)
                (revoked-none redis digest config.session_ttl positive user.id w.db d h))
        (λ _. refused token _ _)

  reset_verified-Alone :
      (link : ℕ → Link) (email new_password salt : String) (now : ℕ) (token : String)
      (checked : Result AuthError PendingVerification × Db) (w : World')
      → Listed'' checked.1
      → Alone token (
          reset_verified redis text notation config passwords accounts link email new_password salt
            now token checked w)
  unfolding reset_verified
  reset_verified-Alone link email new_password salt now token (err e, db) w h = refused token _ _
  reset_verified-Alone link email new_password salt now token (ok pending, db) w h =
      by_hash (passwords.hash new_password salt)
    where
      by_hash :
          (hash : Option String)
          → Alone token (elim hash [
            | none ↦ (err invalid_password, record w { db = db })
            | some x ↦
                reset_user redis text notation config passwords accounts link email x now token
                  (accounts.by_email email w.users)
                  (record w { db = db })
          ])
      by_hash none = refused token _ _
      by_hash (some x) =
          reset_user-Alone link email x now token (accounts.by_email email w.users)
            (record w { db = db }) h

  reset_password-Alone :
      (link : ℕ → Link) (email code new_password salt : String) (now : ℕ) (token : String)
      (w : World')
      → Listed'' w.db
      → Alone token (
          reset_password redis text notation config passwords accounts link email code new_password
            salt now token w)
  unfolding reset_password
  reset_password-Alone link email code new_password salt now token w h =
      by_email (normalize_email text email)
    where
      by_email :
          (normal : Option String)
          → Alone token (elim normal [
            | none ↦ (err code_refused, w)
            | some x ↦
                reset_verified redis text notation config passwords accounts link x new_password
                  salt now token
                  (check_pending text redis notation config link "reset" x code w.db)
                  w
          ])
      by_email none = refused token _ _
      by_email (some x) = reset_verified-Alone link x new_password salt now token _ w (
          Same-AllListed redis text notation config passwords accounts positive w.db _
            (check_pending-Same redis text notation config passwords accounts positive link "reset"
              x code w.db)
            h)

  -- After any history of sessions on an empty server in which each earlier revocation is one step, that
  -- is, no login or logout comes between the two calls of a `RevokeAllSessions`: if `ResetPassword` succeeds, for a user and with a new token, then no
  -- other token, with another key, is a session of this user any more.
  pub reset_password-ends :
      (db₀ : Db) (w : World')
      → ((j : String) → read db₀ j ≡ absent)
      → Reach redis digest config.session_ttl positive db₀ w.db
      → (link : ℕ → Link) (email code new_password salt : String) (now : ℕ) (token : String)
        (user : User) (t : String)
      → (reset_password redis text notation config passwords accounts link email code new_password
          salt now token w).0
        ≡ ok (user, t)
      → (link' : Link) (old : String)
      → str_eq
          (session_key redis digest config.session_ttl token)
          (session_key redis digest config.session_ttl old)
        ≡ false
      → (session_user redis digest config.session_ttl link' old
          (reset_password redis text notation config passwords accounts link email code new_password
            salt now token w).1.db).0
        ≢ some user.id
  unfolding session_key
  reset_password-ends db₀ w empty reach link email code new_password salt now token user t done
        link' old other own =
      let all =
        Reach-AllListed redis digest config.session_ttl positive db₀ w.db
          (IsEmpty-AllListed redis digest config.session_ttl positive db₀ empty) reach in
      let live =
        session_user-live redis digest config.session_ttl positive link' old _ user.id own in
      (reset_password-Alone link email code new_password salt now token w all).alone user t done
        (digest old) other live
