-- ===== src/Gateway/Accounts/Blind.antt =====
-- internal/gateway/auth_handler.go: what `authForgotPassword` tells of the users.
use anime_companion_ai.Prelude.{
  ℕ, String, ◌≡◌, refl, sym, ap, ◌∙◌, Bool, true, false, Option, none, some, if_cases,
}
use anime_companion_ai.Redis.{Redis}
use anime_companion_ai.Redis.Link.{Link, call}
use anime_companion_ai.Auth.Sessions.{is_done}
use anime_companion_ai.Auth.Service.{User, Accounts, Passwords, World}
use anime_companion_ai.Auth.Service.Codes.{
  Notation, Text, Config, AuthError, normalize_email, take_captcha, create_pending, store_pending,
  after_mail, pending_key, new_pending,
}
use anime_companion_ai.Auth.Service.Login.{reset_captured, start_password_reset}
use anime_companion_ai.Gateway.Accounts.{
  Credentials, Reply, said, kept, forgotten, Chance, auth_forgot_password,
}

module _ (redis : Redis) (text : Text) (notation : Notation) (config : Config) where
  open redis use {Db}

  abbrev silence : Reply
  silence = said 202 "if_account_exists_email_sent" kept

  abbrev Tells {ℓ} : {S : Type ℓ} → Reply → Option AuthError × S → Type 0
  Tells reply r = forgotten r.0 ≡ reply

  -- What is told after a code has been made, if the mail goes out.
  after_mail-silent :
      (link : Link) (purpose email : String) (db : Db)
      → forgotten (after_mail text redis notation config link purpose email true db).0 ≡ silence
  unfolding forgotten after_mail
  after_mail-silent link purpose email db = refl

  store_pending-silent :
      (link : ℕ → Link) (purpose email hash code : String) (begun : Option Bool × Db)
      → forgotten
          (store_pending text redis notation config link purpose email hash code true begun).0
        ≡ silence
  unfolding store_pending forgotten pending_key
  store_pending-silent link purpose email hash code (none, db) = refl
  store_pending-silent link purpose email hash code (some false, db) = refl
  store_pending-silent link purpose email hash code (some true, db) =
      let key = pending_key purpose email in
      let command : Db → Unit {0} × Db = λ d. (
        tt,
        redis.pexpire
            (redis.set d key
              (notation.encode (new_pending text redis notation config email hash code)))
            key config.code_ttl,
      ) in
      let stored = call (link 1) command db in
      if_cases (Tells silence) (is_done stored.0)
        (λ _. after_mail-silent (link 2) purpose email stored.1) (λ _. refl)

  create_pending-silent :
      (link : ℕ → Link) (purpose email hash code : String) (db : Db)
      → forgotten (create_pending text redis notation config link purpose email hash code true db).0
        ≡ silence
  unfolding create_pending
  create_pending-silent link purpose email hash code db =
      store_pending-silent link purpose email hash code _

  module _ (passwords : Passwords) (accounts : Accounts) where
    abbrev World' : Type 0
    World' = World redis text notation config passwords accounts

    reset_captured-silent :
        (link : ℕ → Link) (email code : String) (db : Db) (w : World')
        → forgotten
            (reset_captured redis text notation config passwords accounts link email code true
              (none, db)
              w).0
          ≡ silence
    unfolding reset_captured forgotten
    reset_captured-silent link email code db w = by_row (accounts.by_email email w.users)
      where
        by_row :
            (row : Option User)
            → Tells {S = World'} silence (elim row [
              | none ↦ (none, record w { db = db })
              | some user ↦ (
                (create_pending text redis notation config link "reset" email "" code true db).0,
                record w {
                  db =
                      (create_pending text redis notation config link "reset" email "" code true
                        db).1;
                },
              )
            ])
        by_row none = refl
        by_row (some user) = create_pending-silent link "reset" email "" code db

    -- The response after the captcha.
    told : Option AuthError → Reply
    told none = silence
    told (some e) = forgotten (some e)

    reset_captured-told :
        (link : ℕ → Link) (email code : String) (captured : Option AuthError × Db) (w : World')
        → forgotten
            (reset_captured redis text notation config passwords accounts link email code true
              captured w).0
          ≡ told captured.0
    unfolding reset_captured told
    reset_captured-told link email code (none, db) w = reset_captured-silent link email code db w
    reset_captured-told link email code (some e, db) w = refl

    told_after : (ℕ → Link) → Credentials → Option String → Db → Reply
    told_after link req none db = silence
    told_after link req (some email) db =
        told
          (take_captcha text redis notation config (link 3) req.captcha_id req.captcha_answer db).0

    start_password_reset-told :
        (link : ℕ → Link) (req : Credentials) (code : String) (w : World')
        → Tells (told_after link req (normalize_email text req.email) w.db) (
            start_password_reset redis text notation config passwords accounts link req.email
              req.captcha_id req.captcha_answer code true w)
    unfolding start_password_reset told_after forgotten
    start_password_reset-told link req code w = by_email (normalize_email text req.email)
      where
        by_email :
            (normal : Option String)
            → Tells {S = World'} (told_after link req normal w.db) (elim normal [
              | none ↦ (none, w)
              | some x ↦
                  reset_captured redis text notation config passwords accounts link x code true
                    (take_captcha text redis notation config
                      (link 3)
                      req.captcha_id
                      req.captcha_answer
                      w.db)
                    w
            ])
        by_email none = refl
        by_email (some x) = reset_captured-told link x code _ w

    -- Two services that differ only in the rows of their tables of users: if the mail goes out, then
    -- `authForgotPassword` gives the same response to the same request, so that the response tells
    -- nothing about who is registered.
    pub auth_forgot_password-blind :
        (c : Chance redis text notation config passwords accounts) (body : Option Credentials)
        (w w' : World')
        → c.mailed ≡ true
        → w.db ≡ w'.db
        → (auth_forgot_password redis text notation config passwords accounts c body w).0
          ≡ (auth_forgot_password redis text notation config passwords accounts c body w').0
    unfolding auth_forgot_password
    auth_forgot_password-blind c none w w' mailed same = refl
    auth_forgot_password-blind c (some req) w w' mailed same = rw mailed (
        start_password_reset-told c.link req c.code w
        ∙ ap (told_after c.link req (normalize_email text req.email)) same
        ∙ sym (start_password_reset-told c.link req c.code w'))
