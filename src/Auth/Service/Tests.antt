-- ===== src/Auth/Service/Tests.antt =====
-- Mina, who has logged in, resets her password, on a server in memory and a table of one row.
use anime_companion_ai.Prelude.{◌≡◌, ◌≢◌, refl, inl, some, ok}
use anime_companion_ai.Prelude.Text.{trim_space, byte_len}
use anime_companion_ai.Redis.Link.{answered, call}
use anime_companion_ai.Redis.Memory.{memory, fresh}
use anime_companion_ai.Auth.Pending.{consume_captcha, verify_pending}
use anime_companion_ai.Auth.Sessions.{
  session_key, session_user, create_session, revoke_all_sessions, revoke_listed,
}
use anime_companion_ai.Auth.Sessions.Histories.{created, elsewhere, Reach, start, next}
use anime_companion_ai.Auth.Service.{World, log_in, forget_pending}
use anime_companion_ai.Auth.Service.Authentication.{Shows, login-Shows}
use anime_companion_ai.Auth.Service.Login.{
  login, login_captured, login_as, after_revoke, reset_user, reset_verified, reset_password,
}
use anime_companion_ai.Auth.Service.Codes.{
  captcha_key, take_captcha, pending_key, normalize_email, check_pending, read_pending,
  written_after,
}
use anime_companion_ai.Auth.Service.Unrelated.{set-Same}
use anime_companion_ai.Auth.Service.Reset.{reset_password-ends}
use anime_companion_ai.Auth.Service.Samples.{
  strings, notation, config, passwords, accounts, mina, week, always, asked, before,
}

reached : Reach memory strings.digest 604800000 week (fresh 1000) before.db
reached =
    let kept =
      set-Same memory strings notation config passwords accounts week "reset" "mina@sos.jp"
        "#123456" (fresh 1000) in
    next asked _
      (next (fresh 1000) asked start
        (elsewhere (fresh 1000) asked (λ d. inl (kept.sessions d)) (λ i. inl (kept.lists i))))
      (created "token-1" "mina" asked)

done :
    (reset_password memory strings notation config passwords accounts always "mina@sos.jp" "123456"
      "new password" "salt" 2000 "token-2" before).0
    ≡ ok (mina, "token-2")
unfolding reset_password reset_verified reset_user after_revoke forget_pending log_in
    normalize_email check_pending read_pending written_after verify_pending trim_space
    create_session revoke_all_sessions revoke_listed call pending_key byte_len
done = refl

reset_password-ends_example :
    (session_user memory strings.digest 604800000 answered "token-1"
      (reset_password memory strings notation config passwords accounts always "mina@sos.jp"
        "123456" "new password" "salt" 2000 "token-2" before).1.db).0
    ≢ some "mina"
unfolding session_key
reset_password-ends_example =
    reset_password-ends memory strings notation config passwords accounts week (fresh 1000) before
      (λ j. refl) reached always "mina@sos.jp" "123456" "new password" "salt" 2000 "token-2" mina
      "token-2" done answered "token-1" refl

-- A captcha has been drawn.
abbrev shown : World memory strings notation config passwords accounts
shown = record { db = memory.set (fresh 1000) (captcha_key "c1") "#ABCD"; users = mina }

entered :
    (login memory strings notation config passwords accounts always "mina@sos.jp" "secret" "c1"
      "ABCD" "token-1" shown).0
    ≡ ok (mina, "token-1")
unfolding login login_captured login_as log_in normalize_email take_captcha consume_captcha
    trim_space create_session call byte_len
entered = refl

login-Shows_example :
    Shows memory strings notation config passwords accounts week "mina@sos.jp" "secret" "c1" "ABCD"
      "token-1" shown
      (login memory strings notation config passwords accounts always "mina@sos.jp" "secret" "c1"
        "ABCD" "token-1" shown)
      mina
      "token-1"
login-Shows_example =
    login-Shows memory strings notation config passwords accounts week always "mina@sos.jp" "secret"
      "c1" "ABCD" "token-1" shown mina "token-1" entered
