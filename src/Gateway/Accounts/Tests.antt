-- ===== src/Gateway/Accounts/Tests.antt =====
-- Mina asks for a new password, and logs out.
use anime_companion_ai.Prelude.{◌≡◌, refl, false, true, some, err}
use anime_companion_ai.Prelude.Text.{is_empty}
use anime_companion_ai.Redis.Link.{answered, call}
use anime_companion_ai.Redis.Memory.{memory}
use anime_companion_ai.Auth.Sessions.{logout}
use anime_companion_ai.Auth.Service.{World}
use anime_companion_ai.Auth.Service.Samples.{
  strings, notation, config, passwords, accounts, mina, always, before, week,
}
use anime_companion_ai.Gateway.Accounts.{
  Credentials, said, api_error, cleared, Chance, auth_forgot_password, auth_logout, require_user,
}
use anime_companion_ai.Gateway.Accounts.Blind.{auth_forgot_password-blind}
use anime_companion_ai.Gateway.Accounts.Logout.{auth_logout-ends}

abbrev chance : Chance memory strings notation config passwords accounts
chance = record {
  link = always;
  salt = "salt";
  code = "123456";
  id = "id";
  token = "token-2";
  now = 2000;
  mailed = true;
}

abbrev credentials : Credentials
credentials = record {
  email = "mina@sos.jp";
  password = "";
  captcha_id = "c1";
  captcha_answer = "ABCD";
}

-- The same server, and another row in the table.
abbrev other : World memory strings notation config passwords accounts
other = record before { users = record mina { email = "kyon@sos.jp" } }

auth_forgot_password-blind_example :
    (auth_forgot_password memory strings notation config passwords accounts chance
      (some credentials)
      before).0
    ≡ (auth_forgot_password memory strings notation config passwords accounts chance
        (some credentials)
        other).0
auth_forgot_password-blind_example =
    auth_forgot_password-blind memory strings notation config passwords accounts chance
      (some credentials) before other refl refl

named : is_empty "token-1" ≡ false
unfolding is_empty
named = refl

done :
    (auth_logout memory strings notation config passwords accounts chance (some "token-1") before).0
    ≡ said 204 "" cleared
unfolding auth_logout logout call is_empty
done = refl

auth_logout-ends_example :
    (require_user memory strings notation config passwords accounts answered
      (some "token-1")
      (auth_logout memory strings notation config passwords accounts chance
        (some "token-1")
        before).1).0
    ≡ err (api_error 401 "unauthorized" cleared)
auth_logout-ends_example =
    auth_logout-ends memory strings notation config passwords accounts week chance "token-1" before
      named done answered
