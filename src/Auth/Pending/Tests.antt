-- ===== src/Auth/Pending/Tests.antt =====
-- A code that is tried, with the identity for the keyed hash.
use anime_companion_ai.Prelude.{String, ◌≡◌, refl, true, some, List, [], ◌∷◌, str_eq, ok, All}
use anime_companion_ai.Prelude.Text.{trim_space}
use anime_companion_ai.Auth.Pending.{PendingVerification, verify_pending, try_codes}
use anime_companion_ai.Auth.Pending.Attempts.{IsWrong, verify_pending-attempts}

abbrev plain : String → String
plain s = s

abbrev pending : PendingVerification
pending = record {
  email = "mina@example.org";
  password_hash = "";
  code_hash = "123456";
  attempts = 0;
}

abbrev wrong_codes : List String
wrong_codes = "000000" ∷ "123457" ∷ []

wrong_codes-IsWrong : All (IsWrong plain plain pending) wrong_codes
unfolding trim_space
wrong_codes-IsWrong = (refl, (refl, tt))

right_code : str_eq "123456" (trim_space " 123456 ") ≡ true
unfolding trim_space
right_code = refl

verify_pending-attempts_example :
    (verify_pending plain plain " 123456 " (try_codes plain plain wrong_codes (some pending))).0
    ≡ ok (record pending { attempts = 2 })
verify_pending-attempts_example =
    verify_pending-attempts plain plain wrong_codes " 123456 " pending refl wrong_codes-IsWrong
      right_code
