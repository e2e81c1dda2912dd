-- ===== src/Auth/Password/Tests.antt =====
-- Passwords that are hashed and checked.
use anime_companion_ai.Prelude.{◌≡◌, ◌↔◌, refl, true, none, [], ◌∷◌}
use anime_companion_ai.Auth.Password.{hash_password, verify_password}
use anime_companion_ai.Auth.Password.RoundTrip.{key, verify_password-hash_password}
use anime_companion_ai.Auth.Password.Samples.{crypto, laws, stored, is_stored}

-- A password of seven bytes is not taken.
too_short : hash_password crypto [] "haruhi1" ≡ none
unfolding hash_password
too_short = refl

verify_password-hash_password_example :
    (verify_password crypto stored "haruhi12" ≡ true)
    ↔ (key crypto (1 ∷ []) "haruhi12" ≡ key crypto (1 ∷ []) "haruhi12")
verify_password-hash_password_example =
    verify_password-hash_password crypto laws (1 ∷ []) "haruhi12" stored "haruhi12" is_stored
