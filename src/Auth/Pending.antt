-- ===== src/Auth/Pending.antt =====
-- internal/auth/service.go: `verifyPending` and `consumeCaptcha`, the checks of codes that are tried.
pub mod Attempts
pub mod Tests
use anime_companion_ai.Prelude.{
  ℕ, suc, String, Bool, true, false, not, Option, none, some, List, [], ◌∷◌, leb, str_eq,
  if◌then◌else◌, Result, ok, err,
}
use anime_companion_ai.Prelude.Text.{trim_space}

-- `pendingVerification`
pub record PendingVerification : Type 0 where
  pub email : String
  pub password_hash : String
  pub code_hash : String
  pub attempts : ℕ

pub data CodeError : Type 0 where
  invalid_captcha invalid_code : CodeError

-- `digest` is the keyed hash of the service, and `upper` is `strings.ToUpper`.
module _ (digest : String → String) (upper : String → String) where
  -- After a wrong code: the entry with one more attempt, or none after the fifth.
  unfoldable pub failed_attempt : PendingVerification → Option PendingVerification
  failed_attempt pending =
      let updated = record pending { attempts = suc pending.attempts } in
      if leb 5 updated.attempts then none else some updated

  -- `verifyPending`, on what the key holds; the second part is what it holds afterwards.
  unfoldable pub verify_pending :
      String
      → Option PendingVerification
      → Result CodeError PendingVerification × Option PendingVerification
  unfolding failed_attempt trim_space
  verify_pending code none = (err invalid_code, none)
  verify_pending code (some pending) =
      if leb 5 pending.attempts
      then (err invalid_code, some pending)
      else if str_eq pending.code_hash (digest (trim_space code))
      then (ok pending, some pending)
      else (err invalid_code, failed_attempt pending)

  -- `consumeCaptcha`: GETDEL takes the entry away, whatever the answer is.
  unfoldable pub consume_captcha :
      String → Option String → Result CodeError (Unit {0}) × Option String
  unfolding trim_space
  consume_captcha answer none = (err invalid_captcha, none)
  consume_captcha answer (some want) =
      if str_eq want (digest (upper (trim_space answer)))
      then (ok tt, none)
      else (err invalid_captcha, none)

  -- Codes that are tried one after another.
  unfoldable pub try_codes : List String → Option PendingVerification → Option PendingVerification
  unfolding verify_pending
  try_codes [] held = held
  try_codes (code ∷ codes) held = try_codes codes (verify_pending code held).1
