-- ===== src/Auth/Pending/Attempts.antt =====
-- How often a code may be tried.
use anime_companion_ai.Prelude.{
  ℕ, ◌+◌, ◌<◌, String, ◌≡◌, refl, ◌∙◌, true, false, Option, none, some, List, [], ◌∷◌, ltb, str_eq,
  if◌then◌else◌, ok, err, length, All, arith, ap, Bool-cases, inl, inr, ltb→lt,
}
use anime_companion_ai.Prelude.Text.{trim_space}
use anime_companion_ai.Auth.Pending.{
  PendingVerification, invalid_code, failed_attempt, verify_pending, try_codes,
}

module _ (digest : String → String) (upper : String → String) where
  -- The code is not the one that was sent.
  abbrev pub IsWrong : PendingVerification → String → Type 0
  IsWrong pending code = str_eq pending.code_hash (digest (trim_space code)) ≡ false

  -- The entry after `n` wrong codes.
  abbrev pub after_wrong : ℕ → PendingVerification → Option PendingVerification
  after_wrong n pending =
      if ltb (n + pending.attempts) 5
      then some (record pending { attempts = n + pending.attempts })
      else none

  try_codes-none : (codes : List String) → try_codes digest upper codes none ≡ none
  unfolding try_codes verify_pending
  try_codes-none [] = refl
  try_codes-none (code ∷ codes) = try_codes-none codes

  verify-wrong :
      (code : String) (pending : PendingVerification)
      → pending.attempts < 5
      → IsWrong pending code
      → (verify_pending digest upper code (some pending)).1 ≡ after_wrong 1 pending
  unfolding verify_pending failed_attempt
  verify-wrong code pending h w = ground arith

  -- As long as the entry is open, each wrong code counts, and the fifth takes the entry away.
  pub try_codes-wrong :
      (codes : List String) (pending : PendingVerification)
      → pending.attempts < 5
      → All (IsWrong pending) codes
      → try_codes digest upper codes (some pending) ≡ after_wrong (length codes) pending
  unfolding try_codes
  try_codes-wrong [] pending h w = ground arith
  try_codes-wrong (code ∷ codes) pending h (wrong, w) =
      ap (try_codes digest upper codes) (verify-wrong code pending h wrong)
      ∙ elim (Bool-cases (ltb (1 + pending.attempts) 5)) [
        | inl e ↦
            let next : PendingVerification = record pending { attempts = 1 + pending.attempts } in
            rw e (try_codes-wrong codes next (ltb→lt (1 + pending.attempts) 5 e) w ∙ ground arith)
        | inr e ↦ rw e (try_codes-none codes ∙ ground arith)
      ]

  -- From an entry without attempts, the code that was sent is accepted after at most four wrong ones, and refused after five or more.
  pub verify_pending-attempts :
      (codes : List String) (code : String) (pending : PendingVerification)
      → pending.attempts ≡ 0
      → All (IsWrong pending) codes
      → str_eq pending.code_hash (digest (trim_space code)) ≡ true
      → (verify_pending digest upper code (try_codes digest upper codes (some pending))).0 ≡ (
          if ltb (length codes) 5
          then ok (record pending { attempts = length codes })
          else err invalid_code)
  unfolding verify_pending
  verify_pending-attempts codes code pending e w right =
      rw (try_codes-wrong codes pending (omega arith) w) (ground arith)
