-- ===== src/Auth/Password/Samples.antt =====
-- Libraries for passwords that are easy to follow: a key repeats the length of the password, and base64
-- is replaced by unary numbers.
use Prim.Native.Char.{code}
use anime_companion_ai.Prelude.{
  ℕ, zero, suc, ◌+◌, String, ◌≡◌, refl, ap, ◌∙◌, Bool, true, false, none, some, [], ◌∷◌, length,
  str_eq, ◌==◌, if◌then◌else◌, arith,
}
use anime_companion_ai.Auth.Password.{Bytes, Crypto, hash_password}
use anime_companion_ai.Auth.Password.Splitting.{has_no_dollar}
use anime_companion_ai.Auth.Password.RoundTrip.{CryptoLaws}

abbrev pub fill : ℕ → ℕ → Bytes
fill x zero = []
fill x (suc n) = x ∷ fill x n

length-fill : (x n : ℕ) → length (fill x n) ≡ n
length-fill x zero = refl
length-fill x (suc n) = omega (arith, length-fill x n)

abbrev pub ones : ℕ → String → String
ones zero s = String.◌∷◌ "." s
ones (suc n) s = String.◌∷◌ "1" (ones n s)

abbrev pub unary : Bytes → String
unary [] = ""
unary (b ∷ bs) = ones b (unary bs)

abbrev pub numbers : ℕ → String → Bytes
numbers n String.[] = []
numbers n (String.◌∷◌ c s) =
    numbers_at (code c == b'.') n (numbers (if code c == b'.' then 0 else suc n) s)
  where
    numbers_at : Bool → ℕ → Bytes → Bytes
    numbers_at true n rest = n ∷ rest
    numbers_at false n rest = rest

numbers-ones : (n b : ℕ) (s : String) → numbers n (ones b s) ≡ (n + b) ∷ numbers 0 s
numbers-ones n zero s = ap (λ k. k ∷ numbers 0 s) (omega arith)
numbers-ones n (suc b) s = numbers-ones (suc n) b s ∙ ap (λ k. k ∷ numbers 0 s) (omega arith)

numbers-unary : (bs : Bytes) → numbers 0 (unary bs) ≡ bs
numbers-unary [] = refl
numbers-unary (b ∷ bs) =
    numbers-ones 0 b (unary bs) ∙ rw (numbers-unary bs) (ap (λ k. k ∷ bs) (omega arith))

ones_plain : (b : ℕ) (s : String) → has_no_dollar s ≡ true → has_no_dollar (ones b s) ≡ true
unfolding has_no_dollar
ones_plain zero s h = h
ones_plain (suc b) s h = ones_plain b s h

unary_plain : (bs : Bytes) → has_no_dollar (unary bs) ≡ true
unfolding has_no_dollar
unary_plain [] = refl
unary_plain (b ∷ bs) = ones_plain b (unary bs) (unary_plain bs)

abbrev pub marks : String → Bytes
marks String.[] = []
marks (String.◌∷◌ c s) = 0 ∷ marks s

abbrev pub crypto : Crypto
crypto = record {
  id_key = λ password salt time memory threads len. fill (length password) len;
  bytes_of = marks;
  encode64 = unary;
  decode64 = λ s. some (numbers 0 s);
  scan = λ s. if str_eq s "m=65536,t=1,p=4" then some (65536, 1, 4) else none;
}

pub laws : CryptoLaws crypto
laws = record {
  decode64-encode64 = λ b. ap some (numbers-unary b);
  encode64_plain = unary_plain;
  scan_printed = refl;
  length-id_key = λ password salt time memory threads len. length-fill (length password) len;
}

abbrev pub stored : String
stored =
    "$argon2id$v=19$m=65536,t=1,p=4$1.$11111111.11111111.11111111.11111111.11111111.11111111.11111111.11111111.11111111.11111111.11111111.11111111.11111111.11111111.11111111.11111111.11111111.11111111.11111111.11111111.11111111.11111111.11111111.11111111.11111111.11111111.11111111.11111111.11111111.11111111.11111111.11111111."

pub is_stored : hash_password crypto (1 ∷ []) "haruhi12" ≡ some stored
unfolding hash_password
is_stored = refl
