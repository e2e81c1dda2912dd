-- ===== src/Auth/Password.antt =====
-- internal/auth/password.go: the hash of a password as a text, and its check. Argon2 and base64 are
-- those of the libraries.
pub mod Splitting
pub mod RoundTrip
pub mod Samples
pub mod Tests
use Prim.Native.Char.{Char, code}
use Prim.Native.Nat.{◌^◌}
use Prim.Native.String.{◌++◌}
use anime_companion_ai.Prelude.{
  ℕ, ◌*◌, ◌%◌, String, Bool, true, false, ◌&&◌, Option, none, some, List, [], ◌∷◌, length, str_eq,
  ltb, ◌==◌, if◌then◌else◌,
}
use anime_companion_ai.Prelude.Text.{byte_len}

abbrev pub Bytes : Type 0
Bytes = List ℕ

-- What the file calls: `argon2.IDKey` with the time, the memory, the threads and the length of the key,
-- the bytes of a text, base64 without padding, and `fmt.Sscanf` with "m=%d,t=%d,p=%d".
pub record Crypto : Type 0 where
  pub id_key : Bytes → Bytes → ℕ → ℕ → ℕ → ℕ → Bytes
  pub bytes_of : String → Bytes
  pub encode64 : Bytes → String
  pub decode64 : String → Option Bytes
  pub scan : String → Option (ℕ × ℕ × ℕ)

abbrev pub argon_time : ℕ
argon_time = 1

abbrev pub argon_memory : ℕ
argon_memory = 64 * 1024

abbrev pub argon_threads : ℕ
argon_threads = 4

abbrev pub argon_key_len : ℕ
argon_key_len = 32

-- `validatePassword`: whether the password is taken.
unfoldable pub validate_password : String → Bool
unfolding byte_len
validate_password password =
    if ltb (byte_len password) 8 then false else if ltb 128 (byte_len password) then false else true

-- The text with "$" between its parts, as it is printed; the parameters stand in decimal.
abbrev pub join : List String → String
join [] = ""
join (part ∷ []) = part
join (part ∷ next ∷ parts) = part ++ ("$" ++ join (next ∷ parts))

abbrev pub printed : String → String → List String
printed salt hash = "" ∷ "argon2id" ∷ "v=19" ∷ "m=65536,t=1,p=4" ∷ salt ∷ hash ∷ []

abbrev pub on_first : Char → List String → List String
on_first c [] = []
on_first c (part ∷ parts) = String.◌∷◌ c part ∷ parts

-- strings.Split(s, "$")
unfoldable pub split : String → List String
split String.[] = "" ∷ []
split (String.◌∷◌ c s) = let rest = split s in if code c == b'$' then "" ∷ rest else on_first c rest

-- `subtle.ConstantTimeCompare`, for which the order of its work makes no difference here.
unfoldable pub same_bytes : Bytes → Bytes → Bool
same_bytes [] [] = true
same_bytes [] (b ∷ bs) = false
same_bytes (a ∷ as') [] = false
same_bytes (a ∷ as') (b ∷ bs) = a == b && same_bytes as' bs

module _ (crypto : Crypto) where
  open crypto use {id_key, bytes_of, encode64, decode64, scan}

  -- `hashPassword`; `salt` is what the generator draws, and `none` is the error of a password that is
  -- not taken.
  unfoldable pub hash_password : Bytes → String → Option String
  unfolding validate_password
  hash_password salt password =
      let hash =
        id_key (bytes_of password) salt argon_time argon_memory argon_threads argon_key_len in
      if validate_password password
      then some (join (printed (encode64 salt) (encode64 hash)))
      else none

  -- The key is computed again, as long as the one that is wanted.
  abbrev pub matches : String → ℕ × ℕ × ℕ → Option Bytes → Option Bytes → Bool
  unfolding same_bytes
  matches password parameters none want = false
  matches password parameters (some salt) none = false
  matches password (memory, time, threads) (some salt) (some want) =
      let got = id_key (bytes_of password) salt time memory threads (length want % 2 ^ 32) in
      if length want == 0 then false else same_bytes got want

  abbrev pub scanned : String → Option (ℕ × ℕ × ℕ) → String → String → Bool
  scanned password none salt hash = false
  scanned password (some parameters) salt hash =
      matches password parameters (decode64 salt) (decode64 hash)

  unfoldable pub verify_parts : String → List String → Bool
  verify_parts password (first ∷ kind ∷ version ∷ parameters ∷ salt ∷ hash ∷ []) =
      if str_eq kind "argon2id" && str_eq version "v=19"
      then scanned password (scan parameters) salt hash
      else false
  verify_parts password _ = false

  -- `verifyPassword`
  unfoldable pub verify_password : String → String → Bool
  unfolding split verify_parts
  verify_password encoded password = verify_parts password (split encoded)
