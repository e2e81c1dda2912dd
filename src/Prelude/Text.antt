-- ===== src/Prelude/Text.antt =====
-- What the code uses of Go's `strings`, `unicode` and `utf8`, on texts as lists of code points.
use Prim.Native.Char.{code}
use Prim.Native.Nat.{ℕ, suc, ◌+◌}
use Prim.Native.String.{String, [], ◌∷◌, ◌++◌}
use mathlib.Core.Path.{◌≡◌, sym, ◌∙◌}
use mathlib.Core.Bool.{Bool, true, false, not, ◌&&◌, ◌||◌}
use native.Mathlib.Omega.{arith}
use text.Mathlib.TextLemmas.{cons-append}
use mathlib.Core.Logic.{inl, inr}
use text.Mathlib.Text.{starts_with, ◌==◌ as str_eq}
use text.Mathlib.TextEquality.{eq_iff}
use text.Mathlib.TextPositions.{starts_with-append}
use anime_companion_ai.Prelude.Tests.{ltb, leb, ◌==◌, if◌then◌else◌, Bool-cases}

-- `unicode.IsSpace`
unfoldable pub is_space : ℕ → Bool
is_space c =
    (leb 9 c && leb c 13)
    || c == 32
    || c == 0x85
    || c == 0xa0
    || c == 0x1680
    || (leb 0x2000 c && leb c 0x200a)
    || c == 0x2028
    || c == 0x2029
    || c == 0x202f
    || c == 0x205f
    || c == 0x3000

unfoldable pub is_empty : String → Bool
is_empty [] = true
is_empty (c ∷ s) = false

unfoldable pub trim_left : String → String
unfolding is_space
trim_left [] = []
trim_left (c ∷ s) = let rest = trim_left s in if is_space (code c) then rest else c ∷ s

unfoldable pub trim_right : String → String
unfolding is_space is_empty
trim_right [] = []
trim_right (c ∷ s) =
    let rest = trim_right s in if is_space (code c) && is_empty rest then [] else c ∷ rest

-- `strings.TrimSpace`
unfoldable pub trim_space : String → String
unfolding trim_left trim_right
trim_space s = trim_left (trim_right s)

-- `utf8.RuneCountInString`
unfoldable pub rune_count : String → ℕ
rune_count [] = 0
rune_count (c ∷ s) = suc (rune_count s)

-- The bytes of a code point in UTF-8.
unfoldable pub rune_len : ℕ → ℕ
rune_len c = if ltb c 0x80 then 1 else if ltb c 0x800 then 2 else if ltb c 0x10000 then 3 else 4

-- `len`
unfoldable pub byte_len : String → ℕ
unfolding rune_len
byte_len [] = 0
byte_len (c ∷ s) = rune_len (code c) + byte_len s

-- A text that begins otherwise is another text.
pub append-ne : (p s t : String) → starts_with t p ≡ false → str_eq (p ++ s) t ≡ false
append-ne p s t h = elim (Bool-cases (str_eq (p ++ s) t)) [
  | inl e ↦
      let same = (eq_iff (p ++ s) t).0 e in
      let starts : starts_with t p ≡ true = rw (← same) (starts_with-append p s) in cc
  | inr e ↦ e
]

-- Two prefixes, neither of which is the beginning of the other.
abbrev pub differ : String → String → Bool
differ [] q = false
differ (c ∷ p) [] = false
differ (c ∷ p) (d ∷ q) = not (code c == code d) || differ p q

pub differ-ne : (p q s t : String) → differ p q ≡ true → str_eq (p ++ s) (q ++ t) ≡ false
differ-ne [] q s t h = absurd (let impossible : false ≡ true = h in cc)
differ-ne (c ∷ p) [] s t h = absurd (let impossible : false ≡ true = h in cc)
differ-ne (c ∷ p) (d ∷ q) s t h =
    let differs : (not (code c == code d) || differ p q) ≡ true = h in
    let rest = differ-ne p q s t in
    elim (Bool-cases (str_eq ((c ∷ p) ++ s) ((d ∷ q) ++ t))) [
      | inr e ↦ e
      | inl e ↦
          let same : c ∷ (p ++ s) ≡ d ∷ (q ++ t) =
            sym (cons-append c p s)
            ∙ (eq_iff ((c ∷ p) ++ s) ((d ∷ q) ++ t)).0 e
            ∙ cons-append d q t in
          let heads : code c ≡ code d = cc in
          let tails : p ++ s ≡ q ++ t = cc in
          let equal : str_eq (p ++ s) (q ++ t) ≡ true = (eq_iff (p ++ s) (q ++ t)).1 tails in
          absurd (ground (arith, rest, heads, equal, differs))
    ]
