-- ===== src/Prelude/Names.antt =====
-- Lists of names as sets: membership as a test, and lists with no name twice.
use Prim.Native.String.{String}
use mathlib.Core.Path.{◌≡◌, refl}
use mathlib.Core.Bool.{Bool, false, ◌||◌}
use mathlib.Core.List.{List, [], ◌∷◌, ◌++◌}
use native.Mathlib.Omega.{arith}
use anime_companion_ai.Prelude.Tests.{if◌then◌else◌, if_cases}
use text.Mathlib.Text.{◌==◌ as str_eq}
use text.Mathlib.TextEquality.{eq_iff}

abbrev pub contains : String → List String → Bool
contains x [] = false
contains x (y ∷ ys) = str_eq y x || contains x ys

abbrev pub IsNodup : List String → Type 0
IsNodup [] = Unit {0}
IsNodup (x ∷ xs) = (contains x xs ≡ false) × IsNodup xs

pub contains-append :
    (x : String) (xs ys : List String) → contains x (xs ++ ys) ≡ (contains x xs || contains x ys)
contains-append x [] ys = refl
contains-append x (y ∷ xs) ys = ground (arith, contains-append x xs ys)

pub IsNodup-append_one :
    (x : String) (xs : List String) → IsNodup xs → contains x xs ≡ false → IsNodup (xs ++ x ∷ [])
IsNodup-append_one x [] h k = (refl, tt)
IsNodup-append_one x (y ∷ xs) h k = (
  ground (arith, contains-append y xs (x ∷ []), eq_iff x y, eq_iff y x),
  IsNodup-append_one x xs h.1 (ground arith),
)

-- The list without a name.
abbrev pub remove : String → List String → List String
remove v [] = []
remove v (x ∷ l) = let rest = remove v l in if str_eq x v then rest else x ∷ rest

pub contains-remove :
    (x v : String) (l : List String) → str_eq v x ≡ false → contains x (remove v l) ≡ contains x l
contains-remove x v [] h = refl
contains-remove x v (y ∷ l) h =
    let rest = contains-remove x v l h in
    if_cases (λ r. contains x r ≡ contains x (y ∷ l)) (str_eq y v)
      (λ e. ground (arith, rest, eq_iff y v, eq_iff y x, eq_iff v x)) (λ e. rw rest refl)
