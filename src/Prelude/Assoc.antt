-- ===== src/Prelude/Assoc.antt =====
-- Finite maps as association lists with text keys.
use Prim.Native.Nat.{ℕ, ◌+◌}
use Prim.Native.String.{String}
use mathlib.Core.Path.{◌≡◌, refl}
use mathlib.Core.Bool.{Bool}
use mathlib.Core.Option.{Option, none, some}
use mathlib.Core.List.{List, [], ◌∷◌}
use native.Mathlib.Omega.{arith}
use text.Mathlib.Text.{◌==◌ as str_eq}
use text.Mathlib.TextEquality.{eq_iff}
use anime_companion_ai.Prelude.Tests.{if◌then◌else◌}

abbrev pub Assoc {ℓ} : Type ℓ → Type ℓ
Assoc V = List (String × V)

module _ {ℓ} {V : Type ℓ} where
  -- The keys are compared as the library compares texts.
  unfoldable pub lookup : String → Assoc V → Option V
  lookup key [] = none
  lookup key ((k, v) ∷ more) = if str_eq k key then some v else lookup key more

  unfoldable pub insert : String → V → Assoc V → Assoc V
  insert key v [] = (key, v) ∷ []
  insert key v ((k, w) ∷ more) =
      if str_eq k key then (key, v) ∷ more else (k, w) ∷ insert key v more

  unfoldable pub without : String → Assoc V → Assoc V
  without key [] = []
  without key ((k, v) ∷ more) =
      let others = without key more in if str_eq k key then others else (k, v) ∷ others

  pub lookup-insert :
      (k j : String) (v : V) (l : Assoc V)
      → lookup j (insert k v l) ≡ (if str_eq k j then some v else lookup j l)
  unfolding lookup insert
  lookup-insert k j v [] = refl
  lookup-insert k j v ((i, w) ∷ l) =
      ground (arith, eq_iff k j, eq_iff i k, eq_iff i j, lookup-insert k j v l)

  pub lookup-without :
      (k j : String) (l : Assoc V)
      → lookup j (without k l) ≡ (if str_eq k j then none else lookup j l)
  unfolding lookup without
  lookup-without k j [] = ground arith
  lookup-without k j ((i, v) ∷ l) =
      ground (arith, eq_iff k j, eq_iff i j, eq_iff i k, lookup-without k j l)

  -- Every key stands once.
  abbrev pub HasOnce : Assoc V → Type ℓ
  HasOnce [] = Unit
  HasOnce ((k, v) ∷ l) = (lookup k l ≡ none) × HasOnce l

  pub insert-HasOnce : (k : String) (v : V) (l : Assoc V) → HasOnce l → HasOnce (insert k v l)
  unfolding lookup insert
  insert-HasOnce k v [] h = (refl, tt)
  insert-HasOnce k v ((j, w) ∷ l) h =
      ground (arith, insert-HasOnce k v l h.1, lookup-insert k j v l, eq_iff j k, eq_iff k j)

  pub without-HasOnce : (k : String) (l : Assoc V) → HasOnce l → HasOnce (without k l)
  unfolding lookup without
  without-HasOnce k [] h = tt
  without-HasOnce k ((j, w) ∷ l) h = ground (arith, without-HasOnce k l h.1, lookup-without k j l)

  -- How many bindings pass a test.
  unfoldable pub count : (String → V → Bool) → Assoc V → ℕ
  count p [] = 0
  count p ((k, v) ∷ l) = (if p k v then 1 else 0) + count p l

  -- How often the binding of `k` passes.
  abbrev pub hit : (String → V → Bool) → String → Option V → ℕ
  hit p k none = 0
  hit p k (some v) = if p k v then 1 else 0

  pub count-insert :
      (p : String → V → Bool) (k : String) (v : V) (l : Assoc V)
      → count p (insert k v l) + hit p k (lookup k l) ≡ count p l + (if p k v then 1 else 0)
  unfolding lookup insert count
  count-insert p k v [] = omega arith
  count-insert p k v ((j, w) ∷ l) = ground (arith, count-insert p k v l, eq_iff j k)

  pub without_absent : (k : String) (l : Assoc V) → lookup k l ≡ none → without k l ≡ l
  unfolding lookup without
  without_absent k [] h = refl
  without_absent k ((j, w) ∷ l) h = ground (arith, without_absent k l)

  pub count-without :
      (p : String → V → Bool) (k : String) (l : Assoc V)
      → HasOnce l
      → count p (without k l) + hit p k (lookup k l) ≡ count p l
  unfolding lookup without count
  count-without p k [] h = omega arith
  count-without p k ((j, w) ∷ l) h =
      ground (arith, count-without p k l h.1, without_absent k l, eq_iff j k)
