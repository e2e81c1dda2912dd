-- ===== src/Orchestration/Reply/Clean.antt =====
-- internal/orchestration/deepseek.go: `stripRepeatedCharacterHeaders` removes every header of the
-- character's own.
use anime_companion_ai.Prelude.{
  ℕ, zero, suc, ◌≤◌, ◌<◌, String, ◌≡◌, refl, Bool, false, ◌&&◌, Option, none, some, if◌then◌else◌,
  if_cases, arith,
}
use Prim.Native.Char.{code}
use anime_companion_ai.Prelude.Text.{
  trim_left, trim_right, trim_space, is_space, is_empty, rune_count,
}
use anime_companion_ai.Persona.Registry.{Character}
use anime_companion_ai.Orchestration.Reply.{header, is_character_label, strip_repeated}
use anime_companion_ai.Orchestration.Reply.Fuel.{Behind, no_header, behind, header-Behind}

-- The text starts with a header of the character's own.
pub starts_as : Character → String → Bool
unfolding is_character_label
starts_as character text = elim (header text) [
  | none ↦ false
  | some (label, rest) ↦ is_character_label label character
]

trim_left-le : (s : String) → rune_count (trim_left s) ≤ rune_count s
unfolding trim_left rune_count
trim_left-le String.[] = omega arith
trim_left-le (String.◌∷◌ c s) =
    let smaller = trim_left-le s in
    if_cases (λ r. rune_count r ≤ suc (rune_count s)) (is_space (code c)) (λ _. omega arith)
      (λ _. omega arith)

trim_right-le : (s : String) → rune_count (trim_right s) ≤ rune_count s
unfolding trim_right rune_count
trim_right-le String.[] = omega arith
trim_right-le (String.◌∷◌ c s) =
    let smaller = trim_right-le s in
    if_cases (λ r. rune_count r ≤ suc (rune_count s)) (is_space (code c) && is_empty (trim_right s))
      (λ _. omega arith) (λ _. omega arith)

trim_space-le : (s : String) → rune_count (trim_space s) ≤ rune_count s
unfolding trim_space
trim_space-le s =
    let left = trim_left-le (trim_right s) in let right = trim_right-le s in omega arith

-- With fuel above the number of characters the removal goes on until the text does not start with a
-- header of the character's own: it does not stop at one for want of fuel.
pub starts_as-strip_repeated :
    (fuel : ℕ) (text : String) (character : Character)
    → rune_count text < fuel
    → starts_as character (strip_repeated fuel text character) ≡ false
unfolding strip_repeated starts_as
starts_as-strip_repeated zero text character h = absurd (omega arith)
starts_as-strip_repeated (suc fuel) text character h =
    let small = trim_space-le text in
    by_header (header (trim_space text)) refl (header-Behind (trim_space text))
      (λ rest l. starts_as-strip_repeated fuel rest character (omega arith))
  where
    by_header :
        (o : Option (String × String))
        → header (trim_space text) ≡ o
        → Behind (rune_count (trim_space text)) o
        → ((rest : String)
            → rune_count rest < rune_count (trim_space text)
            → starts_as character (strip_repeated fuel rest character) ≡ false)
        → starts_as character (elim o [
          | none ↦ trim_space text
          | some (label, rest) ↦
              (let again = strip_repeated fuel rest character in
                if is_character_label label character then again else trim_space text)
        ])
          ≡ false
    by_header _ e no_header again = rw (starts_as, e) refl
    by_header _ e (behind label rest l) again =
        if_cases (λ r. starts_as character r ≡ false) (is_character_label label character)
          (λ _. again rest l) (λ other. rw (starts_as, e, other) refl)
