-- ===== src/Orchestration/Reply/Fuel.antt =====
-- internal/orchestration/deepseek.go: how much of a reply the pattern of the speaker headers takes,
-- and the fuel of the search for them.
use Prim.Native.Char.{Char, code}
use anime_companion_ai.Prelude.{
  ℕ, zero, suc, ◌≤◌, ◌<◌, String, ◌≡◌, refl, sym, ◌∙◌, Bool, false, ◌||◌, Option, none, some, List,
  [], ◌∷◌, ◌==◌, if◌then◌else◌, if_cases, arith,
}
use anime_companion_ai.Prelude.Text.{rune_count}
use anime_companion_ai.Persona.Registry.{all}
use anime_companion_ai.Orchestration.Reply.{
  Parts, skip_blanks, after_text, labels, first_label, close_paren, skip_paren, after_colon,
  after_label, header, split_headers,
}

-- A text that is left over, of at most `n` characters.
data Fits (n : ℕ) : Option String → Type 0 where
  nothing : Fits n none
  fits : (s : String) → rune_count s ≤ n → Fits n (some s)

-- The same behind a label.
data Leaves (n : ℕ) : Option (String × String) → Type 0 where
  no_label : Leaves n none
  leaves : (label s : String) → rune_count s ≤ n → Leaves n (some (label, s))

skip_blanks-le : (s : String) → rune_count (skip_blanks s) ≤ rune_count s
unfolding skip_blanks rune_count
skip_blanks-le String.[] = omega arith
skip_blanks-le (String.◌∷◌ c s) =
    let smaller = skip_blanks-le s in
    if_cases (λ r. rune_count r ≤ suc (rune_count s)) (code c == 9 || code c == 32)
      (λ _. omega arith) (λ _. omega arith)

suc-Fits : (n : ℕ) (o : Option String) → Fits n o → Fits (suc n) o
suc-Fits n _ nothing = nothing
suc-Fits n _ (fits s h) = fits s (omega arith)

after_text-Fits : (t s : String) → Fits (rune_count s) (after_text t s)
unfolding after_text rune_count
after_text-Fits String.[] s = fits s (omega arith)
after_text-Fits (String.◌∷◌ d t) String.[] = nothing
after_text-Fits (String.◌∷◌ d t) (String.◌∷◌ c s) =
    if_cases (Fits (suc (rune_count s))) (code c == code d)
      (λ _. suc-Fits (rune_count s) (after_text t s) (after_text-Fits t s)) (λ _. nothing)

first_label-Leaves : (ls : List String) (s : String) → Leaves (rune_count s) (first_label ls s)
unfolding first_label
first_label-Leaves [] s = no_label
first_label-Leaves (label ∷ ls) s =
    by_text (after_text label s) (after_text-Fits label s) (first_label-Leaves ls s)
  where
    by_text :
        (o : Option String)
        → Fits (rune_count s) o
        → Leaves (rune_count s) (first_label ls s)
        → Leaves (rune_count s) (elim o [ some s' ↦ some (label, s') | none ↦ first_label ls s ])
    by_text _ nothing h = h
    by_text _ (fits s' h) _ = leaves label s' h

close_paren-Fits : (close : ℕ) (s : String) → Fits (rune_count s) (close_paren close s)
unfolding close_paren rune_count
close_paren-Fits close String.[] = nothing
close_paren-Fits close (String.◌∷◌ c s) =
    if_cases (Fits (suc (rune_count s))) (code c == close) (λ _. fits s (omega arith))
      (λ _.
        if_cases (Fits (suc (rune_count s))) (code c == 13 || code c == 10) (λ _. nothing)
          (λ _. suc-Fits (rune_count s) (close_paren close s) (close_paren-Fits close s)))

skip_paren-Fits : (s : String) → Fits (rune_count s) (skip_paren s)
unfolding skip_paren rune_count
skip_paren-Fits String.[] = fits "" (omega arith)
skip_paren-Fits (String.◌∷◌ c s) =
    if_cases (Fits (suc (rune_count s))) (code c == b'(')
      (λ _. suc-Fits (rune_count s) (close_paren b')' s) (close_paren-Fits b')' s))
      (λ _.
        if_cases (Fits (suc (rune_count s))) (code c == 0xff08)
          (λ _. suc-Fits (rune_count s) (close_paren 0xff09 s) (close_paren-Fits 0xff09 s))
          (λ _. fits (String.◌∷◌ c s) (omega arith)))

-- The text behind a colon is shorter.
data Shorter (n : ℕ) : Option String → Type 0 where
  no_colon : Shorter n none
  shorter : (s : String) → rune_count s < n → Shorter n (some s)

after_colon-Shorter : (s : String) → Shorter (rune_count s) (after_colon s)
unfolding after_colon rune_count
after_colon-Shorter String.[] = no_colon
after_colon-Shorter (String.◌∷◌ c s) =
    let smaller = skip_blanks-le s in
    if_cases (Shorter (suc (rune_count s))) (code c == b':' || code c == 0xff1a)
      (λ _. shorter (skip_blanks s) (omega arith)) (λ _. no_colon)

-- A header takes at least one character.
pub data Behind (n : ℕ) : Option (String × String) → Type 0 where
  no_header : Behind n none
  behind : (label s : String) → rune_count s < n → Behind n (some (label, s))

after_label-Behind :
    (n : ℕ) (label s : String) → rune_count s ≤ n → Behind n (after_label (label, s))
unfolding after_label
after_label-Behind n label s h =
    let small = skip_blanks-le s in
    by_paren (skip_paren (skip_blanks s)) (skip_paren-Fits (skip_blanks s))
  where
    by_colon :
        (s' : String) (o : Option String)
        → rune_count s' ≤ n
        → Shorter (rune_count s') o
        → Behind n (elim o [ none ↦ none | some rest ↦ some (label, rest) ])
    by_colon s' _ k no_colon = no_header
    by_colon s' _ k (shorter rest l) = behind label rest (omega arith)

    by_paren :
        (o : Option String)
        → Fits (rune_count (skip_blanks s)) o
        → Behind n (elim o [
          | none ↦ none
          | some s' ↦ elim (after_colon (skip_blanks s')) [
            | none ↦ none
            | some rest ↦ some (label, rest)
          ]
        ])
    by_paren _ nothing = no_header
    by_paren _ (fits s' k) =
        let small = skip_blanks-le s in
        let smaller = skip_blanks-le s' in
        by_colon (skip_blanks s') (after_colon (skip_blanks s')) (omega arith)
          (after_colon-Shorter (skip_blanks s'))

pub header-Behind : (s : String) → Behind (rune_count s) (header s)
unfolding header
header-Behind s =
    by_label (first_label (labels all) (skip_blanks s))
      (first_label-Leaves (labels all) (skip_blanks s))
  where
    by_label :
        (o : Option (String × String))
        → Leaves (rune_count (skip_blanks s)) o
        → Behind (rune_count s) (elim o [ none ↦ none | some found ↦ after_label found ])
    by_label _ no_label = no_header
    by_label _ (leaves label s' h) =
        let small = skip_blanks-le s in after_label-Behind (rune_count s) label s' (omega arith)

-- One step of the search, as a function of the header found here and of the search behind it.
step : Char → (Bool → String → Parts) → String → Option (String × String) → Parts
step c search s none =
    let parts = search (code c == 10) s in record parts { before = String.◌∷◌ c parts.before }
step c search s (some (label, rest)) =
    let parts = search false rest in
    record { before = ""; spoken = (label, parts.before) ∷ parts.spoken }

split_headers-step :
    (fuel : ℕ) (at_start : Bool) (c : Char) (s : String)
    → split_headers (suc fuel) at_start (String.◌∷◌ c s)
      ≡ step c (split_headers fuel) s (if at_start then header (String.◌∷◌ c s) else none)
unfolding split_headers step
split_headers-step fuel at_start c s =
    by_header (if at_start then header (String.◌∷◌ c s) else none)
  where
    by_header :
        (o : Option (String × String))
        → elim o [
          | none ↦
              (let parts = split_headers fuel (code c == 10) s in
                record parts { before = String.◌∷◌ c parts.before })
          | some (label, rest) ↦
              (let parts = split_headers fuel false rest in
                record { before = ""; spoken = (label, parts.before) ∷ parts.spoken })
        ]
          ≡ step c (split_headers fuel) s o
    by_header none = refl
    by_header (some (label, rest)) = refl

step_agrees :
    (c : Char) (s : String) (f g : Bool → String → Parts) (o : Option (String × String))
    → Behind (suc (rune_count s)) o
    → ((b : Bool) (t : String) → rune_count t ≤ rune_count s → f b t ≡ g b t)
    → step c f s o ≡ step c g s o
unfolding step
step_agrees c s f g _ no_header h = rw (h (code c == 10) s (omega arith)) refl
step_agrees c s f g _ (behind label rest l) h = rw (h false rest (omega arith)) refl

maybe_header-Behind :
    (at_start : Bool) (s : String) → Behind (rune_count s) (if at_start then header s else none)
maybe_header-Behind at_start s =
    if_cases (Behind (rune_count s)) at_start (λ _. header-Behind s) (λ _. no_header)

-- Whatever fuel above the number of characters is given, the search finds the same parts: it never
-- stops for want of fuel.
split_headers-enough :
    (fuel more : ℕ) (at_start : Bool) (s : String)
    → rune_count s < fuel
    → rune_count s < more
    → split_headers fuel at_start s ≡ split_headers more at_start s
unfolding split_headers rune_count
split_headers-enough zero more b s h k = absurd (omega arith)
split_headers-enough (suc fuel) zero b s h k = absurd (omega arith)
split_headers-enough (suc fuel) (suc more) b String.[] h k = refl
split_headers-enough (suc fuel) (suc more) b (String.◌∷◌ c s) h k =
    split_headers-step fuel b c s
    ∙ step_agrees c s (split_headers fuel) (split_headers more) _
        (maybe_header-Behind b (String.◌∷◌ c s))
        (λ b' t l. split_headers-enough fuel more b' t (omega arith) (omega arith))
    ∙ sym (split_headers-step more b c s)
