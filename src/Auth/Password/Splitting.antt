-- ===== src/Auth/Password/Splitting.antt =====
-- internal/auth/password.go: the parts of a text that was joined from them.
use Prim.Native.Char.{Char, code}
use Prim.Native.String.{◌++◌}
use text.Mathlib.TextLemmas.{cons-append, nil-append}
use anime_companion_ai.Prelude.{
  String, ◌≡◌, refl, ap, ◌∙◌, Bool, true, false, not, ◌&&◌, List, [], ◌∷◌, ◌==◌, arith,
}
use anime_companion_ai.Auth.Password.{join, split}

-- No character is "$".
unfoldable pub has_no_dollar : String → Bool
has_no_dollar String.[] = true
has_no_dollar (String.◌∷◌ c s) = not (code c == b'$') && has_no_dollar s

abbrev pub AllPlain : List String → Type 0
AllPlain [] = Unit {0}
AllPlain (part ∷ parts) = (has_no_dollar part ≡ true) × AllPlain parts

split-plain : (s : String) → has_no_dollar s ≡ true → split s ≡ s ∷ []
unfolding split has_no_dollar
split-plain String.[] h = refl
split-plain (String.◌∷◌ c s) h = ground (arith, split-plain s)

dollar : Char
dollar = "$"

dollar-append : (t : String) → "$" ++ t ≡ String.◌∷◌ dollar t
unfolding dollar
dollar-append t = cons-append dollar "" t ∙ ap (String.◌∷◌ dollar) (nil-append t)

split-dollar : (t : String) → split ("$" ++ t) ≡ "" ∷ split t
unfolding split dollar
split-dollar t = ap split (dollar-append t)

split-append : (s t : String) → has_no_dollar s ≡ true → split (s ++ ("$" ++ t)) ≡ s ∷ split t
unfolding split has_no_dollar
split-append String.[] t h = ap split (nil-append ("$" ++ t)) ∙ split-dollar t
split-append (String.◌∷◌ c s) t h =
    let rest : split (s ++ ("$" ++ t)) ≡ s ∷ split t = split-append s t (ground arith) in
    let other : (code c == b'$') ≡ false = ground arith in
    ap split (cons-append c s ("$" ++ t)) ∙ rw (other, rest) refl

-- Parts without "$" are found again.
pub split-join :
    (part : String) (parts : List String)
    → AllPlain (part ∷ parts)
    → split (join (part ∷ parts)) ≡ part ∷ parts
split-join part [] h = split-plain part h.0
split-join part (next ∷ parts) h =
    split-append part (join (next ∷ parts)) h.0 ∙ ap (λ l. part ∷ l) (split-join next parts h.1)
