-- ===== src/Orchestration/Reply.antt =====
-- internal/orchestration/deepseek.go: the clean-up of a character's reply, from which the speaker
-- headers that the model adds, and what it writes for other characters, are removed.
pub mod Fuel
pub mod Clean
pub mod Tests
use Prim.Native.Char.{code}
use anime_companion_ai.Prelude.{
  ℕ, zero, suc, String, Bool, true, false, ◌&&◌, ◌||◌, Option, none, some, List, [], ◌∷◌, map,
  str_eq, ◌==◌, if◌then◌else◌,
}
use anime_companion_ai.Prelude.Text.{trim_space, rune_count}
use anime_companion_ai.Conversation.{Turn, speaker_character}
use anime_companion_ai.Persona.Registry.{Character, all, find}

-- strings.ReplaceAll(raw, "\r\n", "\n")
unfoldable pub unix_lines : String → String
unix_lines String.[] = ""
unix_lines (String.◌∷◌ c String.[]) = String.◌∷◌ c ""
unix_lines (String.◌∷◌ c (String.◌∷◌ d s)) =
    let rest = unix_lines (String.◌∷◌ d s) in
    if code c == 13 && code d == 10 then rest else String.◌∷◌ c rest

-- [\t ]*
unfoldable pub skip_blanks : String → String
skip_blanks String.[] = ""
skip_blanks (String.◌∷◌ c s) =
    let rest = skip_blanks s in if code c == 9 || code c == 32 then rest else String.◌∷◌ c s

-- What follows a literal text.
unfoldable pub after_text : String → String → Option String
after_text String.[] s = some s
after_text (String.◌∷◌ d t) String.[] = none
after_text (String.◌∷◌ d t) (String.◌∷◌ c s) =
    let rest = after_text t s in if code c == code d then rest else none

-- The alternatives of the pattern: each character's name and id, in the order of the registry.
unfoldable pub labels : List Character → List String
labels [] = []
labels (character ∷ rest) = character.display_name ∷ character.id ∷ labels rest

-- The first label that stands here, and what follows it.
unfoldable pub first_label : List String → String → Option (String × String)
unfolding after_text
first_label [] s = none
first_label (label ∷ rest) s = elim (after_text label s) [
  | some s' ↦ some (label, s')
  | none ↦ first_label rest s
]

-- [^\r\n)]*\), up to the closing character `close`
unfoldable pub close_paren : ℕ → String → Option String
close_paren close String.[] = none
close_paren close (String.◌∷◌ c s) =
    let rest = close_paren close s in
    if code c == close then some s else if code c == 13 || code c == 10 then none else rest

-- (\([^\r\n)]*\)|（[^\r\n）]*）)?
unfoldable pub skip_paren : String → Option String
unfolding close_paren
skip_paren String.[] = some ""
skip_paren (String.◌∷◌ c s) =
    if code c == b'('
    then close_paren b')' s
    else if code c == 0xff08
    then close_paren 0xff09 s
    else some (String.◌∷◌ c s)

-- [:：][\t ]*
unfoldable pub after_colon : String → Option String
unfolding skip_blanks
after_colon String.[] = none
after_colon (String.◌∷◌ c s) =
    if code c == b':' || code c == 0xff1a then some (skip_blanks s) else none

unfoldable pub after_label : String × String → Option (String × String)
unfolding skip_blanks skip_paren after_colon
after_label (label, s) = elim (skip_paren (skip_blanks s)) [
  | none ↦ none
  | some s' ↦ elim (after_colon (skip_blanks s')) [ none ↦ none | some rest ↦ some (label, rest) ]
]

-- `speakerHeaderPattern` at the start of a line: the label, and the text behind the header.
unfoldable pub header : String → Option (String × String)
unfolding skip_blanks first_label after_label labels all
header s = elim (first_label (labels all) (skip_blanks s)) [
  | none ↦ none
  | some found ↦ after_label found
]

-- The text before the first header, and the headers' labels with the text behind each.
pub record Parts : Type 0 where
  pub before : String
  pub spoken : List (String × String)

-- A header is looked for at the start of each line; every round takes a character or a header.
unfoldable pub split_headers : ℕ → Bool → String → Parts
unfolding header
split_headers zero at_start s = record { before = s; spoken = [] }
split_headers (suc fuel) at_start String.[] = record { before = ""; spoken = [] }
split_headers (suc fuel) at_start (String.◌∷◌ c s) =
    let plain : Parts =
      let parts = split_headers fuel (code c == 10) s in
      record parts { before = String.◌∷◌ c parts.before } in
    elim (if at_start then header (String.◌∷◌ c s) else none) [
      | none ↦ plain
      | some (label, rest) ↦
          let parts = split_headers fuel false rest in
          record { before = ""; spoken = (label, parts.before) ∷ parts.spoken }
    ]

unfoldable pub is_character_label : String → Character → Bool
is_character_label label character =
    str_eq label character.display_name || str_eq label character.id

-- `stripRepeatedCharacterHeaders`; each round takes a header.
unfoldable pub strip_repeated : ℕ → String → Character → String
unfolding header is_character_label trim_space
strip_repeated zero text character = trim_space text
strip_repeated (suc fuel) text character =
    let trimmed = trim_space text in
    elim (header trimmed) [
      | none ↦ trimmed
      | some (label, rest) ↦
          let again = strip_repeated fuel rest character in
          if is_character_label label character then again else trimmed
    ]

-- The first header that is the character's own.
own_part : Character → List (String × String) → Option String
unfolding is_character_label
own_part character [] = none
own_part character ((label, body) ∷ rest) =
    if is_character_label label character then some body else own_part character rest

-- `normalizeCharacterReply`; with no header `before` is the whole text.
unfoldable pub normalize_character_reply : String → Character → String
unfolding unix_lines trim_space split_headers own_part strip_repeated rune_count
normalize_character_reply raw character =
    let text = trim_space (unix_lines raw) in
    let fuel = suc (rune_count text) in
    let parts = split_headers fuel true text in
    elim (own_part character parts.spoken) [
      | some body ↦ strip_repeated fuel body character
      | none ↦ trim_space parts.before
    ]

normalize_message : Turn → Turn
unfolding normalize_character_reply find
normalize_message message =
    if str_eq message.speaker_kind speaker_character
    then elim (find message.speaker_id) [
      | none ↦ message
      | some character ↦ record message {
        content = normalize_character_reply message.content character;
      }
    ]
    else message

-- `normalizeCharacterMessages`
unfoldable pub normalize_character_messages : List Turn → List Turn
unfolding normalize_message
normalize_character_messages = map normalize_message
