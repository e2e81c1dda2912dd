-- ===== src/Persona/Aliases.antt =====
-- internal/persona/registry.go: `ResolveAliases`, the characters that a text mentions.
use Prim.Native.Char.{code}
use anime_companion_ai.Prelude.{
  ℕ, ◌+◌, String, Bool, true, false, ◌&&◌, Option, none, some, List, [], ◌∷◌, map, suc, ltb, ◌==◌,
  if◌then◌else◌, ◌≡◌, refl,
}
use anime_companion_ai.Prelude.Text.{rune_len}
use anime_companion_ai.Persona.Registry.{CharacterId, Character, registry}

has_prefix : String → String → Bool
has_prefix s String.[] = true
has_prefix String.[] (String.◌∷◌ d prefix) = false
has_prefix (String.◌∷◌ c s) (String.◌∷◌ d prefix) = code c == code d && has_prefix s prefix

-- `strings.Index`, a byte offset, or none for -1.
index_of : String → String → Option ℕ
unfolding has_prefix rune_len
index_of String.[] sub = if has_prefix "" sub then some 0 else none
index_of (String.◌∷◌ c s) sub =
    let rest : Option ℕ = elim (index_of s sub) [
      | none ↦ none
      | some i ↦ some (rune_len (code c) + i)
    ] in
    if has_prefix (String.◌∷◌ c s) sub then some 0 else rest

-- The inner loop: the least offset at which one of the aliases stands.
unfoldable pub first_index : String → List String → Option ℕ → Option ℕ
unfolding index_of
first_index text [] first = first
first_index text (alias ∷ aliases) first = first_index text aliases (elim (index_of text alias) [
  | none ↦ first
  | some index ↦ elim first [
    | none ↦ some index
    | some best ↦ some (if ltb index best then index else best)
  ]
])

pub record Mention : Type 0 where
  pub id : CharacterId
  pub index : ℕ
  pub order : ℕ

unfoldable pub mentions : String → ℕ → List Character → List Mention
unfolding first_index
mentions text order [] = []
mentions text order (character ∷ rest) =
    let others = mentions text (suc order) rest in
    elim (first_index text character.aliases none) [
      | none ↦ others
      | some first ↦ record { id = character.id; index = first; order = order } ∷ others
    ]

-- The order that `sort.SliceStable` is given.
unfoldable pub less : Mention → Mention → Bool
less a b = if a.index == b.index then ltb a.order b.order else ltb a.index b.index

-- `sort.SliceStable`, as the stable insertion sort.
unfoldable pub insert_mention : Mention → List Mention → List Mention
unfolding less
insert_mention m [] = m ∷ []
insert_mention m (x ∷ xs) = if less x m then x ∷ insert_mention m xs else m ∷ x ∷ xs

unfoldable pub sort_mentions : List Mention → List Mention
unfolding insert_mention
sort_mentions [] = []
sort_mentions (m ∷ ms) = insert_mention m (sort_mentions ms)

unfoldable pub resolve_aliases : String → List CharacterId
unfolding mentions sort_mentions registry
resolve_aliases text = map (λ m. m.id) (sort_mentions (mentions text 0 registry))

resolve_two : resolve_aliases "长门和阿虚在吗" ≡ "yuki" ∷ "kyon" ∷ []
unfolding resolve_aliases
resolve_two = refl
