-- ===== src/Conversation/Messages.antt =====
-- internal/conversation/structured_store.go: how `RedisStore` reads its lists of messages and its sets
-- of active scopes.
pub mod Reading
use Prim.Native.String.{◌++◌}
use anime_companion_ai.Prelude.{
  ℕ, suc, String, Bool, true, false, Option, none, some, List, [], ◌∷◌, contains, str_eq,
  if◌then◌else◌,
}
use anime_companion_ai.Prelude.Text.{is_empty}
use anime_companion_ai.Conversation.{
  Identity, Scope, Turn, role_user, speaker_user, speaker_character, default_conversation_id,
}
use anime_companion_ai.Conversation.Keys.{
  active_scope_member, parse_active_member, parse_scope_member,
}
use anime_companion_ai.Conversation.Scripts.{Json}

-- A message that the store has read, put into its present form: `legacy` is the batch of the last user
-- message without one. `number` is its place in the list, from 1.
unfoldable pub in_scope : Scope → ℕ → Turn → Turn
unfolding is_empty
in_scope scope number m =
    if is_empty m.conversation_id
    then record m { conversation_id = scope.conversation_id; sequence = number }
    else record m { sequence = number }

unfoldable pub as_user : String → Turn → Turn × String
unfolding is_empty
as_user legacy m =
    let named : Turn = record m {
      speaker_kind = speaker_user;
      speaker_id = speaker_user;
      display_name = "你";
    } in
    let batch = "legacy-batch-" ++ m.turn_id in
    if is_empty m.batch_id then (record named { batch_id = batch }, batch) else (named, legacy)

unfoldable pub as_haruhi : String → Turn → Turn × String
unfolding is_empty
as_haruhi legacy m =
    let named : Turn = record m {
      speaker_kind = speaker_character;
      speaker_id = "haruhi";
      display_name = "凉宫春日";
      avatar_url = "/app/assets/avatars/haruhi.svg";
    } in
    let batch = if is_empty legacy then "legacy-batch-" ++ m.turn_id else legacy in
    if is_empty m.batch_id then (record named { batch_id = batch }, batch) else (named, legacy)

unfoldable pub present_form : Scope → ℕ → String → Turn → Turn × String
unfolding in_scope as_user as_haruhi is_empty
present_form scope number legacy m =
    let placed = in_scope scope number m in
    if str_eq m.role role_user
    then as_user legacy placed
    else if is_empty m.speaker_id
    then as_haruhi legacy placed
    else (placed, legacy)

abbrev pub prepend : Turn → Option (List Turn) → Option (List Turn)
prepend m none = none
prepend m (some ms) = some (m ∷ ms)

module _ (json : Json) where
  -- The loop of `MessagesForDateScope`; `none` if a value cannot be read.
  unfoldable pub read_messages : Scope → ℕ → String → List String → Option (List Turn)
  unfolding present_form
  read_messages scope number legacy [] = some []
  read_messages scope number legacy (value ∷ values) =
      let later = λ (m : Turn).
        let (message, legacy') = present_form scope number legacy m in
        prepend message (read_messages scope (suc number) legacy' values) in
      elim (json.decode_turn value) [ none ↦ none | some m ↦ later m ]

-- The scopes among the sorted members, each once; what cannot be read is left out.
unfoldable pub distinct_scopes : List String → List String → List Scope
unfolding parse_scope_member
distinct_scopes seen [] = []
distinct_scopes seen (member ∷ members) =
    let skip = distinct_scopes seen members in
    let later = distinct_scopes (member ∷ seen) members in
    if contains member seen
    then skip
    else elim (parse_scope_member member) [ none ↦ later | some scope ↦ scope ∷ later ]

unfoldable pub active_identities : List String → List Identity
unfolding parse_active_member
active_identities [] = []
active_identities (member ∷ members) =
    let rest = active_identities members in
    elim (parse_active_member member) [ none ↦ rest | some identity ↦ identity ∷ rest ]

unfoldable pub legacy_members : List Identity → List String
unfolding active_scope_member
legacy_members [] = []
legacy_members (identity ∷ identities) =
    active_scope_member (record { identity = identity; conversation_id = default_conversation_id })
    ∷ legacy_members identities
