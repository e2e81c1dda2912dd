-- ===== src/Conversation/Keys.antt =====
-- internal/conversation: the keys in Redis and the members of the active sets.
pub mod Members
use Prim.Native.Char.{code}
use Prim.Native.String.{◌++◌}
use anime_companion_ai.Prelude.{
  ℕ, String, Bool, true, false, ◌||◌, Option, none, some, List, [], ◌∷◌, ◌==◌, if◌then◌else◌,
}
use anime_companion_ai.Prelude.Text.{is_empty}
use anime_companion_ai.Conversation.{Identity, Scope}

-- structured_store.go; `format_date` writes the date of a Beijing day, `prefix` is the store's.
module _ (format_date : ℕ → String) (prefix : String) where
  unfoldable pub scope_tag : Scope → String
  scope_tag scope =
      "{"
      ++ (scope.identity.channel
          ++ ("|" ++ (scope.identity.external_id ++ ("|" ++ (scope.conversation_id ++ "}")))))

  abbrev dated : Scope → ℕ → String → String
  dated scope day name =
      prefix
      ++ ("conversation:v2:" ++ (scope_tag scope ++ (":" ++ (format_date day ++ (":" ++ name)))))

  unfoldable pub messages_key : Scope → ℕ → String
  messages_key scope day = dated scope day "messages"

  unfoldable pub sequence_key : Scope → ℕ → String
  sequence_key scope day = dated scope day "sequence"

  unfoldable pub requests_key : Scope → ℕ → String
  requests_key scope day = dated scope day "requests"

  unfoldable pub batch_key : Scope → String → String
  batch_key scope batch_id =
      prefix ++ ("conversation:v2:" ++ (scope_tag scope ++ (":batch:" ++ batch_id)))

  unfoldable pub lease_key : Scope → String
  lease_key scope = prefix ++ ("conversation:v2:" ++ (scope_tag scope ++ ":lease"))

  unfoldable pub active_scopes_key : ℕ → String
  active_scopes_key day = prefix ++ ("conversation:v2:active:" ++ format_date day)

  -- redis_store.go
  unfoldable pub turns_key : Identity → ℕ → String
  turns_key identity day =
      prefix
      ++ ("conversation:"
          ++ (identity.channel ++ (":" ++ (identity.external_id ++ (":" ++ format_date day)))))

  unfoldable pub active_key : ℕ → String
  active_key day = prefix ++ ("conversation:active:" ++ format_date day)

unfoldable pub active_member : Identity → String
active_member identity = identity.channel ++ ("|" ++ identity.external_id)

unfoldable pub active_scope_member : Scope → String
unfolding active_member
active_scope_member scope = active_member scope.identity ++ ("|" ++ scope.conversation_id)

-- strings.Cut at the first "|", by which `SplitN` finds its parts.
unfoldable pub cut : String → Option (String × String)
cut String.[] = none
cut (String.◌∷◌ c s) =
    let rest : Option (String × String) = elim (cut s) [
      | none ↦ none
      | some (a, b) ↦ some (String.◌∷◌ c a, b)
    ] in
    if code c == b'|' then some ("", s) else rest

identity_of : Option (String × String) → Option Identity
unfolding is_empty
identity_of none = none
identity_of (some (channel, external_id)) =
    if is_empty channel || is_empty external_id
    then none
    else some (record { channel = channel; external_id = external_id })

-- `parseActiveMember`
unfoldable pub parse_active_member : String → Option Identity
unfolding cut identity_of
parse_active_member member = identity_of (cut member)

scope_of : String → Option (String × String) → Option Scope
unfolding is_empty
scope_of channel none = none
scope_of channel (some (external_id, conversation_id)) =
    if is_empty channel || is_empty external_id || is_empty conversation_id
    then none
    else some (record {
      identity = record { channel = channel; external_id = external_id };
      conversation_id = conversation_id;
    })

scope_of_parts : Option (String × String) → Option Scope
unfolding cut scope_of
scope_of_parts none = none
scope_of_parts (some (channel, rest)) = scope_of channel (cut rest)

-- The member's parts in `ActiveScopes`.
unfoldable pub parse_scope_member : String → Option Scope
unfolding cut scope_of_parts
parse_scope_member member = scope_of_parts (cut member)
