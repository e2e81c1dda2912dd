-- ===== src/Orchestration/Application.antt =====
-- internal/orchestration/application.go: `ListSpaces`, `ListMessages` and `ClearToday`.
use anime_companion_ai.Prelude.{Option, none, some, List, Result, ok, err}
use anime_companion_ai.Conversation.{Turn}
use anime_companion_ai.Orchestration.Types.{Owner, Scope, Space, fixed_spaces, find_space}
use anime_companion_ai.Orchestration.Reply.{normalize_character_messages}
use anime_companion_ai.Orchestration.Store.{Store, unavailable}
use anime_companion_ai.Orchestration.Send.{
  SendError, of_store, conversation_not_found, storage_scope,
}

-- `ListSpaces`
unfoldable pub list_spaces : Owner → List Space
unfolding fixed_spaces
list_spaces owner = fixed_spaces

module _ (store : Store) where
  open store use {State, messages, clear_scope_today}

  unfoldable pub listed : Option (List Turn) → Result SendError (List Turn)
  unfolding normalize_character_messages
  listed none = err (of_store unavailable)
  listed (some history) = ok (normalize_character_messages history)

  list_in : Scope → Option Space → State → Result SendError (List Turn) × State
  unfolding listed
  list_in scope none s = (err conversation_not_found, s)
  list_in scope (some space) s =
      let (history, s') = messages (storage_scope scope) s in (listed history, s')

  -- `ListMessages`
  unfoldable pub list_messages : Scope → State → Result SendError (List Turn) × State
  unfolding list_in find_space
  list_messages scope s = list_in scope (find_space scope.conversation_id) s

  clear_in : Scope → Option Space → State → Option SendError × State
  clear_in scope none s = (some conversation_not_found, s)
  clear_in scope (some space) s =
      let (e, s') = clear_scope_today (storage_scope scope) s in
      (elim e [ none ↦ none | some x ↦ some (of_store x) ], s')

  -- `ClearToday`
  unfoldable pub clear_today : Scope → State → Option SendError × State
  unfolding clear_in find_space
  clear_today scope s = clear_in scope (find_space scope.conversation_id) s
