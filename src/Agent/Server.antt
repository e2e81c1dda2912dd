-- ===== src/Agent/Server.antt =====
-- internal/agent/server.go: the handlers of `Server` for conversations. Of an error only its status
-- code is kept.
use anime_companion_ai.Prelude.{
  ℕ, String, Bool, not, ◌||◌, Option, none, some, List, [], ◌∷◌, map, ltb, if◌then◌else◌, Result,
  ok, err,
}
use anime_companion_ai.Prelude.Text.{is_empty, byte_len}
use anime_companion_ai.Conversation.{
  Identity, Turn, Batch, role_user, role_assistant, max_external_id_length, default_conversation_id,
  is_supported_channel,
}
use anime_companion_ai.Orchestration.Types.{Scope, SendCommand, fixed_spaces}
use anime_companion_ai.Orchestration.Model.{Model}
use anime_companion_ai.Orchestration.Store.{Store, conversation_busy, lease_lost, unavailable}
use anime_companion_ai.Orchestration.Send.{
  SendError, of_store, invalid_request, message_too_large, conversation_not_found, not_started,
  send,
}
use anime_companion_ai.Orchestration.Application.{list_messages, clear_today}
use anime_companion_ai.Gateway.Messages.{
  AgentCode, invalid_argument, resource_exhausted, not_found, aborted, failed_precondition,
  other_code,
}
use anime_companion_ai.Agent.Wire.{
  MessageProto, BatchProto, SpaceProto, message_protos, response_batch_proto, space_proto,
}

-- What a request names its owner by; a field that is not there is empty.
pub record Sender : Type 0 where
  pub open_id : String
  pub channel : String
  pub external_id : String

-- `legacyIdentity`
abbrev pub legacy_identity : String → Identity
legacy_identity open_id = record { channel = "wechat"; external_id = open_id }

-- `identityFromReply`, `identityFromList` and `identityFromDelete`
unfoldable pub identity_from : Sender → Identity
unfolding is_empty
identity_from sender =
    if not (is_empty sender.channel) || not (is_empty sender.external_id)
    then record { channel = sender.channel; external_id = sender.external_id }
    else legacy_identity sender.open_id

-- `validateIdentity`
unfoldable pub validate_identity : Identity → Option AgentCode
unfolding is_empty is_supported_channel byte_len
validate_identity identity =
    if is_empty identity.channel || is_empty identity.external_id
    then some invalid_argument
    else if not (is_supported_channel identity.channel)
    then some invalid_argument
    else if ltb max_external_id_length (byte_len identity.external_id)
    then some invalid_argument
    else none

-- `orchestrationStatus`
unfoldable pub orchestration_status : SendError → AgentCode
orchestration_status invalid_request = invalid_argument
orchestration_status message_too_large = resource_exhausted
orchestration_status conversation_not_found = not_found
orchestration_status (of_store conversation_busy) = aborted
orchestration_status (of_store lease_lost) = aborted
orchestration_status not_started = failed_precondition
orchestration_status (of_store unavailable) = other_code

-- The conversation of a request that may leave it out.
unfoldable pub conversation_or_default : String → String
unfolding is_empty
conversation_or_default id = if is_empty id then default_conversation_id else id

abbrev pub agent_scope : Identity → String → Scope
agent_scope identity conversation_id = record {
  owner = record { channel = identity.channel; id = identity.external_id };
  conversation_id = conversation_id;
}

-- `chat.Turn`
pub record ChatTurn : Type 0 where
  pub role : String
  pub content : String

-- `toTurns`
unfoldable pub to_turns : List Turn → List ChatTurn
to_turns messages = map (λ m. record { role = m.role; content = m.content }) messages

-- A handler that rejects an identity before anything else.
unfoldable pub validated {ℓ κ} :
    {S : Type ℓ} {A : Type κ} → Identity → (S → Result AgentCode A × S) → S → Result AgentCode A × S
validated identity handler s = elim (validate_identity identity) [
  | some code ↦ (err code, s)
  | none ↦ handler s
]

-- `ListConversationSpaces`
unfoldable pub list_conversation_spaces : Identity → Result AgentCode (List SpaceProto)
unfolding validate_identity fixed_spaces space_proto
list_conversation_spaces identity = elim (validate_identity identity) [
  | some code ↦ err code
  | none ↦ ok (map space_proto fixed_spaces)
]

-- What the handlers use where no application is set: the older store, its memory and its replies. Errors
-- are `none` and `false`.
pub record Legacy (S : Type 0) : Type 0 where
  pub recent_summaries : Identity → S → Option (List String) × S
  pub recent_turns : Identity → ℕ → S → Option (List Turn) × S
  pub add_turn : Identity → String → String → S → Bool × S
  pub turns_today : Identity → S → Option (List Turn) × S
  pub clear_turns_today : Identity → S → Bool × S
  pub reply : List String → List ChatTurn → String → Option String

-- The application, which `with_app` says is set, and what stands in for it.
module _ (store : Store) (model : Model) (summaries_of : Option (Scope → Option (List String)))
    (is_uuid : String → Bool) (fnv64a : String → ℕ) (with_app : Bool)
    (legacy : Legacy store.State) where
  open store use {State}
  open legacy use {recent_summaries, recent_turns, add_turn, turns_today, reply}

  unfoldable pub batch_answer : Result SendError Batch → Result AgentCode BatchProto
  unfolding orchestration_status response_batch_proto
  batch_answer (ok batch) = ok (response_batch_proto fnv64a batch)
  batch_answer (err e) = err (orchestration_status e)

  unfoldable pub send_in_app : SendCommand → State → Result AgentCode BatchProto × State
  unfolding batch_answer send
  send_in_app command s =
      let (answer, s') = send store model summaries_of is_uuid command s in
      if with_app then (batch_answer answer, s') else (err failed_precondition, s)

  -- `SendConversationMessage`
  unfoldable pub send_conversation_message :
      Identity → String → String → String → State → Result AgentCode BatchProto × State
  unfolding validated send_in_app
  send_conversation_message identity conversation_id content client_request_id =
      validated identity (
        send_in_app (record {
          scope = agent_scope identity conversation_id;
          content = content;
          client_request_id = client_request_id;
        }))

  -- The text of the first message, where there is one.
  unfoldable pub first_text : Result SendError Batch → Result AgentCode String
  unfolding orchestration_status
  first_text (err e) = err (orchestration_status e)
  first_text (ok batch) = elim batch.character_messages [
    | [] ↦ err other_code
    | m ∷ ms ↦ ok m.content
  ]

  store_reply : Identity → Option String → State → Result AgentCode String × State
  store_reply identity none s = (err other_code, s)
  store_reply identity (some text) s =
      let (fine, s') = add_turn identity role_assistant text s in
      (if fine then ok text else err other_code, s')

  reply_to :
      Identity → String → List String → Option (List Turn) × State → Result AgentCode String × State
  unfolding store_reply to_turns
  reply_to identity text summaries (none, s) = (err other_code, s)
  reply_to identity text summaries (some history, s) =
      let (fine, s') = add_turn identity role_user text s in
      let rest = store_reply identity (reply summaries (to_turns history) text) s' in
      if fine then rest else (err other_code, s')

  reply_after : Identity → String → Option (List String) × State → Result AgentCode String × State
  unfolding reply_to
  reply_after identity text (none, s) = (err other_code, s)
  reply_after identity text (some summaries, s) =
      reply_to identity text summaries (recent_turns identity 30 s)

  -- `Reply` without an application.
  unfoldable pub legacy_reply : Identity → String → State → Result AgentCode String × State
  unfolding reply_after
  legacy_reply identity text s = reply_after identity text (recent_summaries identity s)

  -- `Reply`; `new_id` is what `uuid.NewString` draws.
  unfoldable pub agent_reply : Sender → String → String → State → Result AgentCode String × State
  unfolding validated first_text legacy_reply identity_from send
  agent_reply sender text new_id =
      let identity = identity_from sender in
      validated identity λ s.
        let (answer, s') =
          send store model summaries_of is_uuid
            (record {
              scope = agent_scope identity default_conversation_id;
              content = text;
              client_request_id = new_id;
            })
            s in
        let older = legacy_reply identity text s in
        if with_app then (first_text answer, s') else older

  listing : Result SendError (List Turn) → Result AgentCode (List MessageProto)
  unfolding orchestration_status message_protos
  listing (err e) = err (orchestration_status e)
  listing (ok messages) = ok (message_protos fnv64a 0 messages)

  legacy_message : MessageProto → MessageProto
  legacy_message m = record m {
    conversation_id = "";
    speaker_kind = "";
    speaker_id = "";
    batch_id = "";
    sequence = 0;
    display_name = "";
    avatar_url = "";
  }

  legacy_listing : Option (List Turn) → Result AgentCode (List MessageProto)
  unfolding message_protos legacy_message
  legacy_listing none = err other_code
  legacy_listing (some turns) = ok (map legacy_message (message_protos fnv64a 0 turns))

  -- `ListConversationMessages`
  unfoldable pub list_conversation_messages :
      Sender → String → State → Result AgentCode (List MessageProto) × State
  unfolding validated listing legacy_listing identity_from list_messages conversation_or_default
  list_conversation_messages sender conversation_id =
      let identity = identity_from sender in
      validated identity λ s.
        let (answer, s') =
          list_messages store (agent_scope identity (conversation_or_default conversation_id)) s in
        let (turns, s'') = turns_today identity s in
        if with_app then (listing answer, s') else (legacy_listing turns, s'')

  deleted : Option SendError → Result AgentCode (Unit {0})
  unfolding orchestration_status
  deleted none = ok tt
  deleted (some e) = err (orchestration_status e)

  -- `DeleteConversationMessages`
  unfoldable pub delete_conversation_messages :
      Sender → String → State → Result AgentCode (Unit {0}) × State
  unfolding validated deleted identity_from clear_today conversation_or_default
  delete_conversation_messages sender conversation_id =
      let identity = identity_from sender in
      validated identity λ s.
        let (answer, s') =
          clear_today store (agent_scope identity (conversation_or_default conversation_id)) s in
        let (fine, s'') = legacy.clear_turns_today identity s in
        if with_app then (deleted answer, s') else (if fine then ok tt else err other_code, s'')
