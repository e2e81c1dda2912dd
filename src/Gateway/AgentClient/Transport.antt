-- ===== src/Gateway/AgentClient/Transport.antt =====
-- internal/gateway/agent_client.go: what the response to a batch shows of the agent's message.
use anime_companion_ai.Prelude.{ℕ, String, ◌≡◌, refl, ap, Option, none, some, List, [], ◌∷◌, map}
use anime_companion_ai.Agent.Wire.{Timestamp, MessageProto, BatchProto}
use anime_companion_ai.Gateway.AgentClient.{
  ConversationMessage, ResponseBatch, written_time, message_dto, conversation_messages_dto,
  response_batch_dto,
}

-- The message without the fractions of its times.
abbrev pub whole : Option Timestamp → Option Timestamp
whole none = none
whole (some t) = some (record { seconds = t.seconds; nanos = 0 })

abbrev pub whole_message : MessageProto → MessageProto
whole_message m = record m { created_at = whole m.created_at }

abbrev pub whole_batch : MessageProto → BatchProto → BatchProto
whole_batch user batch = record batch {
  user_message = some (whole_message user);
  character_messages = map whole_message batch.character_messages;
  created_at = whole batch.created_at;
  updated_at = whole batch.updated_at;
}

module _ (parse_time : String → Option Timestamp) where
  -- The message of the agent that a message of the gateway shows.
  unfoldable message_of : ConversationMessage → MessageProto
  message_of m = record {
    id = m.id;
    role = m.role;
    content = m.content;
    created_at = parse_time m.created_at;
    turn_id = m.turn_id;
    conversation_id = m.conversation_id;
    speaker_kind = m.speaker_kind;
    speaker_id = m.speaker_id;
    batch_id = m.batch_id;
    sequence = m.sequence;
    display_name = m.display_name;
    avatar_url = m.avatar_url;
  }

  -- The batch that a response shows.
  unfoldable pub batch_of : ResponseBatch → BatchProto
  unfolding message_of
  batch_of r = record {
    batch_id = r.batch_id;
    client_request_id = r.client_request_id;
    conversation_id = r.conversation_id;
    planned_speaker_ids = r.planned_speaker_ids;
    user_message = some (message_of r.user_message);
    character_messages = map message_of r.character_messages;
    status = r.status;
    interruption_code = r.interruption_code;
    created_at = parse_time r.created_at;
    updated_at = parse_time r.updated_at;
  }

module _ (rfc3339 : ℕ → String) (parse_time : String → Option Timestamp)
    (parse_time-rfc3339 : (t : ℕ)
      → parse_time (rfc3339 t) ≡ some (record { seconds = t; nanos = 0 }))
    (parse_time-empty : parse_time "" ≡ none) where
  parse_time-written : (t : Option Timestamp) → parse_time (written_time rfc3339 t) ≡ whole t
  parse_time-written none = parse_time-empty
  parse_time-written (some t) = parse_time-rfc3339 t.seconds

  message_of-message :
      (m : MessageProto) → message_of parse_time (message_dto rfc3339 m) ≡ whole_message m
  unfolding message_of message_dto
  message_of-message m = ap (λ t. record m { created_at = t }) (parse_time-written m.created_at)

  messages_of-messages :
      (ms : List MessageProto)
      → map (message_of parse_time) (map (message_dto rfc3339) ms) ≡ map whole_message ms
  messages_of-messages [] = refl
  messages_of-messages (m ∷ ms) = rw (message_of-message m, messages_of-messages ms) refl

  -- If a time of whole seconds can be read as it is written, and an empty text is no time: the response
  -- that the gateway makes of an agent's batch with a message of the user shows this batch, every message
  -- with its text, its speaker and its place, the status, and the times but for their fractions of a
  -- second, which are lost.
  pub batch_of-response_batch :
      (batch : BatchProto) (user : MessageProto)
      → batch_of parse_time
          (response_batch_dto rfc3339 (some (record batch { user_message = some user })))
        ≡ whole_batch user batch
  unfolding batch_of response_batch_dto conversation_messages_dto
  batch_of-response_batch batch user =
      rw
        (
          message_of-message user,
          messages_of-messages batch.character_messages,
          parse_time-written batch.created_at,
          parse_time-written batch.updated_at,
        )
        refl
