-- ===== src/Gateway/AgentClient.antt =====
-- internal/gateway/agent_client.go: what the gateway makes of the agent's answers.
pub mod Transport
pub mod Tests
use anime_companion_ai.Prelude.{ℕ, String, Option, none, some, List, [], ◌∷◌, map}
use anime_companion_ai.Agent.Wire.{Timestamp, MessageProto, BatchProto, CharacterProto, SpaceProto}

-- `ConversationMessage`
pub record ConversationMessage : Type 0 where
  pub id : ℕ
  pub turn_id : String
  pub role : String
  pub content : String
  pub created_at : String
  pub conversation_id : String
  pub speaker_kind : String
  pub speaker_id : String
  pub batch_id : String
  pub sequence : ℕ
  pub display_name : String
  pub avatar_url : String

-- `ResponseBatch`
pub record ResponseBatch : Type 0 where
  pub batch_id : String
  pub client_request_id : String
  pub conversation_id : String
  pub planned_speaker_ids : List String
  pub user_message : ConversationMessage
  pub character_messages : List ConversationMessage
  pub status : String
  pub interruption_code : String
  pub created_at : String
  pub updated_at : String

-- `Character`
pub record Character : Type 0 where
  pub id : String
  pub display_name : String
  pub avatar_url : String
  pub description : String

-- `ConversationSpace`
pub record ConversationSpace : Type 0 where
  pub id : String
  pub kind : String
  pub display_name : String
  pub participants : List Character

-- What the getters of the protocol read where there is no message.
abbrev pub no_message : ConversationMessage
no_message = record {
  id = 0;
  turn_id = "";
  role = "";
  content = "";
  created_at = "";
  conversation_id = "";
  speaker_kind = "";
  speaker_id = "";
  batch_id = "";
  sequence = 0;
  display_name = "";
  avatar_url = "";
}

abbrev pub no_batch : ResponseBatch
no_batch = record {
  batch_id = "";
  client_request_id = "";
  conversation_id = "";
  planned_speaker_ids = [];
  user_message = no_message;
  character_messages = [];
  status = "";
  interruption_code = "";
  created_at = "";
  updated_at = "";
}

-- `rfc3339` writes an instant of whole seconds: the format has no place for a fraction.
module _ (rfc3339 : ℕ → String) where
  abbrev pub written_time : Option Timestamp → String
  written_time none = ""
  written_time (some t) = rfc3339 t.seconds

  unfoldable pub message_dto : MessageProto → ConversationMessage
  message_dto m = record {
    id = m.id;
    turn_id = m.turn_id;
    role = m.role;
    content = m.content;
    created_at = written_time m.created_at;
    conversation_id = m.conversation_id;
    speaker_kind = m.speaker_kind;
    speaker_id = m.speaker_id;
    batch_id = m.batch_id;
    sequence = m.sequence;
    display_name = m.display_name;
    avatar_url = m.avatar_url;
  }

  -- `conversationMessagesDTO`
  unfoldable pub conversation_messages_dto : List MessageProto → List ConversationMessage
  unfolding message_dto
  conversation_messages_dto messages = map message_dto messages

  abbrev pub user_dto : Option MessageProto → ConversationMessage
  unfolding message_dto
  user_dto none = no_message
  user_dto (some m) = message_dto m

  -- `responseBatchDTO`
  unfoldable pub response_batch_dto : Option BatchProto → ResponseBatch
  unfolding conversation_messages_dto user_dto
  response_batch_dto none = no_batch
  response_batch_dto (some batch) = record {
    batch_id = batch.batch_id;
    client_request_id = batch.client_request_id;
    conversation_id = batch.conversation_id;
    planned_speaker_ids = batch.planned_speaker_ids;
    user_message = user_dto batch.user_message;
    character_messages = conversation_messages_dto batch.character_messages;
    status = batch.status;
    interruption_code = batch.interruption_code;
    created_at = written_time batch.created_at;
    updated_at = written_time batch.updated_at;
  }

-- The participants and the spaces of `ListConversationSpaces`.
unfoldable pub character_dto : CharacterProto → Character
character_dto participant = record {
  id = participant.id;
  display_name = participant.display_name;
  avatar_url = participant.avatar_url;
  description = participant.description;
}

unfoldable pub space_dto : SpaceProto → ConversationSpace
unfolding character_dto
space_dto space = record {
  id = space.id;
  kind = space.kind;
  display_name = space.display_name;
  participants = map character_dto space.participants;
}
