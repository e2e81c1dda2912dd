-- ===== src/Agent/Wire.antt =====
-- internal/agent/server.go: the messages that the agent sends, and how it writes them. The times that
-- the agent has are whole seconds here.
use anime_companion_ai.Prelude.{
  ℕ, ◌+◌, ◌==◌, String, Option, some, List, [], ◌∷◌, map, if◌then◌else◌,
}
use anime_companion_ai.Prelude.Text.{is_empty}
use anime_companion_ai.Conversation.{Turn, Batch}
use anime_companion_ai.Persona.Registry.{Character}
use anime_companion_ai.Orchestration.Types.{Space, SpaceKind, group, direct}
use Prim.Native.Nat.{◌%◌}

-- `timestamppb.Timestamp`
pub record Timestamp : Type 0 where
  pub seconds : ℕ
  pub nanos : ℕ

-- `timestamppb.New`
abbrev pub timestamp : ℕ → Timestamp
timestamp t = record { seconds = t; nanos = 0 }

-- `agentv1.ConversationMessage`, with the fields that the agent fills; a timestamp may be absent.
pub record MessageProto : Type 0 where
  pub id : ℕ
  pub role : String
  pub content : String
  pub created_at : Option Timestamp
  pub turn_id : String
  pub conversation_id : String
  pub speaker_kind : String
  pub speaker_id : String
  pub batch_id : String
  pub sequence : ℕ
  pub display_name : String
  pub avatar_url : String

-- `agentv1.ResponseBatch`; the message of the user may be absent.
pub record BatchProto : Type 0 where
  pub batch_id : String
  pub client_request_id : String
  pub conversation_id : String
  pub planned_speaker_ids : List String
  pub user_message : Option MessageProto
  pub character_messages : List MessageProto
  pub status : String
  pub interruption_code : String
  pub created_at : Option Timestamp
  pub updated_at : Option Timestamp

-- `agentv1.CharacterMetadata`
pub record CharacterProto : Type 0 where
  pub id : String
  pub display_name : String
  pub avatar_url : String
  pub description : String

-- `agentv1.ConversationSpace`
pub record SpaceProto : Type 0 where
  pub id : String
  pub kind : String
  pub display_name : String
  pub participants : List CharacterProto

-- `uint64`
abbrev pub uint64 : ℕ → ℕ
uint64 n = n % 18446744073709551616

-- `compatibilityMessageID`; `fnv64a` is the hash of the standard library.
unfoldable pub compatibility_message_id : (String → ℕ) → String → ℕ → ℕ
unfolding is_empty
compatibility_message_id fnv64a turn_id position =
    if is_empty turn_id
    then uint64 (position + 1)
    else if uint64 (fnv64a turn_id) == 0
    then uint64 (position + 1)
    else uint64 (fnv64a turn_id)

-- `conversationMessageProto`
unfoldable pub conversation_message_proto : (String → ℕ) → Turn → ℕ → MessageProto
unfolding compatibility_message_id
conversation_message_proto fnv64a message position = record {
  id = compatibility_message_id fnv64a message.turn_id position;
  role = message.role;
  content = message.content;
  created_at = some (timestamp message.created_at);
  turn_id = message.turn_id;
  conversation_id = message.conversation_id;
  speaker_kind = message.speaker_kind;
  speaker_id = message.speaker_id;
  batch_id = message.batch_id;
  sequence = message.sequence;
  display_name = message.display_name;
  avatar_url = message.avatar_url;
}

-- A list of messages, the first of them at the position.
unfoldable pub message_protos : (String → ℕ) → ℕ → List Turn → List MessageProto
unfolding conversation_message_proto
message_protos fnv64a position [] = []
message_protos fnv64a position (m ∷ ms) =
    conversation_message_proto fnv64a m position ∷ message_protos fnv64a (position + 1) ms

-- `responseBatchProto`
unfoldable pub response_batch_proto : (String → ℕ) → Batch → BatchProto
unfolding conversation_message_proto message_protos
response_batch_proto fnv64a batch = record {
  batch_id = batch.batch_id;
  client_request_id = batch.client_request_id;
  conversation_id = batch.conversation_id;
  planned_speaker_ids = batch.planned_speaker_ids;
  user_message = some (conversation_message_proto fnv64a batch.user_message 0);
  character_messages = message_protos fnv64a 1 batch.character_messages;
  status = batch.status;
  interruption_code = batch.interruption_code;
  created_at = some (timestamp batch.created_at);
  updated_at = some (timestamp batch.updated_at);
}

unfoldable pub kind_text : SpaceKind → String
kind_text group = "group"
kind_text direct = "direct"

unfoldable pub participant_proto : Character → CharacterProto
participant_proto participant = record {
  id = participant.id;
  display_name = participant.display_name;
  avatar_url = participant.avatar_url;
  description = participant.description;
}

unfoldable pub space_proto : Space → SpaceProto
unfolding kind_text participant_proto
space_proto space = record {
  id = space.id;
  kind = kind_text space.kind;
  display_name = space.display_name;
  participants = map participant_proto space.participants;
}
