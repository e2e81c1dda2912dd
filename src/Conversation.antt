-- ===== src/Conversation.antt =====
-- internal/conversation/conversation.go: the shared data model of turns, batches and scopes.
-- An instant (`time.Time`) is the number of seconds since the epoch.
pub mod Keys
pub mod Scripts
pub mod Messages
pub mod Structured
pub mod Days
pub mod Turns
pub mod Tests
use anime_companion_ai.Prelude.{ℕ, ◌+◌, ◌-◌, ◌*◌, ◌/◌, String, Bool, ◌||◌, List, str_eq}

pub record Identity : Type 0 where
  pub channel : String
  pub external_id : String

pub record Turn : Type 0 where
  pub turn_id : String
  pub role : String
  pub content : String
  pub created_at : ℕ
  pub conversation_id : String
  pub speaker_kind : String
  pub speaker_id : String
  pub batch_id : String
  pub sequence : ℕ
  pub display_name : String
  pub avatar_url : String

pub record Scope : Type 0 where
  pub identity : Identity
  pub conversation_id : String

pub record Batch : Type 0 where
  pub batch_id : String
  pub client_request_id : String
  pub conversation_id : String
  pub planned_speaker_ids : List String
  pub user_message : Turn
  pub character_messages : List Turn
  pub status : String
  pub interruption_code : String
  pub created_at : ℕ
  pub updated_at : ℕ

abbrev pub role_user : String
role_user = "user"

abbrev pub role_assistant : String
role_assistant = "assistant"

abbrev pub max_external_id_length : ℕ
max_external_id_length = 128

abbrev pub default_conversation_id : String
default_conversation_id = "direct-haruhi"

abbrev pub speaker_user : String
speaker_user = "user"

abbrev pub speaker_character : String
speaker_character = "character"

abbrev pub batch_generating : String
batch_generating = "generating"

abbrev pub batch_complete : String
batch_complete = "complete"

abbrev pub batch_partial : String
batch_partial = "partial"

abbrev pub batch_failed : String
batch_failed = "failed"

pub data BeginState : Type 0 where
  started existing : BeginState

-- The days since the epoch, on the clock of Asia/Shanghai (UTC+8).
unfoldable pub beijing_day : ℕ → ℕ
beijing_day t = (t + 28800) / 86400

-- `BeijingDate`: the instant at which the Beijing day of `t` starts.
unfoldable pub beijing_date : ℕ → ℕ
unfolding beijing_day
beijing_date t = beijing_day t * 86400 - 28800

unfoldable pub is_supported_channel : String → Bool
is_supported_channel channel = str_eq channel "api" || str_eq channel "wechat"
