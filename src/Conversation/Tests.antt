-- ===== src/Conversation/Tests.antt =====
-- The store's scripts on a server in memory, with the notation of `Scripts/Codec` for JSON.
use anime_companion_ai.Prelude.{some, [], ◌∷◌, ◌≡◌, refl, true, false, ◌||◌, arith}
use anime_companion_ai.Prelude.Text.{is_empty}
use anime_companion_ai.Redis.Memory.{Db, memory, fresh}
use anime_companion_ai.Conversation.{Scope, Turn, Batch, batch_generating}
use anime_companion_ai.Conversation.Keys.{parse_scope_member, active_scope_member}
use anime_companion_ai.Conversation.Keys.Members.{no_bar, parse_scope_member-active_scope_member}
use anime_companion_ai.Conversation.Messages.{present_form, read_messages}
use anime_companion_ai.Conversation.Messages.Reading.{
  IsPresent, read_messages-one, read_messages-ArePresent,
}
use anime_companion_ai.Conversation.Scripts.{
  Keys, begin_new, begun_batch, begin_script, append_script, append_lease_lost,
}
use anime_companion_ai.Conversation.Scripts.Codec.{notation}
use anime_companion_ai.Conversation.Scripts.Frame.{AreDistinct}
use anime_companion_ai.Conversation.Scripts.Fencing.{begin_new-IsFenced}
use anime_companion_ai.Conversation.Scripts.Once.{Answers, begin_script-once}

abbrev keys : Keys
keys = record {
  messages = "messages";
  sequence = "sequence";
  requests = "requests";
  previous_requests = "previous:requests";
  lease = "lease";
  batch = "batch";
  active = "active";
}

abbrev message : Turn
message = record {
  turn_id = "turn-1";
  role = "user";
  content = "你好";
  created_at = 1000;
  conversation_id = "direct-haruhi";
  speaker_kind = "user";
  speaker_id = "user";
  batch_id = "batch-1";
  sequence = 0;
  display_name = "你";
  avatar_url = "";
}

abbrev batch : Batch
batch = record {
  batch_id = "batch-1";
  client_request_id = "request-1";
  conversation_id = "direct-haruhi";
  planned_speaker_ids = [];
  user_message = message;
  character_messages = [];
  status = batch_generating;
  interruption_code = "";
  created_at = 1000;
  updated_at = 1000;
}

keys-AreDistinct : AreDistinct keys
keys-AreDistinct = record {
  lease = record { first = refl; second = refl; third = refl; fourth = refl; fifth = refl };
  requests = record { first = refl; second = refl; third = refl; fourth = refl; fifth = refl };
}

abbrev begun : Db
begun =
    begin_new memory notation 60000 45000 keys "request-1" "token-2" "api|mina|direct-haruhi" batch
      (fresh 1000)

-- The keys of another batch of the conversation.
abbrev other_keys : Keys
other_keys = record keys { batch = "batch:0" }

begin_new-IsFenced_example :
    append_script memory notation 60000 45000 other_keys "request-0" "token-1" message batch begun
    ≡ (append_lease_lost, begun)
begin_new-IsFenced_example =
    (begin_new-IsFenced memory notation 60000 45000 (omega arith) (omega arith) keys
        keys-AreDistinct "request-1" "token-2" "api|mina|direct-haruhi" batch (fresh 1000) "token-1"
        refl other_keys refl).append_refused
      "request-0" message batch

begin_script-once_example :
    Answers memory notation 60000 45000 other_keys
      (begun_batch memory notation 60000 45000 keys "request-1" "token-2" batch (fresh 1000))
      begun
      (begin_script memory notation 60000 45000 other_keys "request-1" "token-3"
        "api|mina|direct-haruhi" batch begun)
begin_script-once_example =
    begin_script-once memory notation 60000 45000 (omega arith) (omega arith) keys keys-AreDistinct
      "request-1" "token-2" "api|mina|direct-haruhi" batch (fresh 1000) tt other_keys refl refl
      "token-3" "api|mina|direct-haruhi" batch

abbrev mina : Scope
mina = record {
  identity = record { channel = "api"; external_id = "mina" };
  conversation_id = "direct-haruhi";
}

mina-no_bar : no_bar "mina" ≡ true
unfolding no_bar
mina-no_bar = refl

api-no_bar : no_bar "api" ≡ true
unfolding no_bar
api-no_bar = refl

mina-nonempty : (is_empty "api" || is_empty "mina" || is_empty "direct-haruhi") ≡ false
unfolding is_empty
mina-nonempty = refl

parse_scope_member-active_scope_member_example :
    parse_scope_member (active_scope_member mina) ≡ some mina
parse_scope_member-active_scope_member_example =
    parse_scope_member-active_scope_member mina api-no_bar mina-no_bar mina-nonempty

abbrev shown : Turn
shown = (present_form mina 1 "" message).0

read_one : read_messages notation mina 1 "" (notation.encode_turn message ∷ []) ≡ some (shown ∷ [])
read_one =
    read_messages-one notation mina 1 "" (notation.encode_turn message) message
      (notation.decode_turn-encode_turn message)

mina-conversation : is_empty mina.conversation_id ≡ false
unfolding is_empty
mina-conversation = refl

read_messages-ArePresent_example : IsPresent 1 shown × Unit {0}
read_messages-ArePresent_example =
    read_messages-ArePresent notation mina 1 "" (notation.encode_turn message ∷ []) (shown ∷ [])
      mina-conversation read_one
