-- ===== src/Gateway/AgentClient/Tests.antt =====
-- A batch that comes to the gateway, with a stroke for each second of its times.
use anime_companion_ai.Prelude.{ℕ, String, ◌≡◌, refl, ap, Option, none, some, [], ◌∷◌}
use anime_companion_ai.Redis.Memory.{strokes, count_strokes, count_strokes-strokes}
use anime_companion_ai.Agent.Wire.{Timestamp, MessageProto, BatchProto}
use anime_companion_ai.Gateway.AgentClient.{response_batch_dto}
use anime_companion_ai.Gateway.AgentClient.Transport.{
  whole_batch, batch_of, batch_of-response_batch,
}

abbrev message : ℕ → String → String → MessageProto
message place speaker text = record {
  id = place;
  role = "assistant";
  content = text;
  created_at = some (record { seconds = 3; nanos = 500 });
  turn_id = "turn-1";
  conversation_id = "sos-group";
  speaker_kind = "character";
  speaker_id = speaker;
  batch_id = "batch-1";
  sequence = place;
  display_name = "";
  avatar_url = "";
}

abbrev batch : BatchProto
batch = record {
  batch_id = "batch-1";
  client_request_id = "request-1";
  conversation_id = "sos-group";
  planned_speaker_ids = "kyon" ∷ [];
  user_message = none;
  character_messages = message 2 "kyon" "好。" ∷ [];
  status = "complete";
  interruption_code = "";
  created_at = some (record { seconds = 3; nanos = 250 });
  updated_at = none;
}

-- A time is written as a "t" before its strokes.
abbrev write : ℕ → String
write t = String.◌∷◌ "t" (strokes t)

abbrev parse : String → Option Timestamp
parse String.[] = none
parse (String.◌∷◌ c s) = some (record { seconds = count_strokes s; nanos = 0 })

abbrev at : ℕ → Option Timestamp
at t = some (record { seconds = t; nanos = 0 })

parse-write : (t : ℕ) → parse (write t) ≡ some (record { seconds = t; nanos = 0 })
parse-write t = ap at (count_strokes-strokes t)

batch_of-response_batch_example :
    batch_of parse (
      response_batch_dto write
        (some (record batch { user_message = some (message 1 "user" "大家好") })))
    ≡ whole_batch (message 1 "user" "大家好") batch
batch_of-response_batch_example =
    batch_of-response_batch write parse parse-write refl batch (message 1 "user" "大家好")
