-- ===== src/Orchestration/Maintenance/Samples.antt =====
-- Answers to the calls of the maintenance: one conversation with one message, and no error.
use anime_companion_ai.Prelude.{ℕ, true, none, some, [], ◌∷◌}
use anime_companion_ai.Conversation.{Turn, Scope}
use anime_companion_ai.Orchestration.Model.{Model}
use anime_companion_ai.Orchestration.Maintenance.Trace.{Answers}

abbrev pub visitor : Scope
visitor = record {
  identity = record { channel = "wechat"; external_id = "mina" };
  conversation_id = "direct-haruhi";
}

abbrev pub today : ℕ
today = 1700000000

abbrev pub summariser : Model
summariser = record { plan = λ i. none; generate = λ i. none; summarize = λ i. some "喜欢棒球。" }

abbrev pub message : Turn
message = record {
  turn_id = "turn-1";
  role = "user";
  content = "我喜欢棒球";
  created_at = 1699990000;
  conversation_id = "direct-haruhi";
  speaker_kind = "user";
  speaker_id = "user";
  batch_id = "batch-1";
  sequence = 1;
  display_name = "你";
  avatar_url = "";
}

abbrev pub answers : Answers
answers = record {
  scopes = λ t. some (visitor ∷ []);
  messages = λ scope t. some (message ∷ []);
  files = λ scope ms summary t. true;
  clears = λ scope t. true;
  purges = λ t. true;
}
