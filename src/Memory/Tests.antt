-- ===== src/Memory/Tests.antt =====
-- The archive of one day in tables in memory, which keep every row.
use anime_companion_ai.Prelude.{ℕ, String, ◌≡◌, ◌⊎◌, true, List, [], ◌∷◌}
use anime_companion_ai.Orchestration.Maintenance.{ArchiveTurn}
use anime_companion_ai.Memory.{Message, MemorySummary, Tables}

record Rows : Type 0 where
  messages : List Message
  summaries : List MemorySummary

abbrev In : {A : Type 0} → A → List A → Type 0
In x [] = ⊥
In x (y ∷ ys) = (x ≡ y) ⊎ In x ys

abbrev tables : Tables
tables = record {
  State = Rows;
  insert_message = λ m s. (true, record s { messages = m ∷ s.messages });
  upsert_summary = λ x s. (true, record s { summaries = x ∷ s.summaries });
}

abbrev turn : ArchiveTurn
turn = record {
  turn_id = "turn-1";
  role = "user";
  content = "你好";
  created_at = 1699990000;
  speaker_kind = "user";
  speaker_id = "user";
  batch_id = "batch-1";
  sequence = 1;
}

abbrev drawn : ℕ → String
drawn place = "legacy-1"

abbrev empty : Rows
empty = record { messages = []; summaries = [] }
