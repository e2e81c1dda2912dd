-- ===== src/Memory/Archive.antt =====
-- internal/memory/repo.go: what `ArchiveDailyConversationForScope` leaves.
use anime_companion_ai.Prelude.{ℕ, suc, String, ◌≡◌, Bool, true, false, List, [], ◌∷◌}
use anime_companion_ai.Prelude.Text.{is_empty}
use anime_companion_ai.Conversation.{beijing_date}
use anime_companion_ai.Orchestration.Maintenance.{ArchiveTurn}
use anime_companion_ai.Memory.{
  Message, MemorySummary, Tables, created_row, insert_turns, insert_summary, before_create_summary,
  summary_row,
}

-- The tables by what they hold: an insert that is done leaves a row with the key of the message, its
-- own or one that was there before; an upsert that is done leaves the summary's text; and no row goes.
pub record TablesLaws (tables : Tables) : Type 1 where
  pub HasMessage : tables.State → Message → Type 0
  pub HasSummary : tables.State → MemorySummary → Type 0
  pub inserted :
      (m : Message) (s : tables.State)
      → (tables.insert_message m s).0 ≡ true
      → HasMessage (tables.insert_message m s).1 m
  pub upserted :
      (x : MemorySummary) (s : tables.State)
      → (tables.upsert_summary x s).0 ≡ true
      → HasSummary (tables.upsert_summary x s).1 x
  pub insert_keeps :
      (m n : Message) (s : tables.State)
      → HasMessage s n
      → HasMessage (tables.insert_message m s).1 n
  pub upsert_keeps :
      (x : MemorySummary) (n : Message) (s : tables.State)
      → HasMessage s n
      → HasMessage (tables.upsert_summary x s).1 n

module _ (tables : Tables) (laws : TablesLaws tables) (channel external_id conversation_id : String)
    (day now : ℕ) (drawn : ℕ → String) where
  open tables use {State}
  open laws use {HasMessage, HasSummary}

  abbrev row : ℕ → ArchiveTurn → Message
  row = created_row tables channel external_id conversation_id day now drawn

  abbrev turns' : ℕ → List ArchiveTurn → State → Bool × State
  turns' = insert_turns tables channel external_id conversation_id day now drawn

  abbrev summary' : String → State → Bool × State
  summary' = insert_summary tables channel external_id conversation_id day now drawn

  abbrev summarised : String → MemorySummary
  summarised summary =
      before_create_summary now
        (summary_row channel external_id conversation_id (beijing_date day) now summary)

  -- Every turn has a row, as the hook fills it in.
  abbrev pub HasRows : ℕ → List ArchiveTurn → State → Type 0
  HasRows place [] s = Unit {0}
  HasRows place (turn ∷ turns) s = HasMessage s (row place turn) × HasRows (suc place) turns s

  -- The rows of the turns and, where there is one, the summary.
  pub record IsArchived (turns : List ArchiveTurn) (summary : String) (s : State) : Type 0 where
    pub rows : HasRows 0 turns s
    pub text : is_empty summary ≡ false → HasSummary s (summarised summary)
