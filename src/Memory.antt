-- ===== src/Memory.antt =====
-- internal/memory: the rows of long-term memory (model.go) and their archive (repo.go). The tables are
-- kept by the database, which is a parameter; a time that is not set is `none`, and 0 in a turn.
pub mod Archive
pub mod Tests
use Prim.Native.String.{◌++◌}
use anime_companion_ai.Prelude.{
  ℕ, suc, String, Bool, true, false, Option, none, some, List, [], ◌∷◌, str_eq, ◌==◌, if◌then◌else◌,
}
use anime_companion_ai.Prelude.Text.{is_empty}
use anime_companion_ai.Conversation.{beijing_date, role_assistant, default_conversation_id}
use anime_companion_ai.Orchestration.Maintenance.{ArchiveTurn}

-- `Message`, without the number that the database draws.
pub record Message : Type 0 where
  pub open_id : String
  pub channel : String
  pub external_id : String
  pub turn_id : String
  pub conversation_id : String
  pub speaker_kind : String
  pub speaker_id : String
  pub batch_id : String
  pub sequence : ℕ
  pub role : String
  pub content : String
  pub message_date : Option ℕ
  pub archived_at : Option ℕ
  pub created_at : Option ℕ

-- `MemorySummary`
pub record MemorySummary : Type 0 where
  pub open_id : String
  pub channel : String
  pub external_id : String
  pub conversation_id : String
  pub summary_date : Option ℕ
  pub message_date : Option ℕ
  pub content : String
  pub archived_at : Option ℕ
  pub created_at : Option ℕ

unfoldable pub or_text : String → String → String
unfolding is_empty
or_text s default = if is_empty s then default else s

abbrev pub or_time : Option ℕ → ℕ → ℕ
or_time none default = default
or_time (some t) default = t

-- `Message.BeforeCreate`; `drawn` is the id of a turn that has none, and `now` the time.
unfoldable pub before_create : String → ℕ → Message → Message
unfolding or_text is_empty beijing_date
before_create drawn now m =
    let external_id = or_text m.external_id m.open_id in
    let turn_id = or_text m.turn_id drawn in
    let created_at = or_time m.created_at now in
    let by_character = str_eq m.role role_assistant in
    record {
      open_id = or_text m.open_id external_id;
      channel = or_text m.channel "wechat";
      external_id = external_id;
      turn_id = turn_id;
      conversation_id = or_text m.conversation_id "direct-haruhi";
      speaker_kind =
          if is_empty m.speaker_kind
          then if by_character then "character" else "user"
          else m.speaker_kind;
      speaker_id =
          if is_empty m.speaker_kind
          then if by_character then "haruhi" else "user"
          else m.speaker_id;
      batch_id = or_text m.batch_id ("legacy-batch-" ++ turn_id);
      sequence = m.sequence;
      role = m.role;
      content = m.content;
      message_date = some (or_time m.message_date (beijing_date created_at));
      archived_at = some (or_time m.archived_at now);
      created_at = some created_at;
    }

-- `MemorySummary.BeforeCreate`
unfoldable pub before_create_summary : ℕ → MemorySummary → MemorySummary
unfolding or_text beijing_date
before_create_summary now s =
    let external_id = or_text s.external_id s.open_id in
    let summary_date = or_time s.summary_date now in
    record {
      open_id = or_text s.open_id external_id;
      channel = or_text s.channel "wechat";
      external_id = external_id;
      conversation_id = or_text s.conversation_id "direct-haruhi";
      summary_date = some summary_date;
      message_date = some (or_time s.message_date (beijing_date summary_date));
      content = s.content;
      archived_at = some (or_time s.archived_at now);
      created_at = some (or_time s.created_at now);
    }

-- The inserts of a transaction, each with its clause on a conflict; `false` is an error.
pub record Tables : Type 1 where
  pub State : Type 0
  pub insert_message : Message → State → Bool × State
  pub upsert_summary : MemorySummary → State → Bool × State

-- The row of a turn, in `ArchiveDailyConversationForScope`.
unfoldable pub row_of : String → String → String → ℕ → ℕ → ArchiveTurn → Message
row_of channel external_id conversation_id date now turn = record {
  open_id = external_id;
  channel = channel;
  external_id = external_id;
  turn_id = turn.turn_id;
  conversation_id = conversation_id;
  speaker_kind = turn.speaker_kind;
  speaker_id = turn.speaker_id;
  batch_id = turn.batch_id;
  sequence = turn.sequence;
  role = turn.role;
  content = turn.content;
  message_date = some date;
  archived_at = some now;
  created_at = some (if turn.created_at == 0 then now else turn.created_at);
}

unfoldable pub summary_row : String → String → String → ℕ → ℕ → String → MemorySummary
summary_row channel external_id conversation_id date now content = record {
  open_id = external_id;
  channel = channel;
  external_id = external_id;
  conversation_id = conversation_id;
  summary_date = some date;
  message_date = some date;
  content = content;
  archived_at = some now;
  created_at = some now;
}

-- `drawn` names the turns without an id, by their place.
module _ (tables : Tables) (channel external_id conversation_id : String) (day now : ℕ)
    (drawn : ℕ → String) where
  open tables use {State, insert_message, upsert_summary}

  -- The rows as the hook leaves them.
  unfoldable pub created_row : ℕ → ArchiveTurn → Message
  unfolding before_create row_of beijing_date
  created_row place turn =
      before_create (drawn place) now
        (row_of channel external_id conversation_id (beijing_date day) now turn)

  unfoldable pub insert_turns : ℕ → List ArchiveTurn → State → Bool × State
  unfolding created_row
  insert_turns place [] s = (true, s)
  insert_turns place (turn ∷ turns) s =
      let (fine, s') = insert_message (created_row place turn) s in
      let rest = insert_turns (suc place) turns s' in if fine then rest else (false, s')

  unfoldable pub insert_summary : String → State → Bool × State
  unfolding before_create_summary summary_row beijing_date is_empty
  insert_summary summary s =
      let inserted =
        upsert_summary
          (before_create_summary now
            (summary_row channel external_id conversation_id (beijing_date day) now summary))
          s in
      if is_empty summary then (true, s) else inserted

  -- `ArchiveDailyConversationForScope`: a transaction, which an error takes back.
  unfoldable pub archive_for_scope : List ArchiveTurn → String → State → Bool × State
  unfolding insert_turns insert_summary
  archive_for_scope turns summary s =
      let (rows, s₁) = insert_turns 0 turns s in
      let (fine, s₂) = insert_summary summary s₁ in
      if rows then if fine then (true, s₂) else (false, s) else (false, s)
