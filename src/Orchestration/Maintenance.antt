-- ===== src/Orchestration/Maintenance.antt =====
-- internal/orchestration/maintenance.go: `MaintainDay`, which archives, summarises and clears the
-- conversations of a day.
pub mod Counts
pub mod Trace
pub mod Samples
pub mod Tests
use Prim.Native.Char.{code}
use anime_companion_ai.Prelude.{
  ℕ, suc, ◌-◌, ◌*◌, ◌+◌, String, Bool, true, false, Option, none, some, List, [], ◌∷◌, map, ltb,
  ◌==◌, if◌then◌else◌, str_eq, contains, Result, ok, err,
}
use anime_companion_ai.Prelude.Text.{trim_space, is_empty}
use anime_companion_ai.Conversation.{Turn, Scope}
use anime_companion_ai.Orchestration.Types
use anime_companion_ai.Orchestration.Model.{Model}

-- `memory.ArchiveTurn`
pub record ArchiveTurn : Type 0 where
  pub turn_id : String
  pub role : String
  pub content : String
  pub created_at : ℕ
  pub speaker_kind : String
  pub speaker_id : String
  pub batch_id : String
  pub sequence : ℕ

abbrev pub archive_turn : Turn → ArchiveTurn
archive_turn m = record {
  turn_id = m.turn_id;
  role = m.role;
  content = m.content;
  created_at = m.created_at;
  speaker_kind = m.speaker_kind;
  speaker_id = m.speaker_id;
  batch_id = m.batch_id;
  sequence = m.sequence;
}

-- The calls of the store and of the repository. `true` is a call without an error.
pub record Services : Type 1 where
  pub State : Type 0
  pub active_scopes : ℕ → State → Option (List Scope) × State
  pub messages_for_date : Scope → ℕ → State → Option (List Turn) × State
  pub clear_scope_date : Scope → ℕ → State → Bool × State
  -- `ArchiveDailyConversationForScope`
  pub archive : Scope → ℕ → List ArchiveTurn → String → State → Bool × State
  pub purge_summaries : ℕ → State → Bool × State

-- What the loop does with a scope: `greet` is the owner that is greeted.
pub data Verdict : Type 0 where
  failed : Verdict
  processed : (greet : Option String) → Verdict

pub record MaintenanceResult : Type 0 where
  pub greet_owner_ids : List String
  pub processed : ℕ
  pub failed : ℕ
  pub target_date : ℕ

pub data MaintenanceError : Type 0 where
  no_repository no_scopes : MaintenanceError

-- The order of texts, for `sort.Strings`.
unfoldable pub text_less : String → String → Bool
text_less s String.[] = false
text_less String.[] (String.◌∷◌ d t) = true
text_less (String.◌∷◌ c s) (String.◌∷◌ d t) =
    let rest = text_less s t in
    if ltb (code c) (code d) then true else if code c == code d then rest else false

pub insert_text : String → List String → List String
unfolding text_less
insert_text s [] = s ∷ []
insert_text s (t ∷ ts) =
    let rest = insert_text s ts in if text_less t s then t ∷ rest else s ∷ t ∷ ts

unfoldable pub sort_texts : List String → List String
unfolding insert_text
sort_texts [] = []
sort_texts (s ∷ ts) = insert_text s (sort_texts ts)

abbrev pub greeted : Scope → Option String
greeted scope =
    if str_eq scope.identity.channel "wechat" then some scope.identity.external_id else none

-- The set `greet`, as a list.
abbrev pub add_greet : Option String → List String → List String
add_greet none greet = greet
add_greet (some owner) greet = if contains owner greet then greet else owner ∷ greet

module _ (services : Services) (model : Model) where
  open services use {
    State, active_scopes, messages_for_date, clear_scope_date, archive, purge_summaries,
  }

  -- The last step of a scope.
  unfoldable pub clear_step : Option String → Scope → ℕ → State → Verdict × State
  clear_step greet scope day s =
      let (fine, s') = clear_scope_date scope day s in
      (if fine then processed greet else failed, s')

  unfoldable pub store_summary : String → Scope → ℕ → State → Verdict × State
  unfolding clear_step
  store_summary summary scope day s =
      let (fine, s') = archive scope day [] summary s in
      let cleared = clear_step (greeted scope) scope day s' in
      if fine then cleared else (failed, s')

  abbrev pub as_scope : Scope → Types.Scope
  as_scope scope = record {
    owner = record { channel = scope.identity.channel; id = scope.identity.external_id };
    conversation_id = scope.conversation_id;
  }

  unfoldable pub summarise : Option String → Scope → ℕ → State → Verdict × State
  unfolding store_summary
  summarise none scope day s = (failed, s)
  summarise (some text) scope day s =
      if is_empty (trim_space text)
      then (failed, s)
      else store_summary (trim_space text) scope day s

  unfoldable pub archive_messages : List Turn → Scope → ℕ → State → Verdict × State
  unfolding clear_step summarise
  archive_messages [] scope day s = clear_step none scope day s
  archive_messages (m ∷ ms) scope day s =
      let (fine, s') = archive scope day (map archive_turn (m ∷ ms)) "" s in
      let summary = model.summarize (record { scope = as_scope scope; messages = m ∷ ms }) in
      if fine then summarise summary scope day s' else (failed, s')

  unfoldable pub after_messages : Scope → ℕ → Option (List Turn) × State → Verdict × State
  unfolding archive_messages
  after_messages scope day (none, s) = (failed, s)
  after_messages scope day (some messages, s) = archive_messages messages scope day s

  -- The body of the loop over the scopes.
  unfoldable pub maintain_scope : ℕ → Scope → State → Verdict × State
  unfolding after_messages
  maintain_scope day scope s = after_messages scope day (messages_for_date scope day s)

  -- The loop's variables.
  pub record Tally : Type 0 where
    pub greet : List String
    pub processed : ℕ
    pub failed : ℕ

  unfoldable pub count_verdict : Verdict → Tally → Tally
  count_verdict failed t = record t { failed = suc t.failed }
  count_verdict (processed greet) t = record t {
    processed = suc t.processed;
    greet = add_greet greet t.greet;
  }

  unfoldable pub maintain_scopes : ℕ → List Scope → Tally → State → Tally × State
  unfolding maintain_scope count_verdict
  maintain_scopes day [] t s = (t, s)
  maintain_scopes day (scope ∷ scopes) t s =
      let (verdict, s') = maintain_scope day scope s in
      maintain_scopes day scopes (count_verdict verdict t) s'

  unfoldable pub after_scopes :
      ℕ → Option (List Scope) × State → Result MaintenanceError MaintenanceResult × State
  unfolding maintain_scopes sort_texts
  after_scopes day (none, s) = (err no_scopes, s)
  after_scopes day (some scopes, s) =
      let (t, s') =
        maintain_scopes day scopes (record { greet = []; processed = 0; failed = 0 }) s in
      let (fine, s'') = purge_summaries (day - 7 * 86400) s' in
      (
        ok (record {
          greet_owner_ids = sort_texts t.greet;
          processed = t.processed;
          failed = if fine then t.failed else suc t.failed;
          target_date = day;
        }),
        s'',
      )

  -- `MaintainDay`; `has_repo` is the test for the repository.
  unfoldable pub maintain_day : Bool → ℕ → State → Result MaintenanceError MaintenanceResult × State
  unfolding after_scopes
  maintain_day has_repo day s =
      let run = after_scopes day (active_scopes day s) in
      if has_repo then run else (err no_repository, s)
