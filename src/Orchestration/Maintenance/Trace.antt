-- ===== src/Orchestration/Maintenance/Trace.antt =====
-- internal/orchestration/maintenance.go: the calls of the store and of the repository that the
-- maintenance makes, for any answers to them.
use anime_companion_ai.Prelude.{
  ℕ, String, ◌≡◌, refl, Bool, true, false, Option, none, some, List, [], ◌∷◌, map, if_cases, Result,
}
use anime_companion_ai.Prelude.Text.{trim_space, is_empty}
use anime_companion_ai.Conversation.{Turn, Scope}
use anime_companion_ai.Orchestration.Model.{Model}
use anime_companion_ai.Orchestration.Maintenance.{
  ArchiveTurn, archive_turn, Services, Verdict, Tally, greeted, as_scope, clear_step, store_summary,
  summarise, archive_messages, after_messages, maintain_scope, count_verdict, maintain_scopes,
  after_scopes, maintain_day, MaintenanceError, MaintenanceResult,
}

-- A call with its answer.
pub data Noted : Type 0 where
  listed : ℕ → Noted
  read : Scope → ℕ → Option (List Turn) → Noted
  filed : Scope → ℕ → List ArchiveTurn → String → Bool → Noted
  cleared : Scope → ℕ → Bool → Noted
  purged : ℕ → Bool → Noted

-- Answers that depend in any way on the calls before, of which the last comes first.
pub record Answers : Type 0 where
  pub scopes : List Noted → Option (List Scope)
  pub messages : Scope → List Noted → Option (List Turn)
  pub files : Scope → List ArchiveTurn → String → List Noted → Bool
  pub clears : Scope → List Noted → Bool
  pub purges : List Noted → Bool

abbrev pub noted : Answers → Services
noted answers = record {
  State = List Noted;
  active_scopes = λ day t. (answers.scopes t, listed day ∷ t);
  messages_for_date =
      λ scope day t. (answers.messages scope t, read scope day (answers.messages scope t) ∷ t);
  clear_scope_date =
      λ scope day t. (answers.clears scope t, cleared scope day (answers.clears scope t) ∷ t);
  archive = λ scope day ms summary t. (
    answers.files scope ms summary t,
    filed scope day ms summary (answers.files scope ms summary t) ∷ t,
  );
  purge_summaries = λ cutoff t. (answers.purges t, purged cutoff (answers.purges t) ∷ t);
}

module _ (answers : Answers) (model : Model) where
  -- When a scope may be cleared: right before, its messages of the day were read, and there were none;
  -- or all that were read were archived, and then the summary of them, which is not blank, both without
  -- an error.
  pub data MayClear (scope : Scope) (day : ℕ) (t : List Noted) : Type 0 where
    nothing_there : (t' : List Noted) → t ≡ read scope day (some []) ∷ t' → MayClear scope day t
    archived :
        (m : Turn) (ms : List Turn) (text : String) (t' : List Noted)
        → model.summarize
            (record { scope = as_scope (noted answers) model scope; messages = m ∷ ms })
          ≡ some text
        → is_empty (trim_space text) ≡ false
        → t
          ≡ filed scope day [] (trim_space text) true
            ∷ filed scope day (map archive_turn (m ∷ ms)) "" true
            ∷ read scope day (some (m ∷ ms))
            ∷ t'
        → MayClear scope day t

  -- Every scope that was cleared might be cleared.
  abbrev pub IsSafe : List Noted → Type 0
  IsSafe [] = Unit {0}
  IsSafe (cleared scope day fine ∷ t) = MayClear scope day t × IsSafe t
  IsSafe (listed day ∷ t) = IsSafe t
  IsSafe (read scope day ms ∷ t) = IsSafe t
  IsSafe (filed scope day ms summary fine ∷ t) = IsSafe t
  IsSafe (purged cutoff fine ∷ t) = IsSafe t

  clear_step-IsSafe :
      (greet : Option String) (scope : Scope) (day : ℕ) (t : List Noted)
      → MayClear scope day t
      → IsSafe t
      → IsSafe (clear_step (noted answers) model greet scope day t).1
  unfolding clear_step
  clear_step-IsSafe greet scope day t may safe = (may, safe)

  store_summary-IsSafe :
      (summary : String) (scope : Scope) (day : ℕ) (t : List Noted)
      → (answers.files scope [] summary t ≡ true
          → MayClear scope day (filed scope day [] summary (answers.files scope [] summary t) ∷ t))
      → IsSafe t
      → IsSafe (store_summary (noted answers) model summary scope day t).1
  unfolding store_summary
  store_summary-IsSafe summary scope day t may safe =
      let t' = filed scope day [] summary (answers.files scope [] summary t) ∷ t in
      if_cases (λ (r : Verdict × List Noted). IsSafe r.1) (answers.files scope [] summary t)
        (λ fine. clear_step-IsSafe (greeted scope) scope day t' (may fine) safe) (λ _. safe)

  summarise-IsSafe :
      (m : Turn) (ms : List Turn) (summary : Option String) (scope : Scope) (day : ℕ)
      (t : List Noted)
      → model.summarize (record { scope = as_scope (noted answers) model scope; messages = m ∷ ms })
        ≡ summary
      → IsSafe t
      → IsSafe
          (summarise (noted answers) model summary scope day (
            filed scope day (map archive_turn (m ∷ ms)) "" true
            ∷ read scope day (some (m ∷ ms))
            ∷ t)).1
  unfolding summarise
  summarise-IsSafe m ms none scope day t e safe = safe
  summarise-IsSafe m ms (some text) scope day t e safe =
      let t' =
        filed scope day (map archive_turn (m ∷ ms)) "" true ∷ read scope day (some (m ∷ ms)) ∷ t in
      if_cases (λ (r : Verdict × List Noted). IsSafe r.1) (is_empty (trim_space text)) (λ _. safe)
        (λ full.
          store_summary-IsSafe (trim_space text) scope day t'
            (λ fine. archived m ms text t e full (rw fine refl)) safe)

  after_messages-IsSafe :
      (scope : Scope) (day : ℕ) (found : Option (List Turn)) (t : List Noted)
      → IsSafe t
      → IsSafe (after_messages (noted answers) model scope day (found, read scope day found ∷ t)).1
  unfolding after_messages archive_messages
  after_messages-IsSafe scope day none t safe = safe
  after_messages-IsSafe scope day (some []) t safe =
      clear_step-IsSafe none scope day _ (nothing_there t refl) safe
  after_messages-IsSafe scope day (some (m ∷ ms)) t safe =
      let filing = map archive_turn (m ∷ ms) in
      let t' = read scope day (some (m ∷ ms)) ∷ t in
      if_cases (λ (r : Verdict × List Noted). IsSafe r.1) (answers.files scope filing "" t')
        (λ fine. rw fine (summarise-IsSafe m ms _ scope day t refl safe)) (λ _. safe)

  maintain_scopes-IsSafe :
      (scopes : List Scope) (day : ℕ) (tally : Tally (noted answers) model) (t : List Noted)
      → IsSafe t
      → IsSafe (maintain_scopes (noted answers) model day scopes tally t).1
  unfolding maintain_scopes maintain_scope
  maintain_scopes-IsSafe [] day tally t safe = safe
  maintain_scopes-IsSafe (scope ∷ scopes) day tally t safe =
      let next = maintain_scope (noted answers) model day scope t in
      maintain_scopes-IsSafe scopes day (count_verdict (noted answers) model next.0 tally) next.1
        (after_messages-IsSafe scope day (answers.messages scope t) t safe)

  after_scopes-IsSafe :
      (day : ℕ) (found : Option (List Scope)) (t : List Noted)
      → IsSafe t
      → IsSafe (after_scopes (noted answers) model day (found, t)).1
  unfolding after_scopes
  after_scopes-IsSafe day none t safe = safe
  after_scopes-IsSafe day (some scopes) t safe =
      maintain_scopes-IsSafe scopes day (record { greet = []; processed = 0; failed = 0 }) t safe

  -- Whatever the store, the repository and the model answer to the calls of `MaintainDay`, errors
  -- included: a conversation is cleared only right after its messages of the day were read, and there
  -- were none or all of them were archived and then their summary, which is not blank, both without an
  -- error.
  pub maintain_day-IsSafe :
      (has_repo : Bool) (day : ℕ) → IsSafe (maintain_day (noted answers) model has_repo day []).1
  unfolding maintain_day
  maintain_day-IsSafe has_repo day =
      if_cases (λ (r : Result MaintenanceError MaintenanceResult × List Noted). IsSafe r.1) has_repo
        (λ _. after_scopes-IsSafe day (answers.scopes []) (listed day ∷ []) tt) (λ _. tt)
