-- ===== src/Agent/Maintenance.antt =====
-- internal/agent/server.go: `RunDailyMaintenance`, with the application and on the older store.
pub mod Kept
pub mod Tests
use anime_companion_ai.Prelude.{
  ℕ, ◌-◌, ◌*◌, String, Bool, true, false, Option, none, some, List, [], ◌∷◌, ◌++◌, map, str_eq,
  if◌then◌else◌, Result, ok, err,
}
use anime_companion_ai.Prelude.Text.{is_empty}
use anime_companion_ai.Conversation.{Identity, Turn, Scope, default_conversation_id}
use anime_companion_ai.Orchestration.Model.{Model}
use anime_companion_ai.Orchestration.Maintenance.{
  ArchiveTurn, Services, maintain_day, MaintenanceResult, MaintenanceError,
}
use anime_companion_ai.Agent.Server.{ChatTurn, to_turns}

-- `ArchiveDailyConversation` is the archive of the scope with Haruhi. Of a turn only four fields go in.
abbrev pub haruhi_scope : Identity → Scope
haruhi_scope identity = record { identity = identity; conversation_id = default_conversation_id }

abbrev pub plain_archive_turn : Turn → ArchiveTurn
plain_archive_turn m = record {
  turn_id = m.turn_id;
  role = m.role;
  content = m.content;
  created_at = m.created_at;
  speaker_kind = "";
  speaker_id = "";
  batch_id = "";
  sequence = 0;
}

-- The older store and the repository as services: `messages_for_date` is `TurnsForDate` and
-- `clear_scope_date` is `ClearDate`, for the scope of an owner. `identities` is `ActiveIdentities`, and
-- `summarize` the older summary; errors are `none`.
module _ (services : Services)
    (identities : ℕ → services.State → Option (List Identity) × services.State)
    (summarize : List ChatTurn → Option String) where
  open services use {State, messages_for_date, clear_scope_date, archive, purge_summaries}

  abbrev pub greeting : Identity → List String
  greeting identity = if str_eq identity.channel "wechat" then identity.external_id ∷ [] else []

  -- The last step: whether the turns are cleared is not asked.
  unfoldable pub clear_and_greet : ℕ → Identity → State → List String × State
  clear_and_greet day identity s =
      (greeting identity, (clear_scope_date (haruhi_scope identity) day s).1)

  unfoldable pub file_summary : ℕ → Identity → Option String → State → List String × State
  unfolding clear_and_greet
  file_summary day identity none s = ([], s)
  file_summary day identity (some summary) s =
      let (fine, s') = archive (haruhi_scope identity) day [] summary s in
      let cleared = clear_and_greet day identity s' in if fine then cleared else ([], s')

  unfoldable pub maintain_turns : ℕ → Identity → Option (List Turn) × State → List String × State
  unfolding file_summary to_turns
  maintain_turns day identity (none, s) = ([], s)
  maintain_turns day identity (some [], s) =
      ([], (clear_scope_date (haruhi_scope identity) day s).1)
  maintain_turns day identity (some (m ∷ ms), s) =
      let (fine, s') = archive (haruhi_scope identity) day (map plain_archive_turn (m ∷ ms)) "" s in
      let filed = file_summary day identity (summarize (to_turns (m ∷ ms))) s' in
      if fine then filed else ([], s')

  -- The body of the loop: who is greeted.
  unfoldable pub maintain_identity : ℕ → Identity → State → List String × State
  unfolding maintain_turns
  maintain_identity day identity s =
      maintain_turns day identity (messages_for_date (haruhi_scope identity) day s)

  unfoldable pub maintain_identities : ℕ → List Identity → State → List String × State
  unfolding maintain_identity
  maintain_identities day [] s = ([], s)
  maintain_identities day (identity ∷ rest) s =
      let (greet, s') = maintain_identity day identity s in
      let (greets, s'') = maintain_identities day rest s' in (greet ++ greets, s'')

  unfoldable pub maintain_active : ℕ → Option (List Identity) × State → Option (List String) × State
  unfolding maintain_identities
  maintain_active day (none, s) = (none, s)
  maintain_active day (some found, s) =
      let (greets, s') = maintain_identities day found s in
      (some greets, (purge_summaries (day - 7 * 86400) s').1)

  abbrev greeted_by : Result MaintenanceError MaintenanceResult → Option (List String)
  greeted_by (ok result) = some result.greet_owner_ids
  greeted_by (err e) = none

  -- `RunDailyMaintenance`: who is greeted, or `none` for an error; `parse_date` is `ParseBeijingDate`,
  -- and the application, if there is one, is over services of its own.
  unfoldable pub run_daily_maintenance :
      (String → Option ℕ)
      → Option (ℕ → State → Result MaintenanceError MaintenanceResult × State)
      → String
      → State
      → Option (List String) × State
  unfolding maintain_active is_empty
  run_daily_maintenance parse_date app target s =
      let parsed : Option (List String) × State = elim (parse_date target) [
        | none ↦ (none, s)
        | some day ↦ elim app [
          | some maintain ↦ (greeted_by (maintain day s).0, (maintain day s).1)
          | none ↦ maintain_active day (identities day s)
        ]
      ] in
      if is_empty target then (none, s) else parsed
