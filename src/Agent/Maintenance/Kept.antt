-- ===== src/Agent/Maintenance/Kept.antt =====
-- internal/agent/server.go: the calls of the older store and of the repository that
-- `RunDailyMaintenance` makes, for any answers to them.
use anime_companion_ai.Prelude.{
  ℕ, String, ◌≡◌, refl, true, Option, none, some, List, [], ◌∷◌, map, if_cases,
}
use anime_companion_ai.Prelude.Text.{is_empty}
use anime_companion_ai.Conversation.{Identity, Turn, Scope}
use anime_companion_ai.Orchestration.Maintenance.Trace.{
  Noted, listed, read, filed, cleared, purged, Answers, noted,
}
use anime_companion_ai.Agent.Server.{ChatTurn, to_turns}
use anime_companion_ai.Agent.Maintenance.{
  haruhi_scope, plain_archive_turn, clear_and_greet, file_summary, maintain_turns,
  maintain_identity, maintain_identities, maintain_active, run_daily_maintenance,
}

-- `found` answers the call for the owners.
abbrev pub noted_owners :
    (List Noted → Option (List Identity)) → ℕ → List Noted → Option (List Identity) × List Noted
noted_owners found day t = (found t, listed day ∷ t)

module _ (answers : Answers) (found : List Noted → Option (List Identity))
    (summarize : List ChatTurn → Option String) where
  -- When a scope may be cleared: right before, its turns of the day were read, and there were none; or
  -- all that were read were archived, and then what the model made of them, both without an error.
  pub data MayClear (scope : Scope) (day : ℕ) (t : List Noted) : Type 0 where
    nothing_there : (t' : List Noted) → t ≡ read scope day (some []) ∷ t' → MayClear scope day t
    archived :
        (m : Turn) (ms : List Turn) (summary : String) (t' : List Noted)
        → summarize (to_turns (m ∷ ms)) ≡ some summary
        → t
          ≡ filed scope day [] summary true
            ∷ filed scope day (map plain_archive_turn (m ∷ ms)) "" true
            ∷ read scope day (some (m ∷ ms))
            ∷ t'
        → MayClear scope day t

  -- Every scope that was cleared might be cleared.
  abbrev pub IsKept : List Noted → Type 0
  IsKept [] = Unit {0}
  IsKept (cleared scope day fine ∷ t) = MayClear scope day t × IsKept t
  IsKept (listed day ∷ t) = IsKept t
  IsKept (read scope day ms ∷ t) = IsKept t
  IsKept (filed scope day ms summary fine ∷ t) = IsKept t
  IsKept (purged cutoff fine ∷ t) = IsKept t

  file_summary-IsKept :
      (m : Turn) (ms : List Turn) (day : ℕ) (identity : Identity) (summary : Option String)
      (t : List Noted)
      → summarize (to_turns (m ∷ ms)) ≡ summary
      → IsKept t
      → IsKept
          (file_summary (noted answers) (noted_owners found) summarize day identity summary (
            filed (haruhi_scope identity) day (map plain_archive_turn (m ∷ ms)) "" true
            ∷ read (haruhi_scope identity) day (some (m ∷ ms))
            ∷ t)).1
  unfolding file_summary clear_and_greet
  file_summary-IsKept m ms day identity none t e kept = kept
  file_summary-IsKept m ms day identity (some summary) t e kept =
      let scope = haruhi_scope identity in
      let t' =
        filed scope day (map plain_archive_turn (m ∷ ms)) "" true
        ∷ read scope day (some (m ∷ ms))
        ∷ t in
      if_cases (λ (r : List String × List Noted). IsKept r.1) (answers.files scope [] summary t')
        (λ fine. (archived m ms summary t e (rw fine refl), kept)) (λ _. kept)

  maintain_turns-IsKept :
      (day : ℕ) (identity : Identity) (turns : Option (List Turn)) (t : List Noted)
      → IsKept t
      → IsKept
          (maintain_turns
            (noted answers)
            (noted_owners found)
            summarize
            day
            identity
            (turns, read (haruhi_scope identity) day turns ∷ t)).1
  unfolding maintain_turns
  maintain_turns-IsKept day identity none t kept = kept
  maintain_turns-IsKept day identity (some []) t kept = (nothing_there t refl, kept)
  maintain_turns-IsKept day identity (some (m ∷ ms)) t kept =
      let scope = haruhi_scope identity in
      let filing = map plain_archive_turn (m ∷ ms) in
      let t' = read scope day (some (m ∷ ms)) ∷ t in
      if_cases (λ (r : List String × List Noted). IsKept r.1) (answers.files scope filing "" t')
        (λ fine. rw fine (file_summary-IsKept m ms day identity _ t refl kept)) (λ _. kept)

  maintain_identities-IsKept :
      (day : ℕ) (owners : List Identity) (t : List Noted)
      → IsKept t
      → IsKept (maintain_identities (noted answers) (noted_owners found) summarize day owners t).1
  unfolding maintain_identities maintain_identity
  maintain_identities-IsKept day [] t kept = kept
  maintain_identities-IsKept day (identity ∷ rest) t kept =
      maintain_identities-IsKept day rest _
        (maintain_turns-IsKept day identity (answers.messages (haruhi_scope identity) t) t kept)

  maintain_active-IsKept :
      (day : ℕ) (owners : Option (List Identity)) (t : List Noted)
      → IsKept t
      → IsKept (maintain_active (noted answers) (noted_owners found) summarize day (owners, t)).1
  unfolding maintain_active
  maintain_active-IsKept day none t kept = kept
  maintain_active-IsKept day (some owners) t kept = maintain_identities-IsKept day owners t kept

  -- Whatever the older store, the repository and the model answer to the calls of `RunDailyMaintenance`
  -- without an application, errors included: an owner's turns are cleared only right after those of the
  -- day were read, and there were none or all of them were archived and then what the model made of
  -- them, both without an error.
  pub run_daily_maintenance-IsKept :
      (parse_date : String → Option ℕ) (target : String)
      → IsKept
          (run_daily_maintenance
            (noted answers)
            (noted_owners found)
            summarize
            parse_date
            none
            target
            []).1
  unfolding run_daily_maintenance
  run_daily_maintenance-IsKept parse_date target =
      if_cases (λ (r : Option (List String) × List Noted). IsKept r.1) (is_empty target) (λ _. tt)
        (λ _. by_date (parse_date target))
    where
      by_date :
          (o : Option ℕ)
          → (let r : Option (List String) × List Noted = elim o [
            | none ↦ (none, [])
            | some day ↦
                maintain_active
                  (noted answers)
                  (noted_owners found)
                  summarize
                  day
                  (noted_owners found day [])
          ] in
              IsKept r.1)
      by_date none = tt
      by_date (some day) = maintain_active-IsKept day (found []) (listed day ∷ []) tt
