-- ===== src/Orchestration/Maintenance/Counts.antt =====
-- The numbers that `MaintainDay` reports.
use anime_companion_ai.Prelude.{ℕ, List, []}
use anime_companion_ai.Conversation.{Scope}
use anime_companion_ai.Orchestration.Model.{Model}
use anime_companion_ai.Orchestration.Maintenance.{
  Services, failed, processed, Tally, maintain_scopes,
}

module _ (services : Services) (model : Model) (day : ℕ) where
  open services use {State}

  abbrev tally_of : List Scope → State → Tally services model × State
  tally_of scopes s =
      maintain_scopes services model day scopes (record { greet = []; processed = 0; failed = 0 }) s
