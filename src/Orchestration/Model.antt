-- ===== src/Orchestration/Model.antt =====
-- internal/orchestration/types.go: the `Model` interface and its inputs.
use anime_companion_ai.Prelude.{String, Option, List}
use anime_companion_ai.Conversation.{Turn}
use anime_companion_ai.Persona.Registry.{CharacterId, Character}
use anime_companion_ai.Orchestration.Types.{Scope, Space}

pub record PlanInput : Type 0 where
  pub scope : Scope
  pub space : Space
  pub history : List Turn
  pub user_content : String
  pub addressed_ids : List CharacterId

pub record CharacterInput : Type 0 where
  pub scope : Scope
  pub character : Character
  pub summaries : List String
  pub history : List Turn
  pub user_message : Turn
  pub prefix : List Turn

pub record SummaryInput : Type 0 where
  pub scope : Scope
  pub messages : List Turn

-- `none` is an error.
pub record Model : Type 0 where
  pub plan : PlanInput → Option (List CharacterId)
  pub generate : CharacterInput → Option String
  pub summarize : SummaryInput → Option String
