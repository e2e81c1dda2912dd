-- ===== src/Orchestration/Context/Select/Laws.antt =====
-- internal/orchestration/context.go: the part of the history that `selectHistoryBatches` returns.
use anime_companion_ai.Prelude.{ℕ, ◌+◌, ◌≤◌, ◌<◌, ◌≡◌, List, [], ◌∷◌, ◌++◌, length}
use anime_companion_ai.Conversation.{Turn}
use anime_companion_ai.Orchestration.Context.Select.{tokens_of}
use anime_companion_ai.Orchestration.Context.Select.Chain.{IsCut, InBatch}

-- No batch is left out that would still fit: `older` ends in a whole batch that exceeds `budget`.
pub data IsFull (budget : ℕ) (older selected : List Turn) : Type 0 where
  all_selected : older ≡ [] → IsFull budget older selected
  too_large :
      (before : List Turn) (m : Turn) (ms : List Turn)
      → older ≡ before ++ m ∷ ms
      → InBatch m.batch_id ms
      → budget < tokens_of (m ∷ ms) + tokens_of selected
      → IsFull budget older selected

-- `selected` is what the code may choose from `history` under `budget`.
pub record IsSelection (history : List Turn) (budget : ℕ) (selected : List Turn) : Type 0 where
  pub older : List Turn
  pub split : history ≡ older ++ selected
  pub fits : tokens_of selected ≤ budget
  pub whole : IsCut older selected
  pub full : IsFull budget older selected

-- The loop's result `first` stands for a selection.
record Picked (history : List Turn) (budget first : ℕ) : Type 0 where
  selected : List Turn
  selection : IsSelection history budget selected
  index : first ≡ length selection.older
