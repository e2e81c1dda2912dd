-- ===== src/Orchestration/Context/Select.antt =====
-- internal/orchestration/context.go: `selectHistoryBatches`.
pub mod Chain
pub mod Laws
use mathlib.Core.List.{reverse}
use anime_companion_ai.Prelude.{
  ℕ, zero, suc, ◌+◌, ◌-◌, String, not, ◌&&◌, List, [], ◌∷◌, str_eq, ltb, ◌==◌, if◌then◌else◌,
  length, sum_by, take, drop,
}
use anime_companion_ai.Prelude.Text.{is_empty}
use anime_companion_ai.Conversation.{Turn}
use anime_companion_ai.Orchestration.Context.Estimate.{estimate_tokens, estimate_message_tokens}

abbrev pub default_context_token_budget : ℕ
default_context_token_budget = 6000

-- `batchRange`: the messages from `start` to `stop` (exclusive), and their tokens.
pub record BatchRange : Type 0 where
  pub start : ℕ
  pub stop : ℕ
  pub tokens : ℕ

-- The inner loop `for end < len(history) && …`: how far the batch `batch_id` goes on.
unfoldable pub run_length : String → List Turn → ℕ
run_length batch_id [] = 0
run_length batch_id (m ∷ rest) =
    let more = run_length batch_id rest in
    if not (is_empty batch_id) && str_eq m.batch_id batch_id then suc more else 0

unfoldable pub tokens_of : List Turn → ℕ
tokens_of = sum_by estimate_message_tokens

-- The loop that builds `batches`, on `history[start:]`; each round consumes a message.
unfoldable pub batch_ranges : ℕ → ℕ → List Turn → List BatchRange
unfolding run_length tokens_of
batch_ranges zero start rest = []
batch_ranges (suc fuel) start [] = []
batch_ranges (suc fuel) start (m ∷ rest) =
    let n = run_length m.batch_id rest in
    let stop = start + 1 + n in
    record { start = start; stop = stop; tokens = tokens_of (m ∷ take n rest) }
    ∷ batch_ranges fuel stop (drop n rest)

-- The loop from the last batch down; the result is `first`.
unfoldable pub pick_first : List BatchRange → ℕ → ℕ → ℕ
pick_first [] remaining first = first
pick_first (b ∷ bs) remaining first =
    let next = pick_first bs (remaining - b.tokens) b.start in
    if ltb remaining b.tokens then first else next

-- What the prompt, the message, the summaries and the earlier replies of the batch cost.
unfoldable pub fixed_cost : String → String → List Turn → List String → ℕ
unfolding tokens_of
fixed_cost character_prompt current_user prefix summaries =
    1200
    + estimate_tokens character_prompt
    + estimate_tokens current_user
    + sum_by estimate_tokens summaries
    + tokens_of prefix

-- `remaining` is an `int` there; here it stops at 0, where the code returns `nil` as below 0.
unfoldable pub select_history_batches :
    List Turn → String → String → List Turn → List String → List Turn
unfolding batch_ranges pick_first fixed_cost
select_history_batches history character_prompt current_user prefix summaries =
    let remaining =
      default_context_token_budget - fixed_cost character_prompt current_user prefix summaries in
    if remaining == 0
    then []
    else let batches = batch_ranges (length history) 0 history in
      drop (pick_first (reverse batches) remaining (length history)) history
