-- ===== src/Orchestration/Store.antt =====
-- What `Application` calls of `conversation.RedisStore`: an interface, with a state of its own.
use anime_companion_ai.Prelude.{ℕ, String, Bool, Option, List}
use anime_companion_ai.Conversation.{Scope, Turn, Batch}
use anime_companion_ai.Persona.Registry.{Character}

-- `ErrConversationBusy`, `ErrLeaseLost`, and any other error.
pub data StoreError : Type 0 where
  conversation_busy lease_lost unavailable : StoreError

-- What `BeginBatch` returns.
pub data Begun : Type 0 where
  begin_failed : StoreError → Begun
  begin_existing : Batch → Begun
  begin_started : Batch → String → Begun

-- A call that changes the caller's batch and may fail.
pub record Written : Type 0 where
  pub batch : Batch
  pub error : Option StoreError

pub record Store : Type 1 where
  pub State : Type 0
  pub messages : Scope → State → Option (List Turn) × State
  pub begin_batch : Scope → String → String → State → Begun × State
  pub save_batch : Scope → Batch → String → Bool → State → Written × State
  pub append_character : Scope → Batch → String → Character → String → State → Written × State
  pub interrupt_batch : Scope → String → String → String → ℕ → State → Option Batch × State
  pub clear_scope_today : Scope → State → Option StoreError × State
