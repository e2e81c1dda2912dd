-- ===== src/Orchestration/Send/Release.antt =====
-- internal/orchestration/application.go: how a batch that `Send` has begun is closed.
use anime_companion_ai.Prelude.{
  String, ◌≡◌, refl, Bool, true, Option, none, List, [], ◌∷◌, arith, if_cases, Bool-cases, inl, inr,
}
use anime_companion_ai.Prelude.Text.{is_empty}
use anime_companion_ai.Conversation.{Turn, Batch}
use anime_companion_ai.Persona.Registry.{CharacterId}
use anime_companion_ai.Orchestration.Types.{Scope, Space}
use anime_companion_ai.Orchestration.Model.{Model}
use anime_companion_ai.Orchestration.Store.{Store, StoreError, begin_started, Written}
use anime_companion_ai.Orchestration.Send.{
  Ran, broken_off, close, storage_scope, said, say, save_plan, finish, stop, speak, speak_plan,
  clean_up, after_begin, proceed_cases,
}

module _ (store : Store) (model : Model) (summaries_of : Option (Scope → Option (List String)))
    (is_uuid : String → Bool) where
  open store use {State, save_batch, interrupt_batch}

  -- The last call: a save that releases the lease and succeeds, or the interruption of the batch.
  pub data IsClosed (scope : Scope) (batch : Batch) (lease : String) (s' : State) : Type 0 where
    released :
        (saved : Batch) (s : State)
        → (save_batch (storage_scope scope) saved lease true s).0.error ≡ none
        → s' ≡ (save_batch (storage_scope scope) saved lease true s).1
        → IsClosed scope batch lease s'
    interrupted :
        (s : State)
        → s'
          ≡ (interrupt_batch
              (storage_scope scope)
              batch.batch_id
              batch.client_request_id
              lease
              batch.created_at
              s).1
        → IsClosed scope batch lease s'

  -- A run that counts as settled has released its lease.
  IsSettled : Scope → String → Ran × State → Type 0
  IsSettled scope lease (ran, s') =
      ran.settled ≡ true
      → (saved : Batch) × (s : State) × ((save_batch (storage_scope scope) saved lease true
            s).0.error
          ≡ none)
        × (s' ≡ (save_batch (storage_scope scope) saved lease true s).1)

  module _ (scope : Scope) (content : String) (history : List Turn) (summaries : List String)
      (lease : String) where
    -- The operations of the section, at its parameters.
    abbrev said' : CharacterId → Batch → String
    said' = said store model summaries_of is_uuid scope content history summaries lease

    abbrev say' : CharacterId → Batch → State → Written × State
    say' = say store model summaries_of is_uuid scope content history summaries lease

    abbrev speak' : List CharacterId → Batch → State → Ran × State
    speak' = speak store model summaries_of is_uuid scope content history summaries lease

    broken-IsSettled : (s : State) (e : StoreError) → IsSettled scope lease (broken_off e, s)
    unfolding IsSettled
    broken-IsSettled s e h = cc

    close-settled : (w : Written) → (close w).settled ≡ true → w.error ≡ none
    unfolding close
    close-settled w h = ground arith

    finish-IsSettled :
        (batch : Batch) (s : State)
        → IsSettled scope lease
            (finish store model summaries_of is_uuid scope content history summaries lease batch s)
    unfolding finish IsSettled
    finish-IsSettled batch s h = (_, s, close-settled _ h, refl)

    stop-IsSettled :
        (batch : Batch) (s : State)
        → IsSettled scope lease
            (stop store model summaries_of is_uuid scope content history summaries lease batch s)
    unfolding stop IsSettled
    stop-IsSettled batch s h = (_, s, close-settled _ h, refl)

    speak-IsSettled :
        (plan : List CharacterId) (batch : Batch) (s : State)
        → IsSettled scope lease (
            speak store model summaries_of is_uuid scope content history summaries lease plan batch
              s)
    unfolding speak
    speak-IsSettled [] batch s = finish-IsSettled batch s
    speak-IsSettled (id ∷ plan) batch s =
        let going_on = speak-IsSettled plan in
        let next = say' id batch s in
        if_cases (IsSettled scope lease) (is_empty (said' id batch)) (λ _. stop-IsSettled batch s)
          λ _.
            proceed_cases (IsSettled scope lease) (speak' plan) next
              (λ _. going_on next.0.batch next.1) (λ e _. broken-IsSettled next.1 e)

    speak_plan-IsSettled :
        (plan : List CharacterId) (batch : Batch) (s : State)
        → IsSettled scope lease (
            speak_plan store model summaries_of is_uuid scope content history summaries lease plan
              batch s)
    unfolding speak_plan
    speak_plan-IsSettled plan batch s =
        let next =
          save_plan store model summaries_of is_uuid scope content history summaries lease plan
            batch s in
        proceed_cases (IsSettled scope lease) (speak' plan) next
          (λ _. speak-IsSettled plan next.0.batch next.1) (λ e _. broken-IsSettled next.1 e)

  clean_up-IsClosed :
      (scope : Scope) (batch : Batch) (lease : String) (r : Ran × State)
      → IsSettled scope lease r
      → IsClosed scope batch lease (clean_up store model summaries_of is_uuid scope batch lease r).1
  unfolding clean_up IsSettled
  clean_up-IsClosed scope batch lease (ran, s) h = elim (Bool-cases ran.settled) [
    | inl yes' ↦ rw yes' (let (saved, s₀, fine, last) = h yes' in released saved s₀ fine last)
    | inr no' ↦ rw no' (interrupted s refl)
  ]

  -- Once `BeginBatch` has started a batch, whatever the model and the store do and wherever `Send`
  -- returns, its last call of the store either saves the batch, releases the lease and succeeds, or is
  -- `InterruptBatch` for this batch and lease.
  pub after_begin-IsClosed :
      (scope : Scope) (space : Space) (content : String) (history : List Turn)
      (summaries : List String) (batch : Batch) (lease : String) (s : State)
      → IsClosed scope batch lease
          (after_begin store model summaries_of is_uuid scope space content history summaries
            (begin_started batch lease)
            s).1
  unfolding after_begin
  after_begin-IsClosed scope space content history summaries batch lease s =
      clean_up-IsClosed scope batch lease _
        (speak_plan-IsSettled scope content history summaries lease _ batch s)
