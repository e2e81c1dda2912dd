-- ===== src/Orchestration/Send/WriteErrors.antt =====
-- internal/orchestration/application.go: the errors of the part of `Send` behind `BeginBatch`.
use anime_companion_ai.Prelude.{
  String, ◌≡◌, ◌≢◌, refl, ap, Bool, true, false, Option, none, some, List, [], ◌∷◌, ok, err,
  if_cases,
}
use anime_companion_ai.Prelude.Text.{is_empty}
use anime_companion_ai.Conversation
use anime_companion_ai.Conversation.{Turn, Batch}
use anime_companion_ai.Persona.Registry.{CharacterId, Character, find}
use anime_companion_ai.Orchestration.Types.{Scope}
use anime_companion_ai.Orchestration.Model.{Model}
use anime_companion_ai.Orchestration.Store.{
  Store, StoreError, conversation_busy, lease_lost, unavailable, Written,
}
use anime_companion_ai.Orchestration.Send.{
  SendError, of_store, Ran, broken_off, close, storage_scope, said, say, character_of, save_plan,
  finish, stop, speak, speak_plan, proceed_cases,
}

-- A write reports a lost lease or another error, but never that the conversation is busy.
pub record WriteLaws (store : Store) : Type 0 where
  pub save_not_busy :
      (scope : Conversation.Scope) (batch : Batch) (lease : String) (release : Bool)
      (s : store.State)
      → (store.save_batch scope batch lease release s).0.error ≢ some conversation_busy
  pub append_not_busy :
      (scope : Conversation.Scope) (batch : Batch) (lease : String) (character : Character)
      (text : String) (s : store.State)
      → (store.append_character scope batch lease character text s).0.error ≢ some conversation_busy

-- The errors of a write.
pub data IsWriteError : SendError → Type 0 where
  lost : IsWriteError (of_store lease_lost)
  broken : IsWriteError (of_store unavailable)

write_error : (e : StoreError) → e ≢ conversation_busy → IsWriteError (of_store e)
write_error conversation_busy h = absurd (h refl)
write_error lease_lost h = lost
write_error unavailable h = broken

module _ (store : Store) (laws : WriteLaws store) (model : Model)
    (summaries_of : Option (Scope → Option (List String))) (is_uuid : String → Bool) where
  open store use {State, save_batch}

  -- The errors of what follows `BeginBatch` are errors of a write.
  pub record FailsByWrite (r : Ran × State) : Type 0 where
    pub by_write : (x : SendError) → r.0.result ≡ err x → IsWriteError x

  broken-FailsByWrite :
      (e : StoreError) (s : State) → e ≢ conversation_busy → FailsByWrite (broken_off e, s)
  broken-FailsByWrite e s h = record {
    by_write = λ x f. let same : of_store e ≡ x = cc in rw (← same) (write_error e h);
  }

  close-FailsByWrite :
      (w : Written × State) → w.0.error ≢ some conversation_busy → FailsByWrite (close w.0, w.1)
  unfolding close
  close-FailsByWrite (w, s) h = by_error w.error h
    where
      by_error :
          (e : Option StoreError)
          → e ≢ some conversation_busy
          → FailsByWrite (
            elim e [
              | none ↦ record { result = ok w.batch; settled = true }
              | some x ↦ record { result = err (of_store x); settled = false }
            ],
            s,
          )
      by_error none k = record {
        by_write = λ x f. absurd (let impossible : ok w.batch ≡ err x = f in cc);
      }
      by_error (some e) k = record {
        by_write = λ x f.
            let same : of_store e ≡ x = cc in
            rw (← same) (write_error e (λ busy. k (ap some busy)));
      }

  module _ (scope : Scope) (content : String) (history : List Turn) (summaries : List String)
      (lease : String) where
    abbrev said' : CharacterId → Batch → String
    said' = said store model summaries_of is_uuid scope content history summaries lease

    abbrev say' : CharacterId → Batch → State → Written × State
    say' = say store model summaries_of is_uuid scope content history summaries lease

    abbrev speak' : List CharacterId → Batch → State → Ran × State
    speak' = speak store model summaries_of is_uuid scope content history summaries lease

    finish-FailsByWrite :
        (batch : Batch) (s : State)
        → FailsByWrite
            (finish store model summaries_of is_uuid scope content history summaries lease batch s)
    unfolding finish
    finish-FailsByWrite batch s =
        close-FailsByWrite (save_batch (storage_scope scope) _ lease true s)
          (laws.save_not_busy (storage_scope scope) _ lease true s)

    stop-FailsByWrite :
        (batch : Batch) (s : State)
        → FailsByWrite
            (stop store model summaries_of is_uuid scope content history summaries lease batch s)
    unfolding stop
    stop-FailsByWrite batch s =
        close-FailsByWrite (save_batch (storage_scope scope) _ lease true s)
          (laws.save_not_busy (storage_scope scope) _ lease true s)

    say_not_busy :
        (id : CharacterId) (batch : Batch) (s : State)
        → (say' id batch s).0.error ≢ some conversation_busy
    unfolding say
    say_not_busy id batch s =
        laws.append_not_busy (storage_scope scope) batch lease (character_of (find id))
          (said' id batch) s

    -- The errors of a call that never reports busy.
    broken_by-FailsByWrite :
        (w : Written × State)
        → w.0.error ≢ some conversation_busy
        → (e : StoreError) → w.0.error ≡ some e
        → FailsByWrite (broken_off e, w.1)
    broken_by-FailsByWrite w h e f = broken-FailsByWrite e w.1 (λ busy. h cc)

    speak-FailsByWrite :
        (plan : List CharacterId) (batch : Batch) (s : State)
        → FailsByWrite (
            speak store model summaries_of is_uuid scope content history summaries lease plan batch
              s)
    unfolding speak
    speak-FailsByWrite [] batch s = finish-FailsByWrite batch s
    speak-FailsByWrite (id ∷ plan) batch s =
        let going_on = speak-FailsByWrite plan in
        let next = say' id batch s in
        if_cases FailsByWrite (is_empty (said' id batch)) (λ _. stop-FailsByWrite batch s)
          λ _.
            proceed_cases FailsByWrite (speak' plan) next (λ _. going_on next.0.batch next.1)
              (broken_by-FailsByWrite next (say_not_busy id batch s))

    pub speak_plan-FailsByWrite :
        (plan : List CharacterId) (batch : Batch) (s : State)
        → FailsByWrite (
            speak_plan store model summaries_of is_uuid scope content history summaries lease plan
              batch s)
    unfolding speak_plan save_plan
    speak_plan-FailsByWrite plan batch s =
        let next =
          save_plan store model summaries_of is_uuid scope content history summaries lease plan
            batch s in
        proceed_cases FailsByWrite (speak' plan) next
          (λ _. speak-FailsByWrite plan next.0.batch next.1)
          (broken_by-FailsByWrite next (laws.save_not_busy (storage_scope scope) _ lease false s))
