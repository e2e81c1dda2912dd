-- ===== src/Orchestration/Send/Refusal.antt =====
-- internal/orchestration/application.go: which errors `Send` returns, and what it has done by then.
use anime_companion_ai.Prelude.{
  String, ◌≡◌, refl, sym, ◌∙◌, ◌⊎◌, inl, inr, Bool, not, ◌||◌, Option, none, some, List, ltb,
  Result, ok, err, if_cases,
}
use anime_companion_ai.Prelude.Text.{trim_space, is_empty, rune_count}
use anime_companion_ai.Conversation.{Turn, Batch}
use anime_companion_ai.Orchestration.Types.{Scope, Space, SendCommand, find_space}
use anime_companion_ai.Orchestration.Model.{Model}
use anime_companion_ai.Orchestration.Reply.{normalize_character_messages}
use anime_companion_ai.Orchestration.Store.{
  Store, StoreError, Begun, begin_failed, begin_existing, begin_started,
}
use anime_companion_ai.Orchestration.Send.{
  SendError, invalid_request, message_too_large, not_started, storage_scope, speak_plan, plan_of,
  clean_up-result, after_begin, load_summaries, after_history, send_in, send,
}
use anime_companion_ai.Orchestration.Send.WriteErrors.{
  WriteLaws, IsWriteError, speak_plan-FailsByWrite,
}

module _ (store : Store) (laws : WriteLaws store) (model : Model)
    (summaries_of : Option (Scope → Option (List String))) (is_uuid : String → Bool) where
  open store use {State, messages, begin_batch}

  -- What `Send` has done where it has begun no batch: nothing, or it has read the messages of the day,
  -- or `BeginBatch` has failed too.
  pub data Unstarted (command : SendCommand) (s s' : State) : Type 0 where
    untouched : s' ≡ s → Unstarted command s s'
    only_read : s' ≡ (messages (storage_scope command.scope) s).1 → Unstarted command s s'
    refused :
        (x : StoreError)
        → begin_batch
            (storage_scope command.scope)
            command.client_request_id
            (trim_space command.content)
            (messages (storage_scope command.scope) s).1
          ≡ (begin_failed x, s')
        → Unstarted command s s'

  record Refuses (command : SendCommand) (s : State) (r : Result SendError Batch × State)
      : Type 0 where
    refuses : (e : SendError) → r.0 ≡ err e → IsWriteError e ⊎ Unstarted command s r.1

  module _ (command : SendCommand) (s : State) where
    begun' : Begun × State
    begun' =
        begin_batch (storage_scope command.scope) command.client_request_id
          (trim_space command.content) (messages (storage_scope command.scope) s).1

    after_begin-Refuses :
        (space : Space) (history : List Turn) (summaries : List String) (begun : Begun) (s' : State)
        → begun' ≡ (begun, s')
        → Refuses command s (
            after_begin store model summaries_of is_uuid command.scope space
              (trim_space command.content)
              history
              summaries
              begun
              s')
    unfolding after_begin begun'
    after_begin-Refuses space history summaries (begin_failed x) s' h = record {
      refuses = λ e f. inr (refused x h);
    }
    after_begin-Refuses space history summaries (begin_existing batch) s' h = record {
      refuses = λ e f. absurd (let impossible : ok batch ≡ err e = f in cc);
    }
    after_begin-Refuses space history summaries (begin_started batch lease) s' h =
        let ran =
          speak_plan store model summaries_of is_uuid command.scope (trim_space command.content)
            history summaries lease
            (plan_of store model summaries_of is_uuid command.scope space history
              (trim_space command.content))
            batch s' in
        record {
          refuses = λ e f. inl (
              (speak_plan-FailsByWrite store laws model summaries_of is_uuid command.scope
                  (trim_space command.content) history summaries lease _ batch s').by_write
                e
                (sym
                    (clean_up-result store model summaries_of is_uuid command.scope batch lease ran)
                  ∙ f));
        }

    after_history-Refuses :
        (space : Space) (loaded : Option (List Turn))
        → Refuses command s (
            after_history store model summaries_of is_uuid command space
              (trim_space command.content)
              loaded
              (messages (storage_scope command.scope) s).1)
    unfolding after_history begun'
    after_history-Refuses space none = record { refuses = λ e f. inr (only_read refl) }
    after_history-Refuses space (some history) =
        by_summaries (load_summaries store model summaries_of is_uuid command.scope)
      where
        by_summaries :
            (loaded : Option (List String))
            → Refuses command s (elim loaded [
              | none ↦ (err not_started, (messages (storage_scope command.scope) s).1)
              | some summaries ↦
                  after_begin store model summaries_of is_uuid command.scope space
                    (trim_space command.content)
                    (normalize_character_messages history)
                    summaries
                    begun'.0
                    begun'.1
            ])
        by_summaries none = record { refuses = λ e f. inr (only_read refl) }
        by_summaries (some summaries) =
            after_begin-Refuses space (normalize_character_messages history) summaries begun'.0
              begun'.1 refl

    send_in-Refuses :
        (space : Option Space)
        → Refuses command s (send_in store model summaries_of is_uuid command space s)
    unfolding send_in
    send_in-Refuses none = record { refuses = λ e f. inr (untouched refl) }
    send_in-Refuses (some space) =
        let content = trim_space command.content in
        let rejected : (x : SendError) → Refuses command s (err x, s) =
          λ x. record { refuses = λ _ _. inr (untouched refl) } in
        if_cases (Refuses command s) (is_empty content || not (is_uuid command.client_request_id))
          (λ _. rejected invalid_request)
          λ _.
            if_cases (Refuses command s) (ltb 4000 (rune_count content))
              (λ _. rejected message_too_large)
              (λ _. after_history-Refuses space (messages (storage_scope command.scope) s).0)

  -- For a store whose writes report a lost lease or another error: if `Send` returns an error, then it
  -- is such an error of a write, or `Send` has begun no batch. It has then changed nothing, or has only
  -- read the messages of the day, or has called `BeginBatch` last, which has failed.
  pub send-refuses :
      (command : SendCommand) (s : State) (e : SendError)
      → (send store model summaries_of is_uuid command s).0 ≡ err e
      → IsWriteError e ⊎ Unstarted command s (send store model summaries_of is_uuid command s).1
  unfolding send
  send-refuses command s e f =
      (send_in-Refuses command s (find_space command.scope.conversation_id)).refuses e f
