-- ===== src/Orchestration/Send/Completion.antt =====
-- internal/orchestration/application.go: when `Send` completes a batch.
use anime_companion_ai.Prelude.{
  String, ◌≡◌, refl, sym, ap, ◌∙◌, Bool, true, false, Option, none, some, List, [], ◌∷◌, ◌++◌, map,
  append-nil, ok, if_cases,
}
use anime_companion_ai.Prelude.Text.{is_empty}
use anime_companion_ai.Conversation.{
  Scope as StorageScope, Turn, Batch, batch_complete, batch_partial, batch_failed,
}
use anime_companion_ai.Persona.Registry.{CharacterId, Character}
use anime_companion_ai.Orchestration.Types.{Scope, Space}
use anime_companion_ai.Orchestration.Model.{Model, CharacterInput}
use anime_companion_ai.Orchestration.Store.{Store, Written, begin_started}
use anime_companion_ai.Orchestration.Send.{
  Ran, close, storage_scope, text_of, said, say, save_plan, finish, speak, speak_plan, plan_of,
  clean_up-result, after_begin, proceed, proceed_cases,
}
use anime_companion_ai.Orchestration.Send.Outcome.{
  StoreLaws, IsReply, Ending, complete, partial, failed, speakers, speaker_of, after_begin-IsReply,
}

-- As long as the lease is held, no write of a batch under it fails, and every write but one that gives
-- the lease back leaves it held.
pub record KeepsLease (store : Store) (scope : StorageScope) (lease : String)
    (Holds : store.State → Type 0) : Type 0 where
  pub save_done :
      (batch : Batch) (release : Bool) (s : store.State)
      → Holds s
      → (store.save_batch scope batch lease release s).0.error ≡ none
  pub save_holds :
      (batch : Batch) (s : store.State)
      → Holds s
      → Holds (store.save_batch scope batch lease false s).1
  pub append_done :
      (batch : Batch) (character : Character) (text : String) (s : store.State)
      → Holds s
      → (store.append_character scope batch lease character text s).0.error ≡ none
  pub append_holds :
      (batch : Batch) (character : Character) (text : String) (s : store.State)
      → Holds s
      → Holds (store.append_character scope batch lease character text s).1

close_done : (w : Written) → w.error ≡ none → (close w).result ≡ ok w.batch
unfolding close
close_done w e = rw e refl

-- A complete batch has no silent speakers.
complete-silent :
    (batch : Batch) (spoken silent : List CharacterId)
    → Ending batch spoken silent
    → batch.status ≡ batch_complete
    → silent ≡ []
complete-silent batch spoken _ (complete st i) e = refl
complete-silent batch _ _ (partial st i) e =
    absurd (let impossible : batch_partial ≡ batch_complete = sym st ∙ e in cc)
complete-silent batch _ _ (failed st i) e =
    absurd (let impossible : batch_failed ≡ batch_complete = sym st ∙ e in cc)

module _ (store : Store) (laws : StoreLaws store) (model : Model)
    (talks : (i : CharacterInput) → is_empty (text_of (model.generate i)) ≡ false)
    (summaries_of : Option (Scope → Option (List String))) (is_uuid : String → Bool) where
  open store use {State, save_batch}

  record Completes (r : Ran × State) : Type 0 where
    batch : Batch
    returned : r.0.result ≡ ok batch
    completed : batch.status ≡ batch_complete

  module _ (scope : Scope) (content : String) (history : List Turn) (summaries : List String)
      (lease : String) (Holds : State → Type 0)
      (reliable : KeepsLease store (storage_scope scope) lease Holds) where
    abbrev said' : CharacterId → Batch → String
    said' = said store model summaries_of is_uuid scope content history summaries lease

    abbrev say' : CharacterId → Batch → State → Written × State
    say' = say store model summaries_of is_uuid scope content history summaries lease

    abbrev speak' : List CharacterId → Batch → State → Ran × State
    speak' = speak store model summaries_of is_uuid scope content history summaries lease

    finish-Completes :
        (batch : Batch) (s : State)
        → Holds s
        → Completes
            (finish store model summaries_of is_uuid scope content history summaries lease batch s)
    unfolding finish
    finish-Completes batch s held =
        let done = record batch { status = batch_complete } in
        let fine = reliable.save_done done true s held in
        let (t, kept) = laws.save_keeps (storage_scope scope) done lease true s fine in
        record {
          batch = (save_batch (storage_scope scope) done lease true s).0.batch;
          returned = close_done _ fine;
          completed = ap (λ b. b.status) kept;
        }

    -- A call that does not fail leads on.
    on_done :
        (go_on : Batch → State → Ran × State) (w : Written × State)
        → w.0.error ≡ none
        → Holds w.1
        → ((b : Batch) (s : State) → Holds s → Completes (go_on b s))
        → Completes (proceed go_on w)
    on_done go_on w fine held h =
        proceed_cases Completes go_on w (λ _. h w.0.batch w.1 held)
          (λ e f. absurd (let impossible : none ≡ some e = sym fine ∙ f in cc))

    said_something : (id : CharacterId) (batch : Batch) → is_empty (said' id batch) ≡ false
    unfolding said
    said_something id batch = talks _

    say_done :
        (id : CharacterId) (batch : Batch) (s : State) → Holds s → (say' id batch s).0.error ≡ none
    unfolding say
    say_done id batch s held = reliable.append_done batch _ _ s held

    say_holds : (id : CharacterId) (batch : Batch) (s : State) → Holds s → Holds (say' id batch s).1
    unfolding say
    say_holds id batch s held = reliable.append_holds batch _ _ s held

    speak-Completes :
        (plan : List CharacterId) (batch : Batch) (s : State)
        → Holds s
        → Completes (
            speak store model summaries_of is_uuid scope content history summaries lease plan batch
              s)
    unfolding speak
    speak-Completes [] batch s held = finish-Completes batch s held
    speak-Completes (id ∷ plan) batch s held =
        let going_on = speak-Completes plan in
        if_cases Completes (is_empty (said' id batch))
          (λ e. absurd (let impossible : true ≡ false = sym e ∙ said_something id batch in cc))
          (λ _.
            on_done (speak' plan) (say' id batch s) (say_done id batch s held)
              (say_holds id batch s held) going_on)

    speak_plan-Completes :
        (plan : List CharacterId) (batch : Batch) (s : State)
        → Holds s
        → Completes (
            speak_plan store model summaries_of is_uuid scope content history summaries lease plan
              batch s)
    unfolding speak_plan save_plan
    speak_plan-Completes plan batch s held =
        on_done (speak' plan)
          (save_plan store model summaries_of is_uuid scope content history summaries lease plan
            batch s)
          (reliable.save_done _ false s held) (reliable.save_holds _ s held) (speak-Completes plan)

  speakers_complete :
      (plan : List CharacterId) (b : Batch)
      → IsReply plan b
      → b.status ≡ batch_complete
      → speakers b.character_messages ≡ map speaker_of plan
  speakers_complete plan b r e =
      let no_one = complete-silent b r.spoken r.silent r.ending e in
      let whole : plan ≡ r.spoken =
        r.split ∙ ap (λ l. r.spoken ++ l) no_one ∙ append-nil r.spoken in
      r.messages.in_order ∙ ap (map speaker_of) (sym whole)

  -- On a store that keeps the laws, where the lease of the batch is held and no write under a lease that
  -- is held fails or loses it, and with a model that always says something: a batch that has been begun,
  -- without messages, is returned complete, and everybody of the plan has spoken, in its order.
  pub after_begin-completes :
      (scope : Scope) (space : Space) (content : String) (history : List Turn)
      (summaries : List String) (batch : Batch) (lease : String) (Holds : State → Type 0)
      (reliable : KeepsLease store (storage_scope scope) lease Holds) (s : State)
      → Holds s
      → batch.character_messages ≡ []
      → batch.interruption_code ≡ ""
      → (b : Batch) × ((after_begin store model summaries_of is_uuid scope space content history
            summaries
            (begin_started batch lease)
            s).0
          ≡ ok b)
        × (b.status ≡ batch_complete)
        × (speakers b.character_messages
            ≡ map speaker_of (plan_of store model summaries_of is_uuid scope space history content))
  unfolding after_begin
  after_begin-completes scope space content history summaries batch lease Holds reliable s held
        silent fresh =
      let plan = plan_of store model summaries_of is_uuid scope space history content in
      let done =
        speak_plan-Completes scope content history summaries lease Holds reliable plan batch s
          held in
      let returned =
        clean_up-result store model summaries_of is_uuid scope batch lease (
          speak_plan store model summaries_of is_uuid scope content history summaries lease plan
            batch s)
        ∙ done.returned in
      (
        done.batch,
        returned,
        done.completed,
        speakers_complete plan done.batch
            (after_begin-IsReply store laws model summaries_of is_uuid scope space content history
              summaries batch lease s done.batch silent fresh returned)
            done.completed,
      )
