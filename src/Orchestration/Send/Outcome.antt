-- ===== src/Orchestration/Send/Outcome.antt =====
-- What a batch holds when `Send` returns it: who has spoken, and its status.
use anime_companion_ai.Prelude.{
  ℕ, String, ◌≡◌, refl, sym, ◌∙◌, Bool, true, false, Option, none, List, [], ◌∷◌, ◌++◌, map, ok,
  arith, if_cases, All, All-append, append-nil, append_assoc,
}
use mathlib.Core.List.{map-append}
use anime_companion_ai.Prelude.Text.{is_empty}
use anime_companion_ai.Conversation.{
  Scope as StorageScope, Turn, Batch, batch_complete, batch_partial, batch_failed,
}
use anime_companion_ai.Persona.Registry.{CharacterId, Character, find}
use anime_companion_ai.Orchestration.Types.{Scope, Space}
use anime_companion_ai.Orchestration.Model.{Model}
use anime_companion_ai.Orchestration.Store.{Store, StoreError, Written, begin_started}
use anime_companion_ai.Orchestration.Send.{
  Ran, broken_off, close, storage_scope, character_of, interrupted_status, interruption, said, say,
  save_plan, finish, stop, speak, speak_plan, plan_of, clean_up-result, after_begin, proceed_cases,
}

-- What `Send` relies on: a save changes nothing but the time of the batch, and an append adds one
-- message of the character with the text.
pub record StoreLaws (store : Store) : Type 0 where
  pub save_keeps :
      (scope : StorageScope) (batch : Batch) (lease : String) (release : Bool) (s : store.State)
      → (store.save_batch scope batch lease release s).0.error ≡ none
      → (t : ℕ) × ((store.save_batch scope batch lease release s).0.batch
          ≡ record batch { updated_at = t })
  pub append_adds :
      (scope : StorageScope) (batch : Batch) (lease : String) (character : Character)
      (text : String) (s : store.State)
      → (store.append_character scope batch lease character text s).0.error ≡ none
      → (m : Turn) × (t : ℕ) × ((store.append_character scope batch lease character text s).0.batch
          ≡ record batch {
            character_messages = batch.character_messages ++ m ∷ [];
            updated_at = t;
          })
        × (m.speaker_id ≡ character.id)
        × (m.content ≡ text)

-- The id under which a planned character speaks.
abbrev pub speaker_of : CharacterId → String
speaker_of id = (character_of (find id)).id

abbrev pub speakers : List Turn → List String
speakers = map λ m. m.speaker_id

-- The planned characters `spoken` have each said something, in this order.
pub record HasSpoken (spoken : List CharacterId) (batch : Batch) : Type 0 where
  pub in_order : speakers batch.character_messages ≡ map speaker_of spoken
  pub no_blank : All (λ (m : Turn). is_empty m.content ≡ false) batch.character_messages

-- The status tells whether the plan was carried out, broken off, or not begun.
pub data Ending (batch : Batch) : List CharacterId → List CharacterId → Type 0 where
  complete :
      {spoken : List CharacterId}
      → batch.status ≡ batch_complete
      → batch.interruption_code ≡ ""
      → Ending batch spoken []
  partial :
      {id id' : CharacterId} {spoken silent : List CharacterId}
      → batch.status ≡ batch_partial
      → batch.interruption_code ≡ interruption
      → Ending batch (id' ∷ spoken) (id ∷ silent)
  failed :
      {id : CharacterId} {silent : List CharacterId}
      → batch.status ≡ batch_failed
      → batch.interruption_code ≡ interruption
      → Ending batch [] (id ∷ silent)

pub record IsReply (plan : List CharacterId) (batch : Batch) : Type 0 where
  pub spoken : List CharacterId
  pub silent : List CharacterId
  pub split : plan ≡ spoken ++ silent
  pub planned : batch.planned_speaker_ids ≡ plan
  pub messages : HasSpoken spoken batch
  pub ending : Ending batch spoken silent

-- The loop's invariant: so far `spoken` have spoken.
record SoFar (plan spoken : List CharacterId) (batch : Batch) : Type 0 where
  planned : batch.planned_speaker_ids ≡ plan
  messages : HasSpoken spoken batch
  uninterrupted : batch.interruption_code ≡ ""

interrupted-Ending :
    (spoken : List CharacterId) (id : CharacterId) (silent : List CharacterId) (ms : List Turn)
    (batch : Batch)
    → speakers ms ≡ map speaker_of spoken
    → batch.status ≡ interrupted_status ms
    → batch.interruption_code ≡ interruption
    → Ending batch spoken (id ∷ silent)
unfolding interrupted_status
interrupted-Ending [] id silent [] batch e st i = failed st i
interrupted-Ending (x ∷ spoken) id silent (m ∷ ms) batch e st i = partial st i
interrupted-Ending [] id silent (m ∷ ms) batch e st i = cc
interrupted-Ending (x ∷ spoken) id silent [] batch e st i = cc

speakers-append :
    (ms : List Turn) (spoken : List CharacterId) (m : Turn) (id : CharacterId)
    → speakers ms ≡ map speaker_of spoken
    → m.speaker_id ≡ speaker_of id
    → speakers (ms ++ m ∷ []) ≡ map speaker_of (spoken ++ id ∷ [])
speakers-append ms spoken m id e f = simp (map-append, e, f)

close-ok : (w : Written) (b : Batch) → (close w).result ≡ ok b → (w.error ≡ none) × (b ≡ w.batch)
unfolding close
close-ok w b h = (ground arith, ground arith)

module _ (store : Store) (laws : StoreLaws store) (model : Model)
    (summaries_of : Option (Scope → Option (List String))) (is_uuid : String → Bool) where
  open store use {State, save_batch}

  -- Every batch that is returned carries out `plan`.
  pub record Returns (plan : List CharacterId) (r : Ran × State) : Type 0 where
    pub reply : (b : Batch) → r.0.result ≡ ok b → IsReply plan b

  broken-Returns :
      (plan : List CharacterId) (s : State) (e : StoreError) → Returns plan (broken_off e, s)
  broken-Returns plan s e = record { reply = λ b h. cc }

  saved-IsReply :
      (plan : List CharacterId) (scope : StorageScope) (batch : Batch) (lease : String) (s : State)
      → ((t : ℕ) → IsReply plan (record batch { updated_at = t }))
      → Returns plan
          (close (save_batch scope batch lease true s).0, (save_batch scope batch lease true s).1)
  saved-IsReply plan scope batch lease s h = record {
    reply = λ b e.
        let (fine, same) = close-ok _ b e in
        let (t, kept) = laws.save_keeps scope batch lease true s fine in rw (same ∙ kept) (h t);
  }

  module _ (scope : Scope) (content : String) (history : List Turn) (summaries : List String)
      (lease : String) where
    abbrev said' : CharacterId → Batch → String
    said' = said store model summaries_of is_uuid scope content history summaries lease

    abbrev say' : CharacterId → Batch → State → Written × State
    say' = say store model summaries_of is_uuid scope content history summaries lease

    abbrev speak' : List CharacterId → Batch → State → Ran × State
    speak' = speak store model summaries_of is_uuid scope content history summaries lease

    finish-Returns :
        (plan : List CharacterId) (batch : Batch) (s : State)
        → SoFar plan plan batch
        → Returns plan
            (finish store model summaries_of is_uuid scope content history summaries lease batch s)
    unfolding finish
    finish-Returns plan batch s h =
        saved-IsReply plan (storage_scope scope) (record batch { status = batch_complete }) lease s
          λ t. record {
            spoken = plan;
            silent = [];
            split = sym (append-nil plan);
            planned = h.planned;
            messages = record { in_order = h.messages.in_order; no_blank = h.messages.no_blank };
            ending = complete refl h.uninterrupted;
          }

    stop-Returns :
        (plan spoken : List CharacterId) (id : CharacterId) (silent : List CharacterId)
        (batch : Batch) (s : State)
        → plan ≡ spoken ++ id ∷ silent
        → SoFar plan spoken batch
        → Returns plan
            (stop store model summaries_of is_uuid scope content history summaries lease batch s)
    unfolding stop
    stop-Returns plan spoken id silent batch s e h =
        saved-IsReply plan (storage_scope scope) _ lease s λ t. record {
          spoken = spoken;
          silent = id ∷ silent;
          split = e;
          planned = h.planned;
          messages = record { in_order = h.messages.in_order; no_blank = h.messages.no_blank };
          ending =
              interrupted-Ending spoken id silent batch.character_messages _ h.messages.in_order
                refl refl;
        }

    say-SoFar :
        (plan spoken : List CharacterId) (id : CharacterId) (batch : Batch) (s : State)
        → SoFar plan spoken batch
        → is_empty (said' id batch) ≡ false
        → (say' id batch s).0.error ≡ none
        → SoFar plan (spoken ++ id ∷ []) (say' id batch s).0.batch
    unfolding say
    say-SoFar plan spoken id batch s h text fine =
        let (m, t, same, by, content') =
          laws.append_adds (storage_scope scope) batch lease (character_of (find id))
            (said' id batch) s fine in
        rw same (record {
          planned = h.planned;
          messages = record {
            in_order = speakers-append batch.character_messages spoken m id h.messages.in_order by;
            no_blank =
                All-append _ batch.character_messages (m ∷ []) h.messages.no_blank
                  (rw content' text, tt);
          };
          uninterrupted = h.uninterrupted;
        })

    speak-Returns :
        (plan spoken rest : List CharacterId) (batch : Batch) (s : State)
        → plan ≡ spoken ++ rest
        → SoFar plan spoken batch
        → Returns plan (speak' rest batch s)
    unfolding speak
    speak-Returns plan spoken [] batch s e h =
        finish-Returns plan batch s (rw (e ∙ append-nil spoken) (rw (e ∙ append-nil spoken) at h))
    speak-Returns plan spoken (id ∷ rest) batch s e h =
        let going_on = speak-Returns plan (spoken ++ id ∷ []) rest in
        let next = say' id batch s in
        if_cases (Returns plan) (is_empty (said' id batch))
          (λ _. stop-Returns plan spoken id rest batch s e h)
          λ text.
            proceed_cases (Returns plan) (speak' rest) next
              (λ fine.
                going_on next.0.batch next.1 (e ∙ sym (append_assoc spoken (id ∷ []) rest))
                  (say-SoFar plan spoken id batch s h text fine))
              (λ e _. broken-Returns plan next.1 e)

    speak_plan-Returns :
        (plan : List CharacterId) (batch : Batch) (s : State)
        → batch.character_messages ≡ []
        → batch.interruption_code ≡ ""
        → Returns plan (
            speak_plan store model summaries_of is_uuid scope content history summaries lease plan
              batch s)
    unfolding speak_plan save_plan
    speak_plan-Returns plan batch s silent fresh =
        let planned = record batch { planned_speaker_ids = plan } in
        let next = save_batch (storage_scope scope) planned lease false s in
        proceed_cases (Returns plan) (speak' plan) next
          (λ fine.
            let (t, kept) = laws.save_keeps (storage_scope scope) planned lease false s fine in
            speak-Returns plan [] plan next.0.batch next.1 refl (
              rw kept (record {
                planned = refl;
                messages = record { in_order = rw silent; no_blank = rw silent tt };
                uninterrupted = fresh;
              })))
          (λ e _. broken-Returns plan next.1 e)

  -- On a store that keeps the laws: if `Send` returns a batch that it has begun, empty, then a first part of the plan has spoken, in
  -- the order of the plan and nobody with a blank text, and the status is `complete` if that is the
  -- whole plan, `failed` if nobody has spoken, and `partial` otherwise, with the interruption code
  -- exactly when the plan was not carried out.
  pub after_begin-IsReply :
      (scope : Scope) (space : Space) (content : String) (history : List Turn)
      (summaries : List String) (batch : Batch) (lease : String) (s : State) (b : Batch)
      → batch.character_messages ≡ []
      → batch.interruption_code ≡ ""
      → (after_begin store model summaries_of is_uuid scope space content history summaries
          (begin_started batch lease)
          s).0
        ≡ ok b
      → IsReply (plan_of store model summaries_of is_uuid scope space history content) b
  unfolding after_begin
  after_begin-IsReply scope space content history summaries batch lease s b silent fresh e =
      (speak_plan-Returns scope content history summaries lease _ batch s silent fresh).reply b
        (sym (clean_up-result store model summaries_of is_uuid scope batch lease _) ∙ e)
