-- ===== src/Orchestration/Send.antt =====
-- internal/orchestration/application.go: `Send`, `ListMessages` and `ClearToday`.
pub mod Release
pub mod Outcome
pub mod WriteErrors
pub mod Refusal
pub mod Completion
use anime_companion_ai.Prelude.{
  ℕ, String, Bool, true, false, not, ◌&&◌, ◌||◌, Option, none, some, List, [], ◌∷◌, ltb,
  if◌then◌else◌, Result, ok, err, ◌≡◌, refl, arith,
}
use anime_companion_ai.Prelude.Text.{trim_space, is_empty, rune_count}
use anime_companion_ai.Conversation
use anime_companion_ai.Conversation.{Turn, Batch, batch_complete, batch_partial, batch_failed}
use anime_companion_ai.Persona.Registry.{CharacterId, Character, find}
use anime_companion_ai.Orchestration.Types.{
  Scope, Space, SpaceKind, group, direct, SendCommand, find_space,
}
use anime_companion_ai.Orchestration.Model.{Model}
use anime_companion_ai.Orchestration.Planning.{plan_speakers}
use anime_companion_ai.Orchestration.Context.Select.{select_history_batches}
use anime_companion_ai.Orchestration.Reply.{normalize_character_messages}
use anime_companion_ai.Orchestration.Store.{
  Store, StoreError, Begun, begin_failed, begin_existing, begin_started, Written,
}

pub data SendError : Type 0 where
  invalid_request message_too_large conversation_not_found not_started : SendError
  of_store : StoreError → SendError

-- `storageScope`
unfoldable pub storage_scope : Scope → Conversation.Scope
storage_scope scope = record {
  identity = record { channel = scope.owner.channel; external_id = scope.owner.id };
  conversation_id = scope.conversation_id;
}

-- The zero value, which `persona.Find` returns for an unknown id.
abbrev pub no_character : Character
no_character = record {
  id = "";
  display_name = "";
  aliases = [];
  avatar_url = "";
  description = "";
  system_prompt = "";
}

abbrev pub character_of : Option Character → Character
character_of none = no_character
character_of (some character) = character

-- The model's text, trimmed; empty after an error.
abbrev pub text_of : Option String → String
text_of none = ""
text_of (some text) = trim_space text

-- What the part of `Send` behind `BeginBatch` returns, with its variable `settled`.
pub record Ran : Type 0 where
  pub result : Result SendError Batch
  pub settled : Bool

-- After a `SaveBatch` that releases the lease, the last call of a batch.
unfoldable pub close : Written → Ran
close written = elim written.error [
  | none ↦ record { result = ok written.batch; settled = true }
  | some e ↦ record { result = err (of_store e); settled = false }
]

abbrev pub broken_off : StoreError → Ran
broken_off e = record { result = err (of_store e); settled = false }

proceed_case {ℓ} : {S : Type ℓ} → (Batch → S → Ran × S) → Option StoreError → Batch → S → Ran × S
proceed_case go_on none batch s = go_on batch s
proceed_case go_on (some e) batch s = (broken_off e, s)

-- A call of the store that may fail, and what follows it.
unfoldable pub proceed {ℓ} : {S : Type ℓ} → (Batch → S → Ran × S) → Written × S → Ran × S
unfolding proceed_case
proceed go_on (written, s) = proceed_case go_on written.error written.batch s

-- A property of both ways on, where the call has succeeded and where it has not.
pub proceed_cases {ℓ κ} :
    {S : Type ℓ} (P : Ran × S → Type κ) (go_on : Batch → S → Ran × S) (w : Written × S)
    → (w.0.error ≡ none → P (go_on w.0.batch w.1))
    → ((e : StoreError) → w.0.error ≡ some e → P (broken_off e, w.1))
    → P (proceed go_on w)
unfolding proceed
proceed_cases P go_on (w, s) h k = by_error w.error h k
  where
    by_error :
        (e : Option StoreError)
        → (e ≡ none → P (go_on w.batch s))
        → ((x : StoreError) → e ≡ some x → P (broken_off x, s))
        → P (proceed_case go_on e w.batch s)
    by_error none h k = h refl
    by_error (some e) h k = k e refl

-- The status of a batch that is interrupted.
unfoldable pub interrupted_status : List Turn → String
interrupted_status [] = batch_failed
interrupted_status (m ∷ ms) = batch_partial

abbrev pub interruption : String
interruption = "generation_interrupted"

-- `store` and `model` are the fields of `Application`, `summaries_of` the repository, if there is one,
-- and `is_uuid` the validation of the uuid package.
module _ (store : Store) (model : Model) (summaries_of : Option (Scope → Option (List String)))
    (is_uuid : String → Bool) where
  open store use {
    State, messages, begin_batch, save_batch, append_character, interrupt_batch, clear_scope_today,
  }

  -- The loop over the plan and what follows it.
  module _ (scope : Scope) (content : String) (history : List Turn) (summaries : List String)
      (lease : String) where
    generated : Character → Batch → Option String
    generated character batch =
        let prefix = batch.character_messages in
        model.generate (record {
          scope = scope;
          character = character;
          summaries = summaries;
          history = select_history_batches history character.system_prompt content prefix summaries;
          user_message = batch.user_message;
          prefix = prefix;
        })

    unfoldable pub finish : Batch → State → Ran × State
    unfolding close
    finish batch s =
        let (written, s') =
          save_batch (storage_scope scope) (record batch { status = batch_complete }) lease true
            s in
        (close written, s')

    unfoldable pub stop : Batch → State → Ran × State
    unfolding close interrupted_status
    stop batch s =
        let interrupted = record batch {
          status = interrupted_status batch.character_messages;
          interruption_code = interruption;
        } in
        let (written, s') = save_batch (storage_scope scope) interrupted lease true s in
        (close written, s')

    -- The text of the next speaker, and its call of `AppendCharacter`.
    unfoldable pub said : CharacterId → Batch → String
    unfolding generated
    said id batch = text_of (generated (character_of (find id)) batch)

    unfoldable pub say : CharacterId → Batch → State → Written × State
    unfolding said
    say id batch s =
        append_character (storage_scope scope) batch lease (character_of (find id)) (said id batch)
          s

    unfoldable pub speak : List CharacterId → Batch → State → Ran × State
    unfolding finish stop proceed
    speak [] batch s = finish batch s
    speak (id ∷ plan) batch s =
        if is_empty (said id batch) then stop batch s else proceed (speak plan) (say id batch s)

    unfoldable pub save_plan : List CharacterId → Batch → State → Written × State
    save_plan plan batch s =
        save_batch (storage_scope scope) (record batch { planned_speaker_ids = plan }) lease false s

    -- From the plan on: it is saved before anybody speaks.
    unfoldable pub speak_plan : List CharacterId → Batch → State → Ran × State
    unfolding speak save_plan
    speak_plan plan batch s = proceed (speak plan) (save_plan plan batch s)

  abbrev only_participant : List Character → Option CharacterId
  only_participant (character ∷ []) = some character.id
  only_participant _ = none

  -- The one participant of a direct space, or the planner's choice.
  unfoldable pub plan_of : Scope → Space → List Turn → String → List CharacterId
  plan_of scope space history content =
      let planned = plan_speakers model scope space history content in
      elim space.kind [
        | group ↦ planned
        | direct ↦ elim (only_participant space.participants) [ some id ↦ id ∷ [] | none ↦ planned ]
      ]

  -- The deferred function: what is not settled is interrupted, on a context of its own.
  unfoldable pub clean_up : Scope → Batch → String → Ran × State → Result SendError Batch × State
  clean_up scope batch lease (ran, s) =
      let interrupted =
        interrupt_batch (storage_scope scope) batch.batch_id batch.client_request_id lease
          batch.created_at s in
      if ran.settled then (ran.result, s) else (ran.result, interrupted.1)

  -- The clean-up does not change what is returned.
  pub clean_up-result :
      (scope : Scope) (batch : Batch) (lease : String) (r : Ran × State)
      → (clean_up scope batch lease r).0 ≡ r.0.result
  unfolding clean_up
  clean_up-result scope batch lease (ran, s) = ground arith

  unfoldable pub after_begin :
      Scope
      → Space
      → String
      → List Turn
      → List String
      → Begun
      → State
      → Result SendError Batch × State
  unfolding speak_plan plan_of clean_up
  after_begin scope space content history summaries (begin_failed e) s = (err (of_store e), s)
  after_begin scope space content history summaries (begin_existing batch) s = (ok batch, s)
  after_begin scope space content history summaries (begin_started batch lease) s =
      clean_up scope batch lease (
        speak_plan scope content history summaries lease (plan_of scope space history content) batch
          s)

  unfoldable pub load_summaries : Scope → Option (List String)
  load_summaries scope = elim summaries_of [ none ↦ some [] | some repo ↦ repo scope ]

  unfoldable pub after_history :
      SendCommand → Space → String → Option (List Turn) → State → Result SendError Batch × State
  unfolding after_begin load_summaries normalize_character_messages
  after_history command space content none s = (err not_started, s)
  after_history command space content (some history) s =
      let begun = begin_batch (storage_scope command.scope) command.client_request_id content s in
      elim (load_summaries command.scope) [
        | none ↦ (err not_started, s)
        | some summaries ↦
            after_begin command.scope space content (normalize_character_messages history) summaries
              begun.0 begun.1
      ]

  unfoldable pub send_in : SendCommand → Option Space → State → Result SendError Batch × State
  unfolding after_history trim_space is_empty rune_count
  send_in command none s = (err conversation_not_found, s)
  send_in command (some space) s =
      let content = trim_space command.content in
      let loaded = messages (storage_scope command.scope) s in
      if is_empty content || not (is_uuid command.client_request_id)
      then (err invalid_request, s)
      else if ltb 4000 (rune_count content)
      then (err message_too_large, s)
      else after_history command space content loaded.0 loaded.1

  -- `Send`
  unfoldable pub send : SendCommand → State → Result SendError Batch × State
  unfolding send_in find_space
  send command s = send_in command (find_space command.scope.conversation_id) s
