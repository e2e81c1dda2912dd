-- ===== src/Conversation/Messages/Reading.antt =====
-- What the store returns for a list of messages, old and new.
use anime_companion_ai.Prelude.{
  ℕ, suc, String, ◌≡◌, refl, false, Option, none, some, List, [], ◌∷◌, str_eq, if_cases, arith,
  Option-cases, inl, inr,
}
use anime_companion_ai.Prelude.Text.{is_empty}
use anime_companion_ai.Conversation.{Scope, Turn, role_user}
use anime_companion_ai.Conversation.Messages.{
  in_scope, as_user, as_haruhi, present_form, prepend, read_messages,
}
use anime_companion_ai.Conversation.Scripts.{Json}

-- A message in the present form, at the place `number`: it has a conversation and a speaker.
pub record IsPresent (number : ℕ) (m : Turn) : Type 0 where
  pub numbered : m.sequence ≡ number
  pub in_conversation : is_empty m.conversation_id ≡ false
  pub spoken : is_empty m.speaker_id ≡ false

abbrev pub ArePresent : ℕ → List Turn → Type 0
ArePresent number [] = Unit
ArePresent number (m ∷ ms) = IsPresent number m × ArePresent (suc number) ms

in_scope-present :
    (scope : Scope) (number : ℕ) (m : Turn)
    → is_empty scope.conversation_id ≡ false
    → ((in_scope scope number m).sequence ≡ number)
      × (is_empty (in_scope scope number m).conversation_id ≡ false)
      × ((in_scope scope number m).speaker_id ≡ m.speaker_id)
unfolding in_scope
in_scope-present scope number m h = (ground arith, ground arith, ground arith)

as_user-IsPresent :
    (number : ℕ) (legacy : String) (m : Turn)
    → m.sequence ≡ number
    → is_empty m.conversation_id ≡ false
    → IsPresent number (as_user legacy m).0
unfolding as_user is_empty
as_user-IsPresent number legacy m h k =
    if_cases (λ (r : Turn × String). IsPresent number r.0) (is_empty m.batch_id)
      (λ _. record { numbered = h; in_conversation = k; spoken = refl })
      (λ _. record { numbered = h; in_conversation = k; spoken = refl })

as_haruhi-IsPresent :
    (number : ℕ) (legacy : String) (m : Turn)
    → m.sequence ≡ number
    → is_empty m.conversation_id ≡ false
    → IsPresent number (as_haruhi legacy m).0
unfolding as_haruhi is_empty
as_haruhi-IsPresent number legacy m h k =
    if_cases (λ (r : Turn × String). IsPresent number r.0) (is_empty m.batch_id)
      (λ _. record { numbered = h; in_conversation = k; spoken = refl })
      (λ _. record { numbered = h; in_conversation = k; spoken = refl })

present_form-IsPresent :
    (scope : Scope) (number : ℕ) (legacy : String) (m : Turn)
    → is_empty scope.conversation_id ≡ false
    → IsPresent number (present_form scope number legacy m).0
unfolding present_form
present_form-IsPresent scope number legacy m h =
    let placed = in_scope-present scope number m h in
    let is_present = λ (r : Turn × String). IsPresent number r.0 in
    if_cases is_present (str_eq m.role role_user)
      (λ _. as_user-IsPresent number legacy (in_scope scope number m) placed.0 placed.1)
      λ _.
        if_cases is_present (is_empty m.speaker_id)
          (λ _. as_haruhi-IsPresent number legacy (in_scope scope number m) placed.0 placed.1)
          (λ e. record { numbered = placed.0; in_conversation = placed.1; spoken = rw placed.2 e })

prepend-present :
    (number : ℕ) (m : Turn) (later : Option (List Turn)) (ms : List Turn)
    → IsPresent number m
    → ((ns : List Turn) → later ≡ some ns → ArePresent (suc number) ns)
    → prepend m later ≡ some ms
    → ArePresent number ms
prepend-present number m none ms p h e = absurd (let impossible : none ≡ some ms = e in cc)
prepend-present number m (some ns) ms p h e =
    let same : m ∷ ns ≡ ms = cc in rw (← same) (p, h ns refl)

pub read_messages-one :
    (json : Json) (scope : Scope) (number : ℕ) (legacy value : String) (m : Turn)
    → json.decode_turn value ≡ some m
    → read_messages json scope number legacy (value ∷ [])
      ≡ some ((present_form scope number legacy m).0 ∷ [])
unfolding read_messages
read_messages-one json scope number legacy value m e = rw (read_messages, e) refl

-- In a scope with a conversation, whatever JSON the list holds, old entries or new: if the messages can be read at all, each has a
-- conversation and a speaker, and they are numbered in the order of the list.
pub read_messages-ArePresent :
    (json : Json) (scope : Scope) (number : ℕ) (legacy : String) (values : List String)
    (ms : List Turn)
    → is_empty scope.conversation_id ≡ false
    → read_messages json scope number legacy values ≡ some ms
    → ArePresent number ms
unfolding read_messages
read_messages-ArePresent json scope number legacy [] ms h e =
    let same : [] ≡ ms = cc in rw (← same) tt
read_messages-ArePresent json scope number legacy (value ∷ values) ms h e =
    elim (Option-cases (json.decode_turn value)) [
      | inl unread ↦
          absurd (let impossible : none ≡ some ms = (rw (read_messages, unread) at e) in cc)
      | inr (m, found) ↦
          let later =
            read_messages-ArePresent json scope (suc number) (present_form scope number legacy m).1
              values in
          prepend-present number (present_form scope number legacy m).0 _ ms
            (present_form-IsPresent scope number legacy m h) (λ ns f. later ns h f)
            (rw (read_messages, found) at e)
    ]
