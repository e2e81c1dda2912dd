-- ===== src/Agent/Definitive.antt =====
-- internal/agent/server.go and internal/gateway/quota_handler.go: the errors of `SendConversationMessage`
-- that the gateway takes for definitive.
use anime_companion_ai.Prelude.{
  ℕ, String, ◌≡◌, refl, ◌⊎◌, inl, inr, Bool, true, false, Option, none, some, List, Result, ok, err,
  if_cases,
}
use anime_companion_ai.Conversation.{Identity, Batch}
use anime_companion_ai.Orchestration.Types.{Scope, SendCommand}
use anime_companion_ai.Orchestration.Model.{Model}
use anime_companion_ai.Orchestration.Store.{Store, lease_lost}
use anime_companion_ai.Orchestration.Send.{SendError, of_store, send}
use anime_companion_ai.Orchestration.Send.WriteErrors.{WriteLaws, IsWriteError, lost, broken}
use anime_companion_ai.Orchestration.Send.Refusal.{Unstarted, untouched, send-refuses}
use anime_companion_ai.Gateway.Messages.{AgentCode, other_code, is_definitive}
use anime_companion_ai.Agent.Wire.{BatchProto}
use anime_companion_ai.Agent.Server.{
  orchestration_status, validate_identity, agent_scope, validated, Legacy, batch_answer,
  send_in_app, send_conversation_message,
}

-- A handler behind the validation is reached, or an error comes back and nothing has happened.
pub validated_cases {ℓ κ μ} :
    {S : Type ℓ} {A : Type κ} (P : Result AgentCode A × S → Type μ) (identity : Identity)
    (handler : S → Result AgentCode A × S) (s : S)
    → ((code : AgentCode) → P (err code, s))
    → P (handler s)
    → P (validated identity handler s)
unfolding validated
validated_cases P identity handler s rejected reached = by_code (validate_identity identity)
  where
    by_code : (code : Option AgentCode) → P (elim code [ some c ↦ (err c, s) | none ↦ handler s ])
    by_code (some code) = rejected code
    by_code none = reached

module _ (store : Store) (laws : WriteLaws store) (model : Model)
    (summaries_of : Option (Scope → Option (List String))) (is_uuid : String → Bool)
    (fnv64a : String → ℕ) (with_app : Bool) (legacy : Legacy store.State) where
  open store use {State}

  abbrev command_of : Identity → String → String → String → SendCommand
  command_of identity conversation_id content client_request_id = record {
    scope = agent_scope identity conversation_id;
    content = content;
    client_request_id = client_request_id;
  }

  -- A definitive error comes from a lost lease, or no batch was begun.
  record Excuses (command : SendCommand) (s : State) (r : Result AgentCode BatchProto × State)
      : Type 0 where
    excuses :
        (code : AgentCode)
        → r.0 ≡ err code
        → is_definitive code ≡ true
        → ((send store model summaries_of is_uuid command s).0 ≡ err (of_store lease_lost))
          ⊎ Unstarted store laws model summaries_of is_uuid command s r.1

  write-Excuses :
      (command : SendCommand) (s : State) (x : SendError)
      → IsWriteError x
      → (send store model summaries_of is_uuid command s).0 ≡ err x
      → Excuses command s
          (err (orchestration_status x), (send store model summaries_of is_uuid command s).1)
  unfolding orchestration_status
  write-Excuses command s x lost same = record { excuses = λ code e f. inl same }
  write-Excuses command s x broken same = record {
    excuses = λ code e f.
        let other : other_code ≡ code = cc in
        let wrong : false ≡ true = rw (← other) at f in
        absurd (let impossible : false ≡ true = wrong in cc);
  }

  answer-Excuses :
      (command : SendCommand) (s : State) (answer : Result SendError Batch)
      → (send store model summaries_of is_uuid command s).0 ≡ answer
      → Excuses command s (
        batch_answer store model summaries_of is_uuid fnv64a with_app legacy answer,
        (send store model summaries_of is_uuid command s).1,
      )
  unfolding batch_answer
  answer-Excuses command s (ok batch) same = record {
    excuses = λ code e f. absurd (let impossible : ok _ ≡ err code = e in cc);
  }
  answer-Excuses command s (err x) same =
      elim (send-refuses store laws model summaries_of is_uuid command s x same) [
        | inr unstarted ↦ record { excuses = λ code e f. inr unstarted }
        | inl why ↦ write-Excuses command s x why same
      ]

  send_in_app-Excuses :
      (command : SendCommand) (s : State)
      → Excuses command s
          (send_in_app store model summaries_of is_uuid fnv64a with_app legacy command s)
  unfolding send_in_app
  send_in_app-Excuses command s =
      if_cases (Excuses command s) with_app (λ _. answer-Excuses command s _ refl)
        (λ _. record { excuses = λ code e f. inr (untouched refl) })

  -- On a store whose writes never report busy: if `SendConversationMessage` returns a code that the
  -- gateway takes for definitive, so that it refunds the quota, then `Send` has lost its lease, or it
  -- has begun no batch.
  pub send_conversation_message-excuses :
      (identity : Identity) (conversation_id content client_request_id : String) (s : State)
      (code : AgentCode)
      → (send_conversation_message store model summaries_of is_uuid fnv64a with_app legacy identity
          conversation_id content client_request_id s).0
        ≡ err code
      → is_definitive code ≡ true
      → ((send store model summaries_of is_uuid
            (command_of identity conversation_id content client_request_id)
            s).0
          ≡ err (of_store lease_lost))
        ⊎ Unstarted store laws model summaries_of is_uuid
            (command_of identity conversation_id content client_request_id)
            s
            (send_conversation_message store model summaries_of is_uuid fnv64a with_app legacy
              identity conversation_id content client_request_id s).1
  unfolding send_conversation_message
  send_conversation_message-excuses identity conversation_id content client_request_id s =
      let command = command_of identity conversation_id content client_request_id in
      let all : Excuses command s (
          validated identity
            (send_in_app store model summaries_of is_uuid fnv64a with_app legacy command) s) =
        validated_cases (Excuses command s) identity
          (send_in_app store model summaries_of is_uuid fnv64a with_app legacy command) s
          (λ code. record { excuses = λ _ e f. inr (untouched refl) })
          (send_in_app-Excuses command s) in
      all.excuses
