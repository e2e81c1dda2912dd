-- ===== src/Gateway/Messages.antt =====
-- internal/gateway: quota_handler.go and the handlers of api_handler.go that send a message,
-- `webSendConversationMessage` and `webSendMessage`.
pub mod Settled
pub mod Tests
use Prim.Native.String.{◌++◌}
use anime_companion_ai.Prelude.{
  ℕ, String, Bool, true, false, not, ◌||◌, Option, none, some, List, [], ◌∷◌, str_eq, ltb,
  if◌then◌else◌, Result, ok, err,
}
use anime_companion_ai.Prelude.Text.{trim_space, is_empty, rune_count}
use anime_companion_ai.Conversation.{
  Turn, Batch, batch_complete, batch_partial, batch_failed, default_conversation_id,
}
use anime_companion_ai.Quota.Types.{
  Subject, Outcome, pending, delivered, failed, Snapshot, Reservation, no_reservation,
  unlimited_snapshot, Error, exhausted,
}
use anime_companion_ai.Quota.Manager.{Reserved, QuotaAnswer}

-- The status codes of gRPC that the gateway tells apart.
pub data AgentCode : Type 0 where
  invalid_argument resource_exhausted not_found aborted already_exists permission_denied : AgentCode
  unauthenticated failed_precondition other_code : AgentCode

-- `definitiveAgentFailure`
abbrev pub is_definitive : AgentCode → Bool
is_definitive other_code = false
is_definitive _ = true

-- `quotaOutcome`
unfoldable pub quota_outcome : Batch → Outcome
quota_outcome batch = elim batch.character_messages [
  | m ∷ ms ↦ delivered
  | [] ↦
      if str_eq batch.status batch_failed
        || str_eq batch.status batch_partial
        || str_eq batch.status batch_complete
      then failed
      else pending
]

pub data Response : Type 0 where
  ok_batch : Batch → Snapshot → Response
  ok_reply : String → Snapshot → Response
  quota_exhausted : Snapshot → Response
  api_error : ℕ → String → Response

abbrev pub quota_unavailable : Response
quota_unavailable = api_error 503 "quota_unavailable"

-- `apiAgentError`
unfoldable pub agent_error : AgentCode → Response
agent_error invalid_argument = api_error 400 "invalid_request"
agent_error resource_exhausted = api_error 413 "message_too_large"
agent_error not_found = api_error 404 "conversation_not_found"
agent_error aborted = api_error 409 "conversation_busy"
agent_error _ = api_error 502 "agent_error"

-- `scopedQuotaRequestID`
abbrev pub scoped_request_id : String → String → String
scoped_request_id conversation_id request_id = conversation_id ++ ("\0" ++ request_id)

-- The services that the handlers call: the limiter, the quota manager, if there is one, and the agent.
pub record Services : Type 1 where
  pub State : Type 0
  pub has_quota : Bool
  pub allow : Subject → State → Bool × State
  pub reserve : Subject → String → State → Reserved × State
  pub settle : Reservation → Outcome → State → QuotaAnswer × State
  pub send : Subject → String → String → String → State → Result AgentCode Batch × State

pub record Request : Type 0 where
  pub user : Subject
  pub conversation_id : String
  pub content : String
  pub client_request_id : String

module _ (services : Services) (is_uuid : String → Bool) where
  open services use {State, has_quota, allow, reserve, settle, send}

  -- `settleQuota`
  unfoldable pub settle_quota : Reservation → Outcome → State → QuotaAnswer × State
  settle_quota reservation outcome s =
      let called = settle reservation outcome s in
      if has_quota then called else (record { snapshot = unlimited_snapshot; error = none }, s)

  unfoldable pub read_reserved : Reserved → Result Response Reservation
  read_reserved r = elim r.error [
    | none ↦ ok r.reservation
    | some exhausted ↦ err (quota_exhausted r.snapshot)
    | some _ ↦ err quota_unavailable
  ]

  -- `reserveQuota`: a reservation, or the response that refuses it.
  unfoldable pub reserve_quota : Subject → String → State → Result Response Reservation × State
  unfolding read_reserved
  reserve_quota user request_id s =
      let called = reserve user request_id s in
      if has_quota
      then (read_reserved called.0, called.1)
      else if user.is_admin
      then (ok no_reservation, s)
      else (err quota_unavailable, s)

  -- What an answer of the agent means for the quota; the errors by `settleAgentError`.
  unfoldable pub outcome_of : Result AgentCode Batch → Outcome
  unfolding quota_outcome
  outcome_of (ok batch) = quota_outcome batch
  outcome_of (err code) = if is_definitive code then failed else pending

  -- The response once the quota is settled; `reply` is the response to a batch.
  unfoldable pub respond :
      (Batch → Snapshot → Response) → Result AgentCode Batch → QuotaAnswer → Response
  unfolding agent_error
  respond reply (ok batch) answer = elim answer.error [
    | none ↦ reply batch answer.snapshot
    | some e ↦ quota_unavailable
  ]
  respond reply (err code) answer = elim answer.error [
    | none ↦ agent_error code
    | some e ↦ quota_unavailable
  ]

  -- From the accepted reservation on.
  unfoldable pub send_reserved :
      (Batch → Snapshot → Response) → Request → String → Reservation → State → Response × State
  unfolding outcome_of settle_quota respond
  send_reserved reply request request_id reservation s =
      let (answer, s₁) = send request.user request.conversation_id request.content request_id s in
      let (settled, s₂) = settle_quota reservation (outcome_of answer) s₁ in
      (respond reply answer settled, s₂)

  unfoldable pub send_after :
      (Batch → Snapshot → Response)
      → Request
      → String
      → Result Response Reservation × State
      → Response × State
  unfolding send_reserved
  send_after reply request request_id (err response, s) = (response, s)
  send_after reply request request_id (ok reservation, s) =
      send_reserved reply request request_id reservation s

  unfoldable pub send_limited :
      (Batch → Snapshot → Response) → Request → String → State → Response × State
  unfolding send_after reserve_quota
  send_limited reply request request_id s =
      let (allowed, s') = allow request.user s in
      let sent =
        send_after reply request request_id
          (reserve_quota request.user (scoped_request_id request.conversation_id request_id) s') in
      if allowed then sent else (api_error 429 "rate_limited", s')

  -- `webSendConversationMessage`; `bound` tells whether the body could be read.
  unfoldable pub web_send_conversation_message : Bool → Request → State → Response × State
  unfolding send_limited trim_space is_empty rune_count
  web_send_conversation_message bound request s =
      let request_id = trim_space request.client_request_id in
      if not bound || is_empty (trim_space request.content) || is_empty request_id
      then (api_error 400 "invalid_request", s)
      else if ltb 4000 (rune_count (trim_space request.content))
      then (api_error 413 "message_too_large", s)
      else if not (is_uuid request_id)
      then (api_error 400 "invalid_request", s)
      else send_limited ok_batch request request_id s

  unfoldable pub first_reply : Batch → Snapshot → Response
  first_reply batch snapshot = elim batch.character_messages [
    | [] ↦ api_error 502 "agent_error"
    | m ∷ ms ↦ ok_reply m.content snapshot
  ]

  -- `webSendMessage`; `new_id` is what `uuid.NewString` draws.
  unfoldable pub web_send_message : Bool → String → Request → State → Response × State
  unfolding send_limited first_reply trim_space is_empty rune_count
  web_send_message bound new_id request s =
      let given = trim_space request.client_request_id in
      let direct = record request { conversation_id = default_conversation_id } in
      if not bound || is_empty (trim_space request.content)
      then (api_error 400 "invalid_request", s)
      else if ltb 4000 (rune_count (trim_space request.content))
      then (api_error 413 "message_too_large", s)
      else if is_empty given
      then send_limited first_reply direct new_id s
      else if not (is_uuid given)
      then (api_error 400 "invalid_request", s)
      else send_limited first_reply direct given s
