-- ===== src/Gateway/Messages/Settled.antt =====
-- internal/gateway/api_handler.go: the replies that are shown, and the quota.
use anime_companion_ai.Prelude.{
  ℕ, String, ◌≡◌, refl, sym, ap, ◌∙◌, Bool, true, not, ◌||◌, none, ltb, if_cases, Result, ok, err,
  arith,
}
use mathlib.Core.Path.{subst}
use anime_companion_ai.Prelude.Text.{trim_space, is_empty, rune_count}
use anime_companion_ai.Conversation.{Batch, default_conversation_id}
use anime_companion_ai.Quota.Types.{Subject, Outcome, delivered, Snapshot, Reservation}
use anime_companion_ai.Quota.Manager.{QuotaAnswer, Reserved}
use anime_companion_ai.Gateway.Messages.{
  AgentCode, quota_outcome, Response, ok_reply, api_error, agent_error, scoped_request_id, Services,
  Request, settle_quota, reserve_quota, outcome_of, respond, send_reserved, send_after,
  send_limited, first_reply, web_send_message, read_reserved,
}

agent_error-no_reply :
    (code : AgentCode) (text : String) (shown : Snapshot)
    → agent_error code ≡ ok_reply text shown
    → ⊥
unfolding agent_error
agent_error-no_reply code text shown e = grind arith

module _ (services : Services) (is_uuid : String → Bool)
    (with_quota : services.has_quota ≡ true) where
  open services use {State, settle, allow, reserve, send}

  -- After the message was sent with the reservation, the last call settles this reservation as
  -- delivered, and succeeds.
  record IsSettled (request : Request) (request_id : String) (reservation : Reservation)
      (s s' : State) : Type 0 where
    fine :
        (settle reservation delivered
          (send request.user request.conversation_id request.content request_id s).1).0.error
        ≡ none
    last :
        s'
        ≡ (settle reservation delivered
            (send request.user request.conversation_id request.content request_id s).1).1

  -- The calls for a request: the limiter allows it, a reservation is made for the user and the id, and
  -- accepted, the message is sent, and the last call settles this reservation as delivered.
  pub record IsCharged (request : Request) (s s' : State) : Type 0 where
    pub request_id : String
    pub allowed : (allow request.user s).0 ≡ true
    pub accepted :
        (reserve request.user
          (scoped_request_id request.conversation_id request_id)
          (allow request.user s).1).0.error
        ≡ none
    pub fine :
        (let reserved =
            reserve request.user
              (scoped_request_id request.conversation_id request_id)
              (allow request.user s).1 in
          let sent =
            send request.user request.conversation_id request.content request_id reserved.1 in
          (settle reserved.0.reservation delivered sent.1).0.error)
        ≡ none
    pub last : s' ≡ (
        let reserved =
          reserve request.user
            (scoped_request_id request.conversation_id request_id)
            (allow request.user s).1 in
        let sent =
          send request.user request.conversation_id request.content request_id reserved.1 in
        (settle reserved.0.reservation delivered sent.1).1)

  -- A reply is shown only in a charged state.
  record ShowsCharged (request : Request) (s : State) (r : Response × State) : Type 0 where
    charged :
        (text : String) (shown : Snapshot) → r.0 ≡ ok_reply text shown → IsCharged request s r.1

  api_error-ShowsCharged :
      (request : Request) (s₀ : State) (code : ℕ) (name : String) (s : State)
      → ShowsCharged request s₀ (api_error code name, s)
  api_error-ShowsCharged request s₀ code name s = record { charged = λ text shown e. cc }

  respond-error :
      (answer : Result AgentCode Batch) (a : QuotaAnswer) (text : String) (shown : Snapshot)
      → respond services is_uuid (first_reply services is_uuid) answer a ≡ ok_reply text shown
      → a.error ≡ none
  unfolding respond
  respond-error (ok batch) a text shown e = ground arith
  respond-error (err code) a text shown e = ground arith

  first_reply-delivered :
      (batch : Batch) (s : Snapshot) (text : String) (shown : Snapshot)
      → first_reply services is_uuid batch s ≡ ok_reply text shown
      → quota_outcome batch ≡ delivered
  unfolding first_reply quota_outcome
  first_reply-delivered batch s text shown e = ground arith

  respond-delivered :
      (answer : Result AgentCode Batch) (a : QuotaAnswer) (text : String) (shown : Snapshot)
      → respond services is_uuid (first_reply services is_uuid) answer a ≡ ok_reply text shown
      → a.error ≡ none
      → outcome_of services is_uuid answer ≡ delivered
  unfolding respond outcome_of
  respond-delivered (ok batch) a text shown e fine =
      first_reply-delivered batch a.snapshot text shown (rw (respond, fine) at e)
  respond-delivered (err code) a text shown e fine =
      absurd (agent_error-no_reply code text shown (rw (respond, fine) at e))

  settle_quota-eq :
      (reservation : Reservation) (outcome : Outcome) (s : State)
      → settle_quota services is_uuid reservation outcome s ≡ settle reservation outcome s
  unfolding settle_quota
  settle_quota-eq reservation outcome s = ground arith

  -- A reply is shown only after the reservation was settled.
  record ShowsSettled (request : Request) (request_id : String) (reservation : Reservation)
      (s : State) (r : Response × State) : Type 0 where
    settled :
        (text : String) (shown : Snapshot)
        → r.0 ≡ ok_reply text shown
        → IsSettled request request_id reservation s r.1

  send_reserved-ShowsSettled :
      (request : Request) (request_id : String) (reservation : Reservation) (s : State)
      → ShowsSettled request request_id reservation s (
          send_reserved services is_uuid
            (first_reply services is_uuid)
            request
            request_id
            reservation
            s)
  unfolding send_reserved
  send_reserved-ShowsSettled request request_id reservation s =
      let sent = send request.user request.conversation_id request.content request_id s in
      let outcome = outcome_of services is_uuid sent.0 in
      let done = settle_quota services is_uuid reservation outcome sent.1 in
      record {
        settled = λ text shown e.
            let fine = respond-error sent.0 done.0 text shown e in
            let paid = respond-delivered sent.0 done.0 text shown e fine in
            let same : done ≡ settle reservation delivered sent.1 =
              settle_quota-eq reservation outcome sent.1
              ∙ ap (λ o. settle reservation o sent.1) paid in
            record {
              fine = sym (ap (λ (r : QuotaAnswer × State). r.0.error) same) ∙ fine;
              last = ap (λ (r : QuotaAnswer × State). r.1) same;
            };
      }

  read_reserved-no_reply :
      (r : Reserved) (response : Response) (text : String) (shown : Snapshot)
      → read_reserved services is_uuid r ≡ err response
      → response ≡ ok_reply text shown
      → ⊥
  unfolding read_reserved
  read_reserved-no_reply r response text shown e f = grind arith

  read_reserved-accepted :
      (r : Reserved) (reservation : Reservation)
      → read_reserved services is_uuid r ≡ ok reservation
      → (r.error ≡ none) × (reservation ≡ r.reservation)
  unfolding read_reserved
  read_reserved-accepted r reservation e = grind arith

  -- What the reservation of a request gives, by the answer of the manager.
  send_after-ShowsCharged :
      (request : Request) (request_id : String) (s : State) (r : Reserved)
      (answer : Result Response Reservation)
      → (allow request.user s).0 ≡ true
      → (reserve request.user
          (scoped_request_id request.conversation_id request_id)
          (allow request.user s).1).0
        ≡ r
      → read_reserved services is_uuid r ≡ answer
      → ShowsCharged request s (
          send_after services is_uuid (first_reply services is_uuid) request request_id (
            answer,
            (reserve request.user
                (scoped_request_id request.conversation_id request_id)
                (allow request.user s).1).1,
          ))
  unfolding send_after
  send_after-ShowsCharged request request_id s r (err response) open' same e = record {
    charged = λ text shown f. absurd (read_reserved-no_reply r response text shown e f);
  }
  send_after-ShowsCharged request request_id s r (ok reservation) open' same e =
      let reserved =
        reserve request.user (scoped_request_id request.conversation_id request_id)
          (allow request.user s).1 in
      let (accepted, which) = read_reserved-accepted r reservation e in
      let its : reservation ≡ reserved.0.reservation =
        which ∙ sym (ap (λ (x : Reserved). x.reservation) same) in
      let shows = send_reserved-ShowsSettled request request_id reservation reserved.1 in
      record {
        charged = λ text shown f.
            let done = shows.settled text shown f in
            record {
              request_id = request_id;
              allowed = open';
              accepted = ap (λ (x : Reserved). x.error) same ∙ accepted;
              fine = rw (← its) done.fine;
              last = rw (← its) done.last;
            };
      }

  reserve_quota-eq :
      (user : Subject) (id : String) (s : State)
      → reserve_quota services is_uuid user id s
        ≡ (read_reserved services is_uuid (reserve user id s).0, (reserve user id s).1)
  unfolding reserve_quota
  reserve_quota-eq user id s = ground (arith, with_quota)

  send_limited-ShowsCharged :
      (request : Request) (request_id : String) (s : State)
      → ShowsCharged request s
          (send_limited services is_uuid (first_reply services is_uuid) request request_id s)
  unfolding send_limited
  send_limited-ShowsCharged request request_id s =
      if_cases (ShowsCharged request s) (allow request.user s).0
        (λ open'.
          subst
            (λ reserved. ShowsCharged request s (
              send_after services is_uuid (first_reply services is_uuid) request request_id
                reserved))
            (sym (reserve_quota-eq request.user _ (allow request.user s).1))
            (send_after-ShowsCharged request request_id s _ _ open' refl refl))
        (λ _. api_error-ShowsCharged request s 429 "rate_limited" (allow request.user s).1)

  abbrev pub to_haruhi : Request → Request
  to_haruhi request = record request { conversation_id = default_conversation_id }

  web_send_message-ShowsCharged :
      (bound : Bool) (new_id : String) (request : Request) (s : State)
      → ShowsCharged
          (to_haruhi request)
          s
          (web_send_message services is_uuid bound new_id request s)
  unfolding web_send_message
  web_send_message-ShowsCharged bound new_id request s =
      let given = trim_space request.client_request_id in
      let direct = to_haruhi request in
      let P = ShowsCharged direct s in
      if_cases P (not bound || is_empty (trim_space request.content))
        (λ _. api_error-ShowsCharged direct s 400 "invalid_request" s)
        λ _.
          if_cases P (ltb 4000 (rune_count (trim_space request.content)))
            (λ _. api_error-ShowsCharged direct s 413 "message_too_large" s)
            λ _.
              if_cases P (is_empty given) (λ _. send_limited-ShowsCharged direct new_id s)
                λ _.
                  if_cases P (not (is_uuid given))
                    (λ _. api_error-ShowsCharged direct s 400 "invalid_request" s)
                    (λ _. send_limited-ShowsCharged direct given s)

  -- Where there is a quota manager, `webSendMessage` shows a reply only if the limiter allowed the
  -- request, a reservation was made for the user and the request and accepted, the message was sent
  -- under it, and the last call settled this reservation as delivered, without an error.
  pub web_send_message-IsCharged :
      (bound : Bool) (new_id : String) (request : Request) (s : State) (text : String)
      (shown : Snapshot)
      → (web_send_message services is_uuid bound new_id request s).0 ≡ ok_reply text shown
      → IsCharged (to_haruhi request) s (web_send_message services is_uuid bound new_id request s).1
  web_send_message-IsCharged bound new_id request s text shown e =
      (web_send_message-ShowsCharged bound new_id request s).charged text shown e
