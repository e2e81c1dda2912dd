-- ===== src/Gateway/Api/Guarded.antt =====
-- internal/gateway/api_handler.go: what a request can change, by who it comes from.
use anime_companion_ai.Prelude.{
  String, ◌≡◌, ◌≢◌, refl, sym, Bool, false, not, ◌||◌, Option, none, some, if◌then◌else◌, if_cases,
  Result, ok, err, ltb,
}
use mathlib.Core.Path.{subst}
use anime_companion_ai.Prelude.Text.{is_empty, trim_space, rune_count}
use anime_companion_ai.Conversation.{Batch, default_conversation_id}
use anime_companion_ai.Quota.Types.{
  Subject, Outcome, Snapshot, no_reservation, Reservation, Error, exhausted, invalid_reservation,
  unknown_outcome, unavailable,
}
use anime_companion_ai.Quota.Manager.{QuotaAnswer}
use anime_companion_ai.Gateway.Messages.{
  Response, Services, Request, scoped_request_id, settle_quota, reserve_quota, read_reserved,
  send_reserved, send_after, send_limited, web_send_conversation_message, web_send_message,
  ok_batch, first_reply, quota_exhausted, quota_unavailable,
}
use anime_companion_ai.Gateway.Api.{
  Caller, ApiResponse, Route, chat, list_of, delete_of, spaces, conversation_list,
  conversation_delete, conversation_send, alias_list, alias_delete, alias_send, healthz,
  account_route, account_of, Mode, no_accounts, sessions_only, full_accounts, serve, serve_web,
  health,
}

module _ (services : Services) (caller : Caller services) (is_uuid : String → Bool) where
  open services use {State, has_quota}

  health_unchanged : (s : State) → (health services caller is_uuid s).1 ≡ s
  unfolding health
  health_unchanged s = by_check (caller.check s)
    where
      by_check :
          (o : Option String)
          → (let r : ApiResponse × State = elim o [
            | none ↦ (ApiResponse.healthy, s)
            | some message ↦ (ApiResponse.unavailable message, s)
          ] in
              r.1)
            ≡ s
      by_check none = refl
      by_check (some message) = refl

  -- With sessions, a request for which no user is found changes nothing, whichever route it takes but
  -- those of `registerAuth`.
  serve_unchanged :
      (refusal : Response) (route : Route) (s : State)
      → (serve_web services caller is_uuid (err refusal) route s).1 ≡ s
  unfolding serve_web
  serve_unchanged refusal (chat body) s = refl
  serve_unchanged refusal (list_of channel external_id) s = refl
  serve_unchanged refusal (delete_of channel external_id) s = refl
  serve_unchanged refusal spaces s = refl
  serve_unchanged refusal (conversation_list id) s = refl
  serve_unchanged refusal (conversation_delete id) s = refl
  serve_unchanged refusal (conversation_send bound id content request_id) s = refl
  serve_unchanged refusal alias_list s = refl
  serve_unchanged refusal alias_delete s = refl
  serve_unchanged refusal (alias_send bound new_id content request_id) s = refl
  serve_unchanged refusal healthz s = health_unchanged s
  serve_unchanged refusal (account_route found) s = refl

  -- A property of the state that the calls in the name of one user keep. A reservation is settled that
  -- was made for the user.
  pub record KeptBy (user : Subject) (P : State → Type 0) : Type 0 where
    pub allowed : (s : State) → P s → P (services.allow user s).1
    pub reserved : (id : String) (s : State) → P s → P (services.reserve user id s).1
    pub settled :
        (id : String) (s₀ : State) (outcome : Outcome) (s : State)
        → P s
        → P (services.settle (services.reserve user id s₀).0.reservation outcome s).1
    pub sent :
        (conversation content id : String) (s : State)
        → P s
        → P (services.send user conversation content id s).1
    pub spaces_listed : (s : State) → P s → P (caller.list_spaces "api" user.user_id s).1
    pub listed :
        (conversation : String) (s : State)
        → P s
        → P (caller.list_conversation "api" user.user_id conversation s).1
    pub deleted :
        (conversation : String) (s : State)
        → P s
        → P (caller.delete_conversation "api" user.user_id conversation s).1

  module _ (user : Subject) (P : State → Type 0) (kept : KeptBy user P) where
    settle_quota_keeps :
        (id : String) (s₀ : State) (outcome : Outcome) (s : State)
        → P s
        → P (settle_quota services is_uuid (services.reserve user id s₀).0.reservation outcome s).1
    unfolding settle_quota
    settle_quota_keeps id s₀ outcome s h =
        if_cases (λ (r : QuotaAnswer × State). P r.1) has_quota
          (λ _. kept.settled id s₀ outcome s h) (λ _. h)

    unsettled :
        (reservation : Reservation)
        → has_quota ≡ false
        → (outcome : Outcome) (s : State) → P s
        → P (settle_quota services is_uuid reservation outcome s).1
    unfolding settle_quota
    unsettled reservation without outcome s h = rw without h

    -- A message of the user.
    module _ (reply : Batch → Snapshot → Response) (conversation content given id : String) where
      abbrev request : Request
      request = record {
        user = user;
        conversation_id = conversation;
        content = content;
        client_request_id = given;
      }

      abbrev key : String
      key = scoped_request_id conversation id

      send_reserved_keeps :
          (reservation : Reservation)
          → ((outcome : Outcome) (s : State)
              → P s
              → P (settle_quota services is_uuid reservation outcome s).1)
          → (s : State) → P s
          → P (send_reserved services is_uuid reply request id reservation s).1
      unfolding send_reserved
      send_reserved_keeps reservation settles s h =
          settles _ _ (kept.sent conversation content id s h)

      reserved_keeps :
          (s : State)
          → P s
          → P
              (send_after services is_uuid reply request id (
                read_reserved services is_uuid (services.reserve user key s).0,
                (services.reserve user key s).1,
              )).1
      unfolding send_after read_reserved
      reserved_keeps s h = by_error (services.reserve user key s).0.error
        where
          by_error :
              (o : Option Error)
              → P
                  (send_after services is_uuid reply request id (
                    elim o [
                      | none ↦ ok (services.reserve user key s).0.reservation
                      | some exhausted ↦
                          err (quota_exhausted (services.reserve user key s).0.snapshot)
                      | some _ ↦ err quota_unavailable
                    ],
                    (services.reserve user key s).1,
                  )).1
          by_error none = send_reserved_keeps _ (settle_quota_keeps key s) _ (kept.reserved key s h)
          by_error (some exhausted) = kept.reserved key s h
          by_error (some invalid_reservation) = kept.reserved key s h
          by_error (some unknown_outcome) = kept.reserved key s h
          by_error (some unavailable) = kept.reserved key s h

      unreserved_keeps :
          (s : State)
          → P s
          → has_quota ≡ false
          → P
              (send_after services is_uuid reply request id
                (if user.is_admin then (ok no_reservation, s) else (err quota_unavailable, s))).1
      unfolding send_after
      unreserved_keeps s h without =
          if_cases (λ r. P (send_after services is_uuid reply request id r).1) user.is_admin
            (λ _. send_reserved_keeps no_reservation (unsettled no_reservation without) s h)
            (λ _. h)

      send_limited_keeps :
          (s : State) → P s → P (send_limited services is_uuid reply request id s).1
      unfolding send_limited reserve_quota
      send_limited_keeps s h =
          let (granted, s') = services.allow user s in
          if_cases (λ (r : Response × State). P r.1) granted
            (λ _.
              if_cases (λ r. P (send_after services is_uuid reply request id r).1) has_quota
                (λ _. reserved_keeps s' (kept.allowed s h))
                (unreserved_keeps s' (kept.allowed s h)))
            (λ _. kept.allowed s h)

    abbrev Kept : Response × State → Type 0
    Kept r = P r.1

    web_send_conversation_message_keeps :
        (bound : Bool) (conversation content given : String) (s : State)
        → P s
        → P
            (web_send_conversation_message services is_uuid bound
              (request ok_batch conversation content given given)
              s).1
    unfolding web_send_conversation_message
    web_send_conversation_message_keeps bound conversation content given s h =
        let id = trim_space given in
        if_cases Kept (not bound || is_empty (trim_space content) || is_empty id) (λ _. h)
          (λ _.
            if_cases Kept (ltb 4000 (rune_count (trim_space content))) (λ _. h)
              (λ _.
                if_cases Kept (not (is_uuid id)) (λ _. h)
                  (λ _. send_limited_keeps ok_batch conversation content given id s h)))

    web_send_message_keeps :
        (bound : Bool) (new_id content given : String) (s : State)
        → P s
        → P
            (web_send_message services is_uuid bound new_id
              (request ok_batch default_conversation_id content given given)
              s).1
    unfolding web_send_message
    web_send_message_keeps bound new_id content given s h =
        let id = trim_space given in
        let send_keeps =
          send_limited_keeps (first_reply services is_uuid) default_conversation_id content given in
        if_cases Kept (not bound || is_empty (trim_space content)) (λ _. h)
          (λ _.
            if_cases Kept (ltb 4000 (rune_count (trim_space content))) (λ _. h)
              (λ _.
                if_cases Kept (is_empty id) (λ _. send_keeps new_id s h)
                  (λ _. if_cases Kept (not (is_uuid id)) (λ _. h) (λ _. send_keeps id s h))))

  serve_user_keeps :
      (user : Subject) (P : State → Type 0)
      → KeptBy user P
      → (route : Route) (s : State) → P s
      → P (serve_web services caller is_uuid (ok user) route s).1
  unfolding serve_web
  serve_user_keeps user P kept (chat body) s h = h
  serve_user_keeps user P kept (list_of channel external_id) s h = h
  serve_user_keeps user P kept (delete_of channel external_id) s h = h
  serve_user_keeps user P kept spaces s h = kept.spaces_listed s h
  serve_user_keeps user P kept (conversation_list id) s h = kept.listed id s h
  serve_user_keeps user P kept (conversation_delete id) s h = kept.deleted id s h
  serve_user_keeps user P kept (conversation_send bound id content request_id) s h =
      web_send_conversation_message_keeps user P kept bound id content request_id s h
  serve_user_keeps user P kept alias_list s h = kept.listed default_conversation_id s h
  serve_user_keeps user P kept alias_delete s h = kept.deleted default_conversation_id s h
  serve_user_keeps user P kept (alias_send bound new_id content request_id) s h =
      web_send_message_keeps user P kept bound new_id content request_id s h
  serve_user_keeps user P kept healthz s h = subst P (sym (health_unchanged s)) h
  serve_user_keeps user P kept (account_route found) s h = h

  serve_web_keeps :
      (who : Result Response Subject) (P : State → Type 0)
      → ((user : Subject) → who ≡ ok user → KeptBy user P)
      → (route : Route) (s : State) → P s
      → P (serve_web services caller is_uuid who route s).1
  serve_web_keeps (ok user) P kept route s h = serve_user_keeps user P (kept user refl) route s h
  serve_web_keeps (err refusal) P kept route s h = subst P (sym (serve_unchanged refusal route s)) h

  -- Where there are sessions, with or without the service for accounts, and for any route but those of
  -- `registerAuth`: a request of a user keeps whatever the calls in the name of this user keep, the data
  -- of the other users above all, since no such route asks anything in another's name. A request for
  -- which no user is found keeps everything.
  pub serve_keeps :
      (mode : Mode)
      → mode ≢ no_accounts
      → (who : Result Response Subject) (P : State → Type 0)
      → ((user : Subject) → who ≡ ok user → KeptBy user P)
      → (route : Route) → account_of route ≡ none
      → (s : State) → P s
      → P (serve services caller is_uuid mode who route s).1
  unfolding serve
  serve_keeps no_accounts sessions who P kept route other s h = absurd (sessions refl)
  serve_keeps sessions_only sessions who P kept route other s h =
      serve_web_keeps who P kept route s h
  serve_keeps full_accounts sessions who P kept route other s h =
      rw (serve, other) (serve_web_keeps who P kept route s h)
