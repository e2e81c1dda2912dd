-- ===== src/Wechat/Token.antt =====
-- internal/wechat/token.go: `TokenManager`, and `pushTextWithTokenRefresh` of internal/gateway/cron.go.
-- The mutex makes each call of the manager one step; `now` is the time of the call.
pub mod Renewal
pub mod Tests
use anime_companion_ai.Prelude.{
  ℕ, zero, ◌+◌, ◌-◌, String, Bool, true, false, not, ◌&&◌, Option, none, some, ltb, ◌==◌,
  if◌then◌else◌, Result, ok, err,
}
use anime_companion_ai.Prelude.Int.{ℤ, pos, negsuc}
use anime_companion_ai.Prelude.Text.{is_empty}

abbrev pub is_zero : ℤ → Bool
is_zero (pos zero) = true
is_zero _ = false

-- `tokenResp`; the lifetime is a number of seconds from 0 on.
pub record TokenResponse : Type 0 where
  pub access_token : String
  pub expires_in : ℕ
  pub err_code : ℤ

pub data TokenError : Type 0 where
  request_failed missing_token : TokenError
  api_error : ℤ → TokenError

-- The fields of the manager that change.
pub record TokenManager : Type 0 where
  pub token : String
  pub expires : ℕ

-- What a push answers: done, refused since the token has expired, or another error.
pub data Pushed : Type 0 where
  sent token_expired push_failed : Pushed

-- The cache, if there is one, the server that issues tokens, and the server that takes messages.
pub record Remote : Type 1 where
  pub State : Type 0
  pub has_cache : Bool
  pub cache_get : State → Option String × State
  pub cache_set : String → ℕ → State → State
  pub cache_delete : State → State
  pub request : State → Option TokenResponse × State
  pub send_text : String → String → String → State → Pushed × State

-- The manager after a call, and what the call answers.
pub record Got (S : Type 0) : Type 0 where
  pub result : Result TokenError String
  pub manager : TokenManager
  pub state : S

module _ (remote : Remote) where
  open remote use {State, has_cache, cache_get, cache_set, cache_delete, request, send_text}

  -- The end of `fetchLocked`; a lifetime of at most a minute is over at once.
  unfoldable pub read_response : ℕ → TokenManager → Option TokenResponse × State → Got State
  unfolding is_empty
  read_response now tm (none, s) = record { result = err request_failed; manager = tm; state = s }
  read_response now tm (some r, s) =
      let kept : TokenManager = record {
        token = r.access_token;
        expires = now + (r.expires_in - 60);
      } in
      let cached = cache_set r.access_token (r.expires_in - 60) s in
      if not (is_zero r.err_code)
      then record { result = err (api_error r.err_code); manager = tm; state = s }
      else if is_empty r.access_token
      then record { result = err missing_token; manager = tm; state = s }
      else record {
        result = ok r.access_token;
        manager = kept;
        state = if has_cache && ltb 60 r.expires_in then cached else s;
      }

  unfoldable pub fetch_locked : ℕ → TokenManager → State → Got State
  unfolding read_response
  fetch_locked now tm s = read_response now tm (request s)

  -- What the cache holds is trusted for a minute.
  unfoldable pub from_cache : ℕ → TokenManager → Option String × State → Got State
  unfolding fetch_locked is_empty
  from_cache now tm (none, s) = fetch_locked now tm s
  from_cache now tm (some token, s) =
      let fetched = fetch_locked now tm s in
      if is_empty token then fetched else record {
        result = ok token;
        manager = record { token = token; expires = now + 60 };
        state = s;
      }

  -- `Get`
  unfoldable pub get_token : ℕ → TokenManager → State → Got State
  unfolding from_cache fetch_locked is_empty
  get_token now tm s =
      let cached = from_cache now tm (cache_get s) in
      let fetched = fetch_locked now tm s in
      if not (is_empty tm.token) && ltb now tm.expires
      then record { result = ok tm.token; manager = tm; state = s }
      else if has_cache
      then cached
      else fetched

  -- `Refresh`
  unfoldable pub refresh_token : ℕ → TokenManager → State → Got State
  unfolding fetch_locked
  refresh_token now tm s =
      let emptied : TokenManager = record { token = ""; expires = 0 } in
      fetch_locked now emptied (if has_cache then cache_delete s else s)

  -- What `pushTextWithTokenRefresh` answers.
  pub data PushResult : Type 0 where
    no_token : TokenError → PushResult
    answered : Pushed → PushResult

  pub record Delivery : Type 0 where
    pub result : PushResult
    pub manager : TokenManager
    pub state : State

  unfoldable pub push_with : String → String → Got State → Delivery
  push_with open_id text got = elim got.result [
    | err e ↦ record { result = no_token e; manager = got.manager; state = got.state }
    | ok token ↦
        let (pushed, s) = send_text token open_id text got.state in
        record { result = answered pushed; manager = got.manager; state = s }
  ]

  unfoldable pub retry : ℕ → String → String → Delivery → Delivery
  unfolding push_with refresh_token
  retry now open_id text first = elim first.result [
    | answered token_expired ↦ push_with open_id text (refresh_token now first.manager first.state)
    | _ ↦ first
  ]

  unfoldable pub push_text : ℕ → String → String → TokenManager → State → Delivery
  unfolding retry push_with get_token
  push_text now open_id text tm s =
      retry now open_id text (push_with open_id text (get_token now tm s))
