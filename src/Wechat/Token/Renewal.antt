-- ===== src/Wechat/Token/Renewal.antt =====
-- internal/wechat/token.go: the tokens that are handed out.
use anime_companion_ai.Prelude.{
  ℕ, String, ◌≡◌, false, not, ◌&&◌, Option, none, some, ltb, if_cases, ok, arith,
}
use anime_companion_ai.Prelude.Text.{is_empty}
use anime_companion_ai.Wechat.Token.{
  is_zero, TokenResponse, TokenManager, Remote, Got, read_response, fetch_locked, from_cache,
  get_token,
}

module _ (remote : Remote) where
  open remote use {State}

  -- The token that is handed out is not blank, and it is the one that the manager keeps.
  pub record IsHeld (got : Got State) : Type 0 where
    pub held :
        (token : String)
        → got.result ≡ ok token
        → (is_empty token ≡ false) × (got.manager.token ≡ token)

  read_response-IsHeld :
      (now : ℕ) (tm : TokenManager) (answer : Option TokenResponse × State)
      → IsHeld (read_response remote now tm answer)
  unfolding read_response
  read_response-IsHeld now tm (none, s) = record { held = λ token e. cc }
  read_response-IsHeld now tm (some r, s) =
      if_cases IsHeld (not (is_zero r.err_code)) (λ _. record { held = λ token e. cc })
        λ _.
          if_cases IsHeld (is_empty r.access_token) (λ _. record { held = λ token e. cc })
            λ full. record {
              held = λ token e. let same : r.access_token ≡ token = cc in (rw (← same) full, same);
            }

  fetch_locked-IsHeld :
      (now : ℕ) (tm : TokenManager) (s : State) → IsHeld (fetch_locked remote now tm s)
  unfolding fetch_locked
  fetch_locked-IsHeld now tm s = read_response-IsHeld now tm (remote.request s)

  from_cache-IsHeld :
      (now : ℕ) (tm : TokenManager) (cached : Option String × State)
      → IsHeld (from_cache remote now tm cached)
  unfolding from_cache
  from_cache-IsHeld now tm (none, s) = fetch_locked-IsHeld now tm s
  from_cache-IsHeld now tm (some token, s) =
      if_cases IsHeld (is_empty token) (λ _. fetch_locked-IsHeld now tm s)
        λ full. record { held = λ t e. let same : token ≡ t = cc in (rw (← same) full, same) }

  get_token-IsHeld : (now : ℕ) (tm : TokenManager) (s : State) → IsHeld (get_token remote now tm s)
  unfolding get_token
  get_token-IsHeld now tm s =
      if_cases IsHeld (not (is_empty tm.token) && ltb now tm.expires)
        (λ live. record {
          held = λ t f.
              let same : tm.token ≡ t = cc in
              let full : is_empty tm.token ≡ false = ground arith in (rw (← same) full, same);
        })
        λ _.
          if_cases IsHeld remote.has_cache (λ _. from_cache-IsHeld now tm (remote.cache_get s))
            (λ _. fetch_locked-IsHeld now tm s)

  -- Wherever the token comes from, the manager's field, the cache or the server: what `Get` hands out is
  -- not blank, and the manager keeps it.
  pub get_token-keeps :
      (now : ℕ) (tm : TokenManager) (s : State) (token : String)
      → (get_token remote now tm s).result ≡ ok token
      → (is_empty token ≡ false) × ((get_token remote now tm s).manager.token ≡ token)
  get_token-keeps now tm s token e = (get_token-IsHeld now tm s).held token e
