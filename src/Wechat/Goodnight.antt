-- ===== src/Wechat/Goodnight.antt =====
-- internal/gateway/cron.go: `RunMaintenance`, which wishes a good night, and `SendText` of
-- internal/wechat/kf.go.
pub mod Once
pub mod Tests
use Prim.Native.String.{◌++◌}
use anime_companion_ai.Prelude.{
  ℕ, suc, ◌-◌, String, Bool, true, false, ◌||◌, ◌==◌, Option, none, some, List, [], ◌∷◌,
  if◌then◌else◌,
}
use anime_companion_ai.Prelude.Int.{ℤ, pos, negsuc}
use anime_companion_ai.Conversation.{beijing_day}
use anime_companion_ai.Persona.Registry.{good_night}
use anime_companion_ai.Wechat.Token.{
  is_zero, TokenManager, Pushed, sent, token_expired, push_failed, Remote, PushResult, push_text,
}

-- `IsTokenExpiredError`, of the code of an error.
abbrev pub is_token_expired : ℤ → Bool
is_token_expired (pos n) = n == 40001 || n == 42001
is_token_expired (negsuc n) = false

unfoldable pub endpoint : String
endpoint = "https://api.weixin.qq.com/cgi-bin/message/custom/send"

-- The HTTP client, by an address and a body: the body of the answer, or `none` for an error. `payload`
-- writes the JSON of a message, and `err_code` reads the code of an answer, if it is JSON.
pub record Http (S : Type 0) : Type 0 where
  pub post : String → String → S → Option String × S
  pub payload : String → String → String
  pub err_code : String → Option ℤ

unfoldable pub read_kf : Option ℤ → Pushed
read_kf none = push_failed
read_kf (some code) =
    if is_zero code then sent else if is_token_expired code then token_expired else push_failed

module _ {S : Type 0} (http : Http S) where
  open http use {post, payload, err_code}

  abbrev kf_code : Option String → Option ℤ
  kf_code none = none
  kf_code (some body) = err_code body

  -- `SendText`
  unfoldable pub kf_send_text : String → String → String → S → Pushed × S
  unfolding read_kf endpoint
  kf_send_text token open_id text s =
      let (body, s') = post (endpoint ++ ("?access_token=" ++ token)) (payload open_id text) s in
      (read_kf (kf_code body), s')

-- `agent` is the call of the agent, `none` for an error, and `clock` the time of each push.
module _ (remote : Remote) (agent : String → remote.State → Option (List String) × remote.State)
    (clock : ℕ → ℕ) where
  open remote use {State}

  -- What the pushes answered, which is only logged.
  pub record Greeted : Type 0 where
    pub results : List (PushResult remote)
    pub manager : TokenManager
    pub state : State

  unfoldable pub push_all : ℕ → List String → TokenManager → State → Greeted
  unfolding push_text good_night
  push_all n [] tm s = record { results = []; manager = tm; state = s }
  push_all n (id ∷ ids) tm s =
      let pushed = push_text remote (clock n) id good_night tm s in
      let rest = push_all (suc n) ids pushed.manager pushed.state in
      record { results = pushed.result ∷ rest.results; manager = rest.manager; state = rest.state }

  unfoldable pub greet_found : TokenManager → Option (List String) × State → Greeted
  unfolding push_all
  greet_found tm (none, s) = record { results = []; manager = tm; state = s }
  greet_found tm (some ids, s) = push_all 0 ids tm s

  -- `RunMaintenanceForDate`
  unfoldable pub run_maintenance_for_date : String → TokenManager → State → Greeted
  unfolding greet_found
  run_maintenance_for_date target tm s = greet_found tm (agent target s)

  -- `RunMaintenance`, for the day before.
  unfoldable pub run_maintenance : (ℕ → String) → ℕ → TokenManager → State → Greeted
  unfolding run_maintenance_for_date beijing_day
  run_maintenance format_date now tm s =
      run_maintenance_for_date (format_date (beijing_day now - 1)) tm s
