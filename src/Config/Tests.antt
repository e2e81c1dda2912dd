-- ===== src/Config/Tests.antt =====
-- A gateway that is started with little more than what is required.
use anime_companion_ai.Prelude.{String, ◌≡◌, refl, none, some, str_eq, if◌then◌else◌, ok, err}
use anime_companion_ai.Prelude.Int.{pos}
use anime_companion_ai.Config.{GatewayConfig, Process, gateway_config, load_gateway, load_agent}
use anime_companion_ai.Config.Started.{IsReady, load_gateway-IsReady}

abbrev given : String → String
given key =
    if str_eq key "PG_DSN"
    then "postgres://localhost/companion"
    else if str_eq key "AUTH_PEPPER"
    then "pepper"
    else if str_eq key "SMTP_IMPLICIT_TLS"
    then "true"
    else if str_eq key "SMTP_USERNAME"
    then "sos@example.com"
    else if str_eq key "SMTP_PASSWORD"
    then "secret"
    else if str_eq key "SMTP_FROM"
    then "sos@example.com"
    else ""

abbrev process : Process
process = record {
  getenv = given;
  atoi = λ s. if str_eq s "20" then some (pos 20) else none;
  parse_bool = λ s. some (str_eq s "true");
  parse_address = λ s. some s;
  equal_fold = str_eq;
}

abbrev loaded : GatewayConfig
unfolding gateway_config
loaded = gateway_config process (pos 20) "Asia/Shanghai"

is_loaded : load_gateway process ≡ ok loaded
unfolding load_gateway
is_loaded = refl

-- WeChat wants its secrets.
without_secret :
    load_gateway
      (record process { getenv = λ k. if str_eq k "WECHAT_ENABLED" then "true" else given k })
    ≡ err "WECHAT_TOKEN is required when WECHAT_ENABLED=true"
unfolding load_gateway
without_secret = refl

without_key : load_agent process ≡ err "DEEPSEEK_API_KEY is required"
unfolding load_agent
without_key = refl

load_gateway-IsReady_example : IsReady process loaded
load_gateway-IsReady_example = load_gateway-IsReady process loaded is_loaded
