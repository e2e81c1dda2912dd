-- ===== src/Config.antt =====
-- internal/config/config.go: the configuration of the gateway and of the agent, from the environment.
pub mod Started
pub mod Tests
use anime_companion_ai.Prelude.{
  String, Bool, true, false, not, Option, none, some, str_eq, if◌then◌else◌, Result, ok, err,
}
use anime_companion_ai.Prelude.Int.{ℤ, pos, leb_ℤ}
use anime_companion_ai.Prelude.Text.{is_empty, trim_space}

-- `GatewayConfig`
pub record GatewayConfig : Type 0 where
  pub wechat_enabled : Bool
  pub wechat_token : String
  pub wechat_app_id : String
  pub wechat_app_secret : String
  pub agent_grpc_addr : String
  pub gateway_http_addr : String
  pub redis_addr : String
  pub pg_dsn : String
  pub auth_pepper : String
  pub smtp_host : String
  pub smtp_port : String
  pub smtp_username : String
  pub smtp_password : String
  pub smtp_from : String
  pub smtp_implicit_tls : Bool
  pub cookie_secure : Bool
  pub daily_quota_limit : ℤ
  pub quota_time_zone : String
  pub release_id : String
  pub backend_commit : String
  pub frontend_commit : String

-- `AgentConfig`
pub record AgentConfig : Type 0 where
  pub deep_seek_api_key : String
  pub deep_seek_model : String
  pub pg_dsn : String
  pub agent_grpc_addr : String
  pub redis_addr : String
  pub release_id : String
  pub backend_commit : String

-- `os.Getenv` is "" for a variable that is not set; the readers of numbers, truth values and
-- addresses are those of strconv and net/mail, and `equal_fold` is that of strings. An address that is
-- read is kept as its `Address`.
pub record Process : Type 0 where
  pub getenv : String → String
  pub atoi : String → Option ℤ
  pub parse_bool : String → Option Bool
  pub parse_address : String → Option String
  pub equal_fold : String → String → Bool

module _ (process : Process) where
  open process use {getenv, atoi, parse_bool, parse_address, equal_fold}

  -- `env`
  abbrev pub env : String → String → String
  unfolding is_empty
  env key default = if is_empty (getenv key) then default else getenv key

  abbrev parsed_or : Bool → Option Bool → Bool
  parsed_or default none = default
  parsed_or default (some parsed) = parsed

  -- `envBool`
  unfoldable pub env_bool : String → Bool → Bool
  unfolding is_empty
  env_bool key default =
      if is_empty (getenv key) then default else parsed_or default (parse_bool (getenv key))

  -- The configuration as it is read, before its checks.
  unfoldable pub gateway_config : ℤ → String → GatewayConfig
  unfolding env_bool
  gateway_config limit time_zone = record {
    wechat_enabled = env_bool "WECHAT_ENABLED" false;
    wechat_token = getenv "WECHAT_TOKEN";
    wechat_app_id = getenv "WECHAT_APPID";
    wechat_app_secret = getenv "WECHAT_APPSECRET";
    agent_grpc_addr = env "AGENT_GRPC_ADDR" "127.0.0.1:9090";
    gateway_http_addr = env "GATEWAY_HTTP_ADDR" ":80";
    redis_addr = env "REDIS_ADDR" "127.0.0.1:6379";
    pg_dsn = getenv "PG_DSN";
    auth_pepper = getenv "AUTH_PEPPER";
    smtp_host = env "SMTP_HOST" "127.0.0.1";
    smtp_port = env "SMTP_PORT" "1025";
    smtp_username = getenv "SMTP_USERNAME";
    smtp_password = getenv "SMTP_PASSWORD";
    smtp_from = env "SMTP_FROM" "SOS Brigade <noreply@sos.local>";
    smtp_implicit_tls = env_bool "SMTP_IMPLICIT_TLS" false;
    cookie_secure = env_bool "COOKIE_SECURE" false;
    daily_quota_limit = limit;
    quota_time_zone = time_zone;
    release_id = getenv "RELEASE_ID";
    backend_commit = getenv "BACKEND_COMMIT";
    frontend_commit = getenv "FRONTEND_COMMIT";
  }

  -- The checks return the first message; of an error that is wrapped, only the text before it.
  unfoldable pub check_wechat : GatewayConfig → Option String
  unfolding is_empty
  check_wechat cfg =
      if is_empty cfg.wechat_token
      then some "WECHAT_TOKEN is required when WECHAT_ENABLED=true"
      else if is_empty cfg.wechat_app_id
      then some "WECHAT_APPID is required when WECHAT_ENABLED=true"
      else if is_empty cfg.wechat_app_secret
      then some "WECHAT_APPSECRET is required when WECHAT_ENABLED=true"
      else none

  unfoldable pub check_sender : GatewayConfig → Option String → Option String
  unfolding trim_space
  check_sender cfg none = some "SMTP_FROM must be a valid email address"
  check_sender cfg (some address) =
      if equal_fold (trim_space cfg.smtp_username) address
      then none
      else some "SMTP_USERNAME must match the SMTP_FROM address when SMTP_IMPLICIT_TLS=true"

  unfoldable pub check_smtp : GatewayConfig → Option String
  unfolding check_sender is_empty
  check_smtp cfg =
      if is_empty cfg.smtp_username
      then some "SMTP_USERNAME is required when SMTP_IMPLICIT_TLS=true"
      else if is_empty cfg.smtp_password
      then some "SMTP_PASSWORD is required when SMTP_IMPLICIT_TLS=true"
      else check_sender cfg (parse_address cfg.smtp_from)

  abbrev pub first_error : Option String → Option String → Option String
  first_error (some e) rest = some e
  first_error none rest = rest

  -- The checks of `LoadGateway` after the quota's, in their order.
  unfoldable pub check_gateway : GatewayConfig → Option String
  unfolding check_wechat check_smtp is_empty
  check_gateway cfg = first_error (if cfg.wechat_enabled then check_wechat cfg else none) (
      if is_empty cfg.pg_dsn
      then some "PG_DSN is required"
      else if is_empty cfg.auth_pepper
      then some "AUTH_PEPPER is required"
      else if cfg.smtp_implicit_tls
      then check_smtp cfg
      else none)

  abbrev pub unless {ℓ} : {A : Type ℓ} → A → Option String → Result String A
  unless a none = ok a
  unless a (some e) = err e

  unfoldable pub limited_gateway : Option ℤ → Result String GatewayConfig
  unfolding gateway_config check_gateway
  limited_gateway none = err "DAILY_QUOTA_LIMIT must be a positive integer"
  limited_gateway (some limit) =
      let time_zone = env "QUOTA_TIME_ZONE" "Asia/Shanghai" in
      let cfg = gateway_config limit time_zone in
      if leb_ℤ limit (pos 0)
      then err "DAILY_QUOTA_LIMIT must be a positive integer"
      else if not (str_eq time_zone "Asia/Shanghai")
      then err "QUOTA_TIME_ZONE must be Asia/Shanghai"
      else unless cfg (check_gateway cfg)

  -- `LoadGateway`
  unfoldable pub load_gateway : Result String GatewayConfig
  unfolding limited_gateway
  load_gateway = limited_gateway (atoi (env "DAILY_QUOTA_LIMIT" "20"))

  unfoldable pub check_agent : AgentConfig → Option String
  unfolding is_empty
  check_agent cfg =
      if is_empty cfg.deep_seek_api_key
      then some "DEEPSEEK_API_KEY is required"
      else if is_empty cfg.pg_dsn
      then some "PG_DSN is required"
      else none

  -- `LoadAgent`
  unfoldable pub load_agent : Result String AgentConfig
  unfolding check_agent
  load_agent =
      let cfg : AgentConfig = record {
        deep_seek_api_key = getenv "DEEPSEEK_API_KEY";
        deep_seek_model = env "DEEPSEEK_MODEL" "deepseek-v4-flash";
        pg_dsn = getenv "PG_DSN";
        agent_grpc_addr = env "AGENT_GRPC_ADDR" "127.0.0.1:9090";
        redis_addr = env "REDIS_ADDR" "127.0.0.1:6379";
        release_id = getenv "RELEASE_ID";
        backend_commit = getenv "BACKEND_COMMIT";
      } in
      unless cfg (check_agent cfg)
