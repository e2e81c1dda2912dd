-- ===== src/Config/Started.antt =====
-- cmd/gateway/main.go: what the gateway builds from its configuration when it starts.
use anime_companion_ai.Prelude.{
  String, ◌≡◌, refl, true, false, not, ◌⊎◌, inl, inr, Option, none, some, str_eq, if◌then◌else◌,
  if_cases, Bool-cases, Result, ok, err,
}
use Prim.Native.String.{◌++◌}
use mathlib.Core.Path.{subst}
use anime_companion_ai.Prelude.Int.{ℤ, pos, leb_ℤ}
use anime_companion_ai.Prelude.Text.{is_empty, trim_space}
use anime_companion_ai.Quota.Manager.{Manager, NewError, new_redis}
use anime_companion_ai.Auth.Mailer.{SmtpMailer, auth_of}
use anime_companion_ai.Config.{
  GatewayConfig, Process, check_wechat, check_sender, check_smtp, check_gateway, first_error,
  unless, limited_gateway, load_gateway, env, gateway_config,
}

-- The mailer of the service for accounts.
unfoldable pub mailer_of : GatewayConfig → SmtpMailer
mailer_of cfg = record {
  addr = cfg.smtp_host ++ (":" ++ cfg.smtp_port);
  host = cfg.smtp_host;
  username = cfg.smtp_username;
  password = cfg.smtp_password;
  from = cfg.smtp_from;
  implicit_tls = cfg.smtp_implicit_tls;
}

-- The manager of the daily quota.
unfoldable pub quota_of : GatewayConfig → Result NewError Manager
unfolding new_redis
quota_of cfg = new_redis true "gateway:daily-quota:" cfg.daily_quota_limit

module _ (process : Process) where
  open process use {parse_address, equal_fold}

  -- The mailer signs in, and the name, trimmed, is the address of the sender up to capitals.
  pub record SignsIn (cfg : GatewayConfig) : Type 0 where
    pub named : auth_of (mailer_of cfg) ≡ some cfg.smtp_username
    pub sender : String
    pub parsed : parse_address cfg.smtp_from ≡ some sender
    pub matches : equal_fold (trim_space cfg.smtp_username) sender ≡ true

  pub record IsReady (cfg : GatewayConfig) : Type 0 where
    pub quota :
        quota_of cfg
        ≡ ok (record { prefix = "gateway:daily-quota:"; limit = cfg.daily_quota_limit })
    pub mail : (cfg.smtp_implicit_tls ≡ false) ⊎ SignsIn cfg

  some-ne-none {ℓ} : {P : Type ℓ} {e : String} → some e ≡ none → P
  some-ne-none {e = e} h = absurd (let impossible : some e ≡ none = h in cc)

  check_sender-none :
      (cfg : GatewayConfig) (o : Option String)
      → check_sender process cfg o ≡ none
      → (sender : String) × (o ≡ some sender)
        × (equal_fold (trim_space cfg.smtp_username) sender ≡ true)
  unfolding check_sender
  check_sender-none cfg none h = some-ne-none h
  check_sender-none cfg (some sender) h =
      elim (Bool-cases (equal_fold (trim_space cfg.smtp_username) sender)) [
        | inl e ↦ (sender, refl, e)
        | inr e ↦ some-ne-none (rw e at h)
      ]

  check_smtp-SignsIn : (cfg : GatewayConfig) → check_smtp process cfg ≡ none → SignsIn cfg
  unfolding check_smtp mailer_of auth_of
  check_smtp-SignsIn cfg =
      if_cases (λ o. o ≡ none → SignsIn cfg) (is_empty cfg.smtp_username) (λ _ h. some-ne-none h)
        (λ named.
          if_cases (λ o. o ≡ none → SignsIn cfg) (is_empty cfg.smtp_password)
            (λ _ h. some-ne-none h)
            (λ _ h.
              let (sender, parsed, matches) =
                check_sender-none cfg (parse_address cfg.smtp_from) h in
              record {
                named = rw named refl;
                sender = sender;
                parsed = parsed;
                matches = matches;
              }))

  abbrev MailIs : GatewayConfig → Type 0
  MailIs cfg = (cfg.smtp_implicit_tls ≡ false) ⊎ SignsIn cfg

  check_gateway-mail : (cfg : GatewayConfig) → check_gateway process cfg ≡ none → MailIs cfg
  unfolding check_gateway
  check_gateway-mail cfg = by_wechat (if cfg.wechat_enabled then check_wechat process cfg else none)
    where
      smtp :
          (if is_empty cfg.pg_dsn
              then some "PG_DSN is required"
              else if is_empty cfg.auth_pepper
              then some "AUTH_PEPPER is required"
              else if cfg.smtp_implicit_tls
              then check_smtp process cfg
              else none)
            ≡ none
          → MailIs cfg
      smtp =
          if_cases (λ o. o ≡ none → MailIs cfg) (is_empty cfg.pg_dsn) (λ _ h. some-ne-none h)
            (λ _.
              if_cases (λ o. o ≡ none → MailIs cfg) (is_empty cfg.auth_pepper)
                (λ _ h. some-ne-none h)
                (λ _.
                  if_cases (λ o. o ≡ none → MailIs cfg) cfg.smtp_implicit_tls
                    (λ _ h. inr (check_smtp-SignsIn cfg h)) (λ plain _. inl plain)))

      by_wechat :
          (o : Option String)
          → first_error process o (
              if is_empty cfg.pg_dsn
              then some "PG_DSN is required"
              else if is_empty cfg.auth_pepper
              then some "AUTH_PEPPER is required"
              else if cfg.smtp_implicit_tls
              then check_smtp process cfg
              else none)
            ≡ none
          → MailIs cfg
      by_wechat (some e) h = some-ne-none h
      by_wechat none h = smtp h

  quota_ready :
      (limit : ℤ) (time_zone : String)
      → leb_ℤ limit (pos 0) ≡ false
      → quota_of (gateway_config process limit time_zone)
        ≡ ok (record { prefix = "gateway:daily-quota:"; limit = limit })
  unfolding quota_of gateway_config
  quota_ready limit time_zone h = rw h refl

  err-ne-ok {ℓ} : {P : Type ℓ} {e : String} {cfg : GatewayConfig} → err e ≡ ok cfg → P
  err-ne-ok {e = e} {cfg = cfg} h = absurd (let impossible : Result.err e ≡ ok cfg = h in cc)

  checked-IsReady :
      (read cfg : GatewayConfig) (o : Option String)
      → check_gateway process read ≡ o
      → quota_of read
        ≡ ok (record { prefix = "gateway:daily-quota:"; limit = read.daily_quota_limit })
      → unless process read o ≡ ok cfg
      → IsReady cfg
  checked-IsReady read cfg (some e) check quota h = err-ne-ok h
  checked-IsReady read cfg none check quota h =
      let same : read ≡ cfg = cc in
      subst IsReady same (record { quota = quota; mail = check_gateway-mail read check })

  limited_gateway-IsReady :
      (o : Option ℤ) (cfg : GatewayConfig) → limited_gateway process o ≡ ok cfg → IsReady cfg
  unfolding limited_gateway
  limited_gateway-IsReady none cfg = λ h. err-ne-ok h
  limited_gateway-IsReady (some limit) cfg =
      let time_zone = env process "QUOTA_TIME_ZONE" "Asia/Shanghai" in
      let read = gateway_config process limit time_zone in
      let P : Result String GatewayConfig → Type 0 = λ r. r ≡ ok cfg → IsReady cfg in
      if_cases P (leb_ℤ limit (pos 0)) (λ _ h. err-ne-ok h)
        (λ positive.
          if_cases P (not (str_eq time_zone "Asia/Shanghai")) (λ _ h. err-ne-ok h)
            (λ _.
              checked-IsReady read cfg (check_gateway process read) refl
                (quota_ready limit time_zone positive)))

  -- A gateway whose configuration is loaded gets its manager of the quota, with the limit of the
  -- configuration; and its mailer sends without TLS from the start, or it signs in, under the name of the
  -- configuration, which matches the address of the sender but for capitals and blanks around it.
  pub load_gateway-IsReady : (cfg : GatewayConfig) → load_gateway process ≡ ok cfg → IsReady cfg
  unfolding load_gateway
  load_gateway-IsReady cfg =
      limited_gateway-IsReady (process.atoi (env process "DAILY_QUOTA_LIMIT" "20")) cfg
