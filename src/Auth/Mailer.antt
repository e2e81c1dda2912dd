-- ===== src/Auth/Mailer.antt =====
-- internal/auth/mailer.go: the mailer, and its conversation with the mail server.
pub mod Session
pub mod Tests
use anime_companion_ai.Prelude.{
  ℕ, String, Bool, true, false, not, Option, none, some, str_eq, ◌==◌, if◌then◌else◌,
}
use anime_companion_ai.Prelude.Text.{is_empty}
use anime_companion_ai.Auth.Letter.{Mime, Envelope, compose_verification_message}

-- `SMTPMailer`; its configuration of TLS, which is set in tests only, stands beside it.
pub record SmtpMailer : Type 0 where
  pub addr : String
  pub host : String
  pub username : String
  pub password : String
  pub from : String
  pub implicit_tls : Bool

-- `tls.Config`, by the fields that the mailer sets.
pub record TlsConfig : Type 0 where
  pub min_version : ℕ
  pub server_name : String

-- tls.VersionTLS12
abbrev pub version_tls12 : ℕ
version_tls12 = 0x0303

-- The configuration of the connection: that of the mailer, completed, or one for the host.
unfoldable pub tls_config : Option TlsConfig → String → TlsConfig
unfolding is_empty
tls_config none host = record { min_version = version_tls12; server_name = host }
tls_config (some given) host = record {
  server_name = if is_empty given.server_name then host else given.server_name;
  min_version = if given.min_version == 0 then version_tls12 else given.min_version;
}

-- The calls of net, crypto/tls and net/smtp.
pub data Call : Type 0 where
  dial : String → Call
  handshake : TlsConfig → Call
  new_client auth mail rcpt : String → Call
  start_data : Call
  write : String → Call
  close_data quit close_client close_conn : Call
  -- smtp.SendMail
  send_mail : String → Bool → Envelope → Call

-- smtp.PlainAuth, where a name is set.
unfoldable pub auth_of : SmtpMailer → Option String
unfolding is_empty
auth_of m = if is_empty m.username then none else some m.username

-- An error ends the function.
abbrev pub after {ℓ} : {S : Type ℓ} → Bool × S → (S → Bool × S) → Bool × S
after (true, s) next = next s
after (false, s) next = (false, s)

-- The network: whether a call succeeds, and what it leaves. A context that is cancelled makes the
-- calls fail, by the deadline that is set then.
module _ {ℓ} {S : Type ℓ} (call : Call → S → Bool × S) where
  -- A deferred call, of which no result is used.
  abbrev pub deferring : Call → Bool × S → Bool × S
  deferring last (fine, s) = (fine, (call last s).1)

  unfoldable pub write_message : String → S → Bool × S
  write_message message s =
      let (written, s') = call (write message) s in
      if written then call close_data s' else (false, (call close_data s').1)

  -- From the client on.
  unfoldable pub converse : Option String → Envelope → S → Bool × S
  unfolding write_message
  converse username envelope s =
      let authorised : Bool × S = elim username [
        | none ↦ (true, s)
        | some name ↦ call (auth name) s
      ] in
      after authorised λ s. after (call (mail envelope.sender) s) λ s.
        after (call (rcpt envelope.recipient) s) λ s.
          after (call start_data s) λ s. after (write_message envelope.message s) λ s. call quit s

  -- `sendMailImplicitTLS`
  unfoldable pub send_mail_implicit_tls :
      SmtpMailer → Option TlsConfig → Option String → Envelope → S → Bool × S
  unfolding converse tls_config
  send_mail_implicit_tls m given username envelope s = after (call (dial m.addr) s) λ s.
      deferring close_conn (
        after (call (handshake (tls_config given m.host)) s) λ s.
          after (call (new_client m.host) s)
            λ s. deferring close_client (converse username envelope s))

  unfoldable pub send_composed : SmtpMailer → Option TlsConfig → Option Envelope → S → Bool × S
  unfolding send_mail_implicit_tls auth_of
  send_composed m given none s = (false, s)
  send_composed m given (some envelope) s =
      if m.implicit_tls
      then send_mail_implicit_tls m given (auth_of m) envelope s
      else call (send_mail m.addr (not (is_empty m.username)) envelope) s

  -- `SendVerification`; `live` tells that the context has not ended.
  unfoldable pub send_verification :
      Mime
      → SmtpMailer
      → Option TlsConfig
      → Bool
      → String
      → String
      → String
      → String
      → String
      → S
      → Bool × S
  unfolding send_composed compose_verification_message
  send_verification mime m given live to code purpose boundary date s =
      if live
      then send_composed m given
          (compose_verification_message mime m.from to code purpose boundary date) s
      else (false, s)
