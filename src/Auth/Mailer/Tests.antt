-- ===== src/Auth/Mailer/Tests.antt =====
-- A mail that is sent, and a session whose server refuses the recipient.
use anime_companion_ai.Prelude.{◌≡◌, refl, Bool, true, false, none, some, [], ◌∷◌}
use anime_companion_ai.Auth.Letter.{Envelope, Mime}
use anime_companion_ai.Auth.Mailer.{
  SmtpMailer, Call, dial, handshake, new_client, mail, rcpt, close_client, close_conn,
  send_mail_implicit_tls, send_verification,
}
use anime_companion_ai.Auth.Mailer.Session.{
  Calls, noted, IsSession, send_mail_implicit_tls-IsSession,
}

abbrev mailer : SmtpMailer
mailer = record {
  addr = "smtp.example.com:465";
  host = "smtp.example.com";
  username = "sos@example.com";
  password = "secret";
  from = "sos@example.com";
  implicit_tls = true;
}

abbrev letter : Envelope
letter = record { message = "码"; sender = "sos@example.com"; recipient = "mina@example.com" }

abbrev refuses : Calls → Call → Bool
refuses calls call = elim call [ rcpt to ↦ false | _ ↦ true ]

refused : send_mail_implicit_tls (noted refuses) mailer none none letter [] ≡ (
  false,
  (close_conn, true)
      ∷ (close_client, true)
      ∷ (rcpt "mina@example.com", false)
      ∷ (mail "sos@example.com", true)
      ∷ (new_client "smtp.example.com", true)
      ∷ (handshake (record { min_version = 0x0303; server_name = "smtp.example.com" }), true)
      ∷ (dial "smtp.example.com:465", true)
      ∷ [],
)
unfolding send_mail_implicit_tls
refused = refl

send_mail_implicit_tls-IsSession_example :
    IsSession mailer none
      (some "sos@example.com")
      letter
      (send_mail_implicit_tls (noted refuses) mailer none (some "sos@example.com") letter [])
send_mail_implicit_tls-IsSession_example =
    send_mail_implicit_tls-IsSession mailer none letter refuses (some "sos@example.com")

abbrev library : Mime
library = record {
  parse_address = λ s. some (record { written = s; address = s });
  escape = λ s. s;
  q_encode = λ s. s;
  multipart = λ boundary parts. some boundary;
  quoted = λ s. s;
}

-- An ended context sends nothing.
abandoned :
    send_verification
      (noted refuses)
      library
      mailer
      none
      false
      "mina@example.com"
      "1"
      "reset"
      "b"
      "d"
      []
    ≡ (false, [])
unfolding send_verification
abandoned = refl
