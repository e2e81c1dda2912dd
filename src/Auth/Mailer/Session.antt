-- ===== src/Auth/Mailer/Session.antt =====
-- internal/auth/mailer.go: the order of the calls that `sendMailImplicitTLS` makes of the mail server.
use anime_companion_ai.Prelude.{
  String, ◌≡◌, refl, Bool, true, false, Option, none, some, List, [], ◌∷◌, if◌then◌else◌,
}
use anime_companion_ai.Auth.Letter.{Envelope}
use anime_companion_ai.Auth.Mailer.{
  SmtpMailer, TlsConfig, Call, dial, handshake, new_client, auth, mail, rcpt, start_data, write,
  close_data, quit, close_client, close_conn, tls_config, after, deferring, converse, write_message,
  send_mail_implicit_tls,
}

-- How far a connection is, by the protocol of mail. After a failure only what is open may be closed:
-- the text, the client or the connection.
pub data Phase : Type 0 where
  idle connected secured greeted authorised addressed received : Phase
  open_data written delivered finished : Phase
  cut failing clientless closed : Phase

-- What a call may follow on, and where it leads if it succeeds and if it fails.
next : Phase → Call → Bool → Option Phase
next idle (dial addr) fine = some (if fine then connected else closed)
next connected (handshake config) fine = some (if fine then secured else clientless)
next secured (new_client host) fine = some (if fine then greeted else clientless)
next greeted (auth name) fine = some (if fine then authorised else failing)
next greeted (mail sender) fine = some (if fine then addressed else failing)
next authorised (mail sender) fine = some (if fine then addressed else failing)
next addressed (rcpt recipient) fine = some (if fine then received else failing)
next received start_data fine = some (if fine then open_data else failing)
next open_data (write message) fine = some (if fine then written else cut)
next written close_data fine = some (if fine then delivered else failing)
next cut close_data fine = some failing
next delivered quit fine = some (if fine then finished else failing)
next finished close_client fine = some clientless
next failing close_client fine = some clientless
next clientless close_conn fine = some closed
next _ _ _ = none

abbrev pub Calls : Type 0
Calls = List (Call × Bool)

-- The phase after some calls with their answers, the last first; `none` if one is out of order.
pub phase_after : Calls → Option Phase
unfolding next
phase_after [] = some idle
phase_after ((call, fine) ∷ calls) = elim (phase_after calls) [
  | none ↦ none
  | some phase ↦ next phase call fine
]

-- A network that notes the calls and answers them in any way.
abbrev pub noted : (Calls → Call → Bool) → Call → Calls → Bool × Calls
noted answers call calls = (answers calls call, (call, answers calls call) ∷ calls)

abbrev pub signed_in : Option String → Calls → Calls
signed_in none calls = calls
signed_in (some name) calls = (auth name, true) ∷ calls

module _ (m : SmtpMailer) (given : Option TlsConfig) (username : Option String)
    (envelope : Envelope) where
  -- All the calls but the closing of client and connection, the last first.
  abbrev pub delivery : Calls
  delivery =
      (quit, true)
      ∷ (close_data, true)
      ∷ (write envelope.message, true)
      ∷ (start_data, true)
      ∷ (rcpt envelope.recipient, true)
      ∷ (mail envelope.sender, true)
      ∷ signed_in username (
          (new_client m.host, true)
          ∷ (handshake (tls_config given m.host), true)
          ∷ (dial m.addr, true)
          ∷ [])

  -- The session fails in order with all closed that was opened, or it makes all its calls.
  pub data IsSession : Bool × Calls → Type 0 where
    broken_off : (calls : Calls) → phase_after calls ≡ some closed → IsSession (false, calls)
    sent : (a b : Bool) → IsSession (true, (close_conn, a) ∷ (close_client, b) ∷ delivery)

module _ (m : SmtpMailer) (given : Option TlsConfig) (envelope : Envelope)
    (answers : Calls → Call → Bool) where
  abbrev call : Call → Calls → Bool × Calls
  call = noted answers

  -- A session that is over, with the client and the connection still to be closed.
  abbrev Ends : Option String → Bool × Calls → Type 0
  Ends username r =
      IsSession m given username envelope
        (deferring call close_conn (deferring call close_client r))

  write_cases :
      (P : Bool × Calls → Type 0) (calls : Calls)
      → ((fine : Bool) → P (fine, (close_data, fine) ∷ (write envelope.message, true) ∷ calls))
      → ((fine : Bool) → P (false, (close_data, fine) ∷ (write envelope.message, false) ∷ calls))
      → P (write_message call envelope.message calls)
  unfolding write_message
  write_cases P calls h k = by_write (answers calls (write envelope.message))
    where
      by_write :
          (fine : Bool)
          → P (
              if fine
              then call close_data ((write envelope.message, fine) ∷ calls)
              else (false, (call close_data ((write envelope.message, fine) ∷ calls)).1))
      by_write false = k (answers ((write envelope.message, false) ∷ calls) close_data)
      by_write true = h (answers ((write envelope.message, true) ∷ calls) close_data)

  -- A property of a call with what follows, proved where the call fails and where it does not.
  call_cases :
      (P : Bool × Calls → Type 0) (c : Call) (calls : Calls) (rest : Calls → Bool × Calls)
      → P (rest ((c, true) ∷ calls))
      → P (false, (c, false) ∷ calls)
      → P (after (call c calls) rest)
  call_cases P c calls rest h k = by_answer (answers calls c)
    where
      by_answer : (fine : Bool) → P (after (fine, (c, fine) ∷ calls) rest)
      by_answer true = h
      by_answer false = k

  -- What follows the text, the command for it, the recipient and the sender.
  abbrev texted : Calls → Bool × Calls
  texted calls = after (write_message call envelope.message calls) (call quit)

  abbrev opened : Calls → Bool × Calls
  opened calls = after (call start_data calls) texted

  abbrev named : Calls → Bool × Calls
  named calls = after (call (rcpt envelope.recipient) calls) opened

  abbrev posted : Calls → Bool × Calls
  posted calls = after (call (mail envelope.sender) calls) named

  step :
      (calls : Calls) (p q : Phase) (c : Call) (fine : Bool)
      → phase_after calls ≡ some p
      → next p c fine ≡ some q
      → phase_after ((c, fine) ∷ calls) ≡ some q
  unfolding phase_after
  step calls p q c fine e n = rw e n

  -- After a failure the client and the connection are closed.
  failing-Ends :
      (username : Option String) (calls : Calls)
      → phase_after calls ≡ some failing
      → Ends username (false, calls)
  unfolding next
  failing-Ends username calls e =
      broken_off _ (step _ _ _ _ _ (step calls failing clientless close_client _ e refl) refl)

  abbrev greeted_calls : Calls
  greeted_calls =
      (new_client m.host, true)
      ∷ (handshake (tls_config given m.host), true)
      ∷ (dial m.addr, true)
      ∷ []

  abbrev texts : Option String → Calls
  texts username =
      (write envelope.message, true)
      ∷ (start_data, true)
      ∷ (rcpt envelope.recipient, true)
      ∷ (mail envelope.sender, true)
      ∷ signed_in username greeted_calls

  closed_data-Ends :
      (username : Option String)
      → ((fine : Bool)
          → phase_after ((close_data, fine) ∷ texts username)
            ≡ some (if fine then delivered else failing))
      → (fine : Bool)
      → Ends username (after (fine, (close_data, fine) ∷ texts username) (call quit))
  unfolding next
  closed_data-Ends username h false = failing-Ends username _ (h false)
  closed_data-Ends username h true = by_quit (answers ((close_data, true) ∷ texts username) quit)
    where
      by_quit :
          (fine : Bool) → Ends username (fine, (quit, fine) ∷ (close_data, true) ∷ texts username)
      by_quit true = sent _ _
      by_quit false = failing-Ends username _ (step _ delivered failing quit false (h true) refl)

  posted-Ends :
      (username : Option String)
      → ((fine : Bool)
          → phase_after ((mail envelope.sender, fine) ∷ signed_in username greeted_calls)
            ≡ some (if fine then addressed else failing))
      → Ends username (posted (signed_in username greeted_calls))
  unfolding next
  posted-Ends username mailed =
      let calls = signed_in username greeted_calls in
      let P = Ends username in
      let here =
        λ (fine : Bool). step _ addressed _ (rcpt envelope.recipient) fine (mailed true) refl in
      let ready = λ (fine : Bool). step _ received _ start_data fine (here true) refl in
      let sending =
        λ (fine : Bool). step _ open_data _ (write envelope.message) fine (ready true) refl in
      call_cases P (mail envelope.sender) calls named
        (call_cases P (rcpt envelope.recipient) _ opened
          (call_cases P start_data _ texted
            (write_cases (λ r. P (after r (call quit))) _
              (closed_data-Ends username (λ ok. step _ written _ close_data ok (sending true) refl))
              (λ ok.
                failing-Ends username _ (step _ cut failing close_data ok (sending false) refl)))
            (failing-Ends username _ (ready false)))
          (failing-Ends username _ (here false)))
        (failing-Ends username _ (mailed false))

  converse-Ends :
      (username : Option String) → Ends username (converse call username envelope greeted_calls)
  unfolding converse phase_after
  converse-Ends none = posted-Ends none (λ fine. refl)
  converse-Ends (some name) =
      call_cases (Ends (some name)) (auth name) greeted_calls posted
        (posted-Ends (some name) (λ fine. refl)) (broken_off _ refl)

  -- However the network answers, a session either fails, with its calls in the order of the protocol
  -- and all closed that was opened; or it succeeds and has made all the calls: it has secured the
  -- connection, signed in where a name is set, named the sender and the recipient and sent the whole
  -- message, and it has closed the client and the connection.
  pub send_mail_implicit_tls-IsSession :
      (username : Option String)
      → IsSession m given username envelope
          (send_mail_implicit_tls (noted answers) m given username envelope [])
  unfolding send_mail_implicit_tls phase_after
  send_mail_implicit_tls-IsSession username =
      let P : Bool × Calls → Type 0 = IsSession m given username envelope in
      let Q : Bool × Calls → Type 0 = λ r. P (deferring call close_conn r) in
      call_cases P (dial m.addr) [] _
        (call_cases Q (handshake (tls_config given m.host)) _ _
          (call_cases Q (new_client m.host) _ _ (converse-Ends username) (broken_off _ refl))
          (broken_off _ refl))
        (broken_off _ refl)
