-- ===== src/Quota/Manager.antt =====
-- internal/quota/quota.go: `NewRedis`, `Reserve`, `Settle` and `Snapshot`.
use Prim.Native.String.{◌++◌}
use anime_companion_ai.Prelude.{
  ℕ, ◌-◌, String, Bool, true, false, ◌||◌, Option, none, some, str_eq, ◌==◌, if◌then◌else◌, Result,
  ok, err,
}
use anime_companion_ai.Prelude.Int.{ℤ, pos, leb_ℤ}
use anime_companion_ai.Prelude.Text.{trim_space, is_empty}
use anime_companion_ai.Redis.{Redis}
use anime_companion_ai.Redis.Link.{Link, call}
use anime_companion_ai.Quota.Types.{
  Subject, Outcome, pending, delivered, failed, unknown, Snapshot, Reservation, no_reservation,
  no_snapshot, unlimited_snapshot, Error, exhausted, invalid_reservation, unknown_outcome,
  unavailable, Window, window, limited_snapshot,
}
use anime_companion_ai.Quota.Script.{
  previous, ReserveReply, SettleReply, reserve_script, settle_script, snapshot_script,
}

-- strings.TrimSpace(s) == ""
unfoldable pub is_blank : String → Bool
unfolding trim_space is_empty
is_blank s = is_empty (trim_space s)

-- The checks of `NewRedis`; its errors are told apart by their order.
pub data NewError : Type 0 where
  no_client no_prefix bad_limit : NewError

pub record Manager : Type 0 where
  pub prefix : String
  pub limit : ℤ

unfoldable pub new_redis : Bool → String → ℤ → Result NewError Manager
unfolding is_blank
new_redis client prefix limit =
    if client
    then if is_blank prefix
      then err no_prefix
      else if leb_ℤ limit (pos 0)
      then err bad_limit
      else ok (record { prefix = prefix; limit = limit })
    else err no_client

-- What `Reserve` returns: Go's three results.
pub record Reserved : Type 0 where
  pub reservation : Reservation
  pub snapshot : Snapshot
  pub error : Option Error

abbrev pub refused : Error → Reserved
refused e = record { reservation = no_reservation; snapshot = no_snapshot; error = some e }

-- What `Settle` and `Snapshot` return.
pub record QuotaAnswer : Type 0 where
  pub snapshot : Snapshot
  pub error : Option Error

abbrev pub no_answer : Error → QuotaAnswer
no_answer e = record { snapshot = no_snapshot; error = some e }

abbrev pub answer : Snapshot → QuotaAnswer
answer snapshot = record { snapshot = snapshot; error = none }

abbrev pub outcome_text : Outcome → String
outcome_text pending = "pending"
outcome_text delivered = "delivered"
outcome_text failed = "failed"
outcome_text (unknown s) = s

abbrev pub is_known : Outcome → Bool
is_known (unknown s) = false
is_known _ = true

-- `digest` is SHA-256 in hexadecimal digits, and `format_date` writes the date of a Beijing day.
module _ (redis : Redis) (digest : String → String) (format_date : ℕ → String)
    (manager : Manager) where
  open redis use {Db}

  unfoldable pub request_hash : String → String
  request_hash request_id = "request:" ++ digest request_id

  abbrev pub window_of : String → ℕ → Window
  window_of user_id now = window format_date manager.prefix user_id now

  -- The reservation that the reply of `reserveScript` stands for.
  unfoldable pub read_reserve : Subject → String → Window → Window → Option ReserveReply → Reserved
  read_reserve subject hash w previous_w none = refused unavailable
  read_reserve subject hash w previous_w (some reply) =
      let snapshot = limited_snapshot manager.limit reply.used reply.revision w.reset_at in
      let kept : Window = elim reply.source [ previous ↦ previous_w | _ ↦ w ] in
      if reply.accepted == 0
      then record { reservation = no_reservation; snapshot = snapshot; error = some exhausted }
      else record {
        reservation = record {
          subject = subject;
          key = kept.key;
          request_hash = hash;
          expires_at = kept.expires_at;
          unlimited = false;
        };
        snapshot = snapshot;
        error = none;
      }

  abbrev pub unlimited_reserved : Subject → Reserved
  unlimited_reserved subject = record {
    reservation = record no_reservation { subject = subject; unlimited = true };
    snapshot = unlimited_snapshot;
    error = none;
  }

  unfoldable pub reserve : Link → Subject → String → ℕ → Db → Reserved × Db
  unfolding is_blank call reserve_script read_reserve request_hash window
  reserve link subject request_id now db =
      let w = window_of subject.user_id now in
      let previous_w = window_of subject.user_id (now - 86400) in
      let hash = request_hash request_id in
      let script =
        reserve_script redis w.key previous_w.key hash manager.limit w.expires_at
          previous_w.expires_at in
      let called = call link script db in
      if subject.is_admin
      then (unlimited_reserved subject, db)
      else if is_blank subject.user_id || is_blank request_id
      then (refused invalid_reservation, db)
      else (read_reserve subject hash w previous_w called.0, called.1)

  unfoldable pub read_counts : Window → Option SettleReply → QuotaAnswer
  read_counts w none = no_answer unavailable
  read_counts w (some reply) =
      answer (limited_snapshot manager.limit reply.used reply.revision w.reset_at)

  -- `Snapshot`
  unfoldable pub snapshot : Link → Subject → ℕ → Db → QuotaAnswer × Db
  unfolding is_blank call snapshot_script read_counts window
  snapshot link subject now db =
      let w = window_of subject.user_id now in
      let called = call link (λ d. (snapshot_script redis w.key d, d)) db in
      if subject.is_admin
      then (answer unlimited_snapshot, db)
      else if is_blank subject.user_id
      then (no_answer invalid_reservation, db)
      else (read_counts w called.0, called.1)

  -- After the script: the counts are those of today's ledger, or `Snapshot` reads these.
  unfoldable pub after_settle : Link → Reservation → ℕ → Option SettleReply → Db → QuotaAnswer × Db
  unfolding snapshot
  after_settle link reservation now none db = (no_answer unavailable, db)
  after_settle link reservation now (some reply) db =
      let w = window_of reservation.subject.user_id now in
      if str_eq w.key reservation.key
      then (read_counts w (some reply), db)
      else snapshot link reservation.subject now db

  -- `link` is the call of the script, `link'` that of the later `Snapshot`.
  unfoldable pub settle : Link → Link → Reservation → Outcome → ℕ → Db → QuotaAnswer × Db
  unfolding call settle_script after_settle is_empty
  settle link link' reservation outcome now db =
      let called =
        call link
          (settle_script redis reservation.key reservation.request_hash (outcome_text outcome)
            reservation.expires_at)
          db in
      if reservation.unlimited || reservation.subject.is_admin
      then (answer unlimited_snapshot, db)
      else if is_empty reservation.key
          || is_empty reservation.request_hash
          || is_empty reservation.subject.user_id
      then (no_answer invalid_reservation, db)
      else if is_known outcome
      then after_settle link' reservation now called.0 called.1
      else (no_answer unknown_outcome, db)
