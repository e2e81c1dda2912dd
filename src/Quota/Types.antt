-- ===== src/Quota/Types.antt =====
-- internal/quota/quota.go: the types, the window of a day and the limited snapshot.
use Prim.Native.String.{◌++◌}
use anime_companion_ai.Prelude.{ℕ, ◌+◌, ◌*◌, String, Bool, true, false, if◌then◌else◌}
use anime_companion_ai.Prelude.Int.{ℤ, pos, ◌-ℤ◌, is_neg}
use anime_companion_ai.Conversation.{beijing_day, beijing_date}

pub record Subject : Type 0 where
  pub user_id : String
  pub is_admin : Bool

-- `Outcome` is a string type: `unknown` stands for every other string.
pub data Outcome : Type 0 where
  pending delivered failed : Outcome
  unknown : String → Outcome

pub record Snapshot : Type 0 where
  pub unlimited : Bool
  pub limit : ℤ
  pub used : ℤ
  pub remaining : ℤ
  pub reset_at : ℕ
  pub revision : ℤ

pub record Reservation : Type 0 where
  pub subject : Subject
  pub key : String
  pub request_hash : String
  pub expires_at : ℕ
  pub unlimited : Bool

abbrev pub no_subject : Subject
no_subject = record { user_id = ""; is_admin = false }

abbrev pub no_reservation : Reservation
no_reservation = record {
  subject = no_subject;
  key = "";
  request_hash = "";
  expires_at = 0;
  unlimited = false;
}

abbrev pub no_snapshot : Snapshot
no_snapshot = record {
  unlimited = false;
  limit = pos 0;
  used = pos 0;
  remaining = pos 0;
  reset_at = 0;
  revision = pos 0;
}

abbrev pub unlimited_snapshot : Snapshot
unlimited_snapshot = record no_snapshot { unlimited = true }

pub data Error : Type 0 where
  exhausted invalid_reservation unknown_outcome unavailable : Error

-- `window`: the key of the day, and the instants at which it is over and its ledger expires.
pub record Window : Type 0 where
  pub key : String
  pub reset_at : ℕ
  pub expires_at : ℕ

module _ (format_date : ℕ → String) (prefix : String) where
  unfoldable pub window : String → ℕ → Window
  unfolding beijing_date
  window user_id now = record {
    key = prefix ++ (user_id ++ (":" ++ format_date (beijing_day now)));
    reset_at = beijing_date now + 86400;
    expires_at = beijing_date now + 2 * 86400;
  }

-- `limitedSnapshot`
unfoldable pub limited_snapshot : ℤ → ℤ → ℤ → ℕ → Snapshot
limited_snapshot limit used revision reset_at =
    let used' = if is_neg used then pos 0 else used in
    let remaining = limit -ℤ used' in
    record {
      unlimited = false;
      limit = limit;
      used = used';
      remaining = if is_neg remaining then pos 0 else remaining;
      reset_at = reset_at;
      revision = revision;
    }
