-- ===== src/Quota/Script.antt =====
-- internal/quota/quota.go: the three Lua scripts, which the server runs as one step each.
use anime_companion_ai.Prelude.{
  ℕ, String, Bool, false, Option, none, some, ◌&&◌, str_eq, if◌then◌else◌,
}
use anime_companion_ai.Prelude.Int.{ℤ, pos, negsuc, ◌+ℤ◌, leb_ℤ, is_neg}
use anime_companion_ai.Redis.{Redis}
use anime_companion_ai.Redis.Entries.{hget, exists, or_zero}

-- The third value of the reply of `reserveScript`.
pub data Source : Type 0 where
  current previous exhausted : Source

pub record ReserveReply : Type 0 where
  pub accepted : ℕ
  pub used : ℤ
  pub source : Source
  pub revision : ℤ

pub record SettleReply : Type 0 where
  pub used : ℤ
  pub revision : ℤ

-- state == 'reserved', where `state` may be false
abbrev pub is_reserved : Option String → Bool
is_reserved none = false
is_reserved (some state) = str_eq state "reserved"

module _ (redis : Redis) where
  open redis use {Db, read, tonumber, hset, hdel, hincrby, expireat}

  -- tonumber(redis.call('HGET', key, field) or '0')
  unfoldable pub counter : Db → String → String → ℤ
  counter db key field = tonumber (or_zero (hget (read db key) field))

  -- KEYS[1] is `key`, KEYS[2] `previous_key`; ARGV is the rest, in order.
  module _ (key previous_key request : String) (limit : ℤ)
      (expires_at previous_expires_at : ℕ) where
    -- The end of the script: the request is in neither ledger.
    unfoldable pub reserve_fresh : Db → ReserveReply × Db
    reserve_fresh db =
        let committed = counter db key "committed" in
        let used = committed +ℤ counter db key "reserved" in
        let revision = counter db key "revision" in
        let db₁ = hset db key request "reserved" in
        let db₂ = hincrby db₁ key "reserved" (pos 1) in
        let db₃ = hincrby db₂ key "revision" (pos 1) in
        if leb_ℤ limit used
        then (record { accepted = 0; used = used; source = exhausted; revision = revision }, db)
        else (
          record {
            accepted = 1;
            used = committed +ℤ counter db₂ key "reserved";
            source = current;
            revision = counter db₃ key "revision";
          },
          expireat db₃ key expires_at,
        )

    -- A request that is known is accepted once more, and its ledger lives on.
    unfoldable pub reserve_known : Source → String → ℕ → Db → ReserveReply × Db
    reserve_known source ledger expiry db = (
      record {
        accepted = 1;
        used = counter db key "committed" +ℤ counter db key "reserved";
        source = source;
        revision = counter db key "revision";
      },
      expireat db ledger expiry,
    )

    -- By `state` and `previousState`.
    unfoldable pub reserve_case : Option String → Option String → Db → ReserveReply × Db
    unfolding reserve_fresh reserve_known
    reserve_case (some state) previous_state db = reserve_known current key expires_at db
    reserve_case none (some previous_state) db =
        reserve_known previous previous_key previous_expires_at db
    reserve_case none none db = reserve_fresh db

    unfoldable pub reserve_script : Db → ReserveReply × Db
    unfolding reserve_case
    reserve_script db =
        reserve_case (hget (read db key) request) (hget (read db previous_key) request) db

  -- The database and the three local variables of `settleScript`.
  pub record Settled : Type 0 where
    pub db : Db
    pub committed : ℤ
    pub reserved : ℤ
    pub revision : ℤ

  unfoldable pub settle_delivered : String → String → Db → Settled
  settle_delivered key request db =
      let db₁ = hincrby db key "reserved" (negsuc 0) in
      let db₂ = hincrby db₁ key "committed" (pos 1) in
      let db₃ = hset db₂ key request "delivered" in
      let db₄ = hincrby db₃ key "revision" (pos 1) in
      record {
        db = db₄;
        committed = counter db₂ key "committed";
        reserved = counter db₁ key "reserved";
        revision = counter db₄ key "revision";
      }

  unfoldable pub settle_failed : String → String → Db → Settled
  settle_failed key request db =
      let db₁ = hincrby db key "reserved" (negsuc 0) in
      let db₂ = hdel db₁ key request in
      let db₃ = hincrby db₂ key "revision" (pos 1) in
      record {
        db = db₃;
        committed = counter db key "committed";
        reserved = counter db₁ key "reserved";
        revision = counter db₃ key "revision";
      }

  unfoldable pub settle_nothing : String → Db → Settled
  settle_nothing key db = record {
    db = db;
    committed = counter db key "committed";
    reserved = counter db key "reserved";
    revision = counter db key "revision";
  }

  unfoldable pub settle_step : String → String → String → Db → Settled
  unfolding settle_delivered settle_failed settle_nothing
  settle_step key request outcome db =
      let is_open = is_reserved (hget (read db key) request) in
      if is_open && str_eq outcome "delivered"
      then settle_delivered key request db
      else if is_open && str_eq outcome "failed"
      then settle_failed key request db
      else settle_nothing key db

  unfoldable pub settle_script : String → String → String → ℕ → Db → SettleReply × Db
  unfolding settle_step
  settle_script key request outcome expires_at db =
      let s = settle_step key request outcome db in
      (
        record {
          used = s.committed +ℤ (if is_neg s.reserved then pos 0 else s.reserved);
          revision = s.revision;
        },
        if exists (read s.db key) then expireat s.db key expires_at else s.db,
      )

  unfoldable pub snapshot_script : String → Db → SettleReply
  snapshot_script key db = record {
    used = counter db key "committed" +ℤ counter db key "reserved";
    revision = counter db key "revision";
  }
