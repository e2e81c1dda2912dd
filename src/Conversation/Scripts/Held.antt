-- ===== src/Conversation/Scripts/Held.antt =====
-- internal/conversation/structured_store.go: a writer that holds the lease keeps it.
use anime_companion_ai.Prelude.{ℕ, ◌<◌, String, ◌≡◌, refl, true, false, str_eq, Bool}
use anime_companion_ai.Redis.{Redis}
use anime_companion_ai.Redis.Entries.{get}
use anime_companion_ai.Conversation.{Turn, Batch}
use anime_companion_ai.Conversation.Scripts.{
  Json, Keys, append_ok, holds, append_leased, append_script, save_leased, save_script,
}
use anime_companion_ai.Conversation.Scripts.Frame.{set_for-other}

-- The keys that a writer writes are not that of the lease.
pub record LeaseApart (keys : Keys) : Type 0 where
  pub sequence : str_eq keys.sequence keys.lease ≡ false
  pub messages : str_eq keys.messages keys.lease ≡ false
  pub batch : str_eq keys.batch keys.lease ≡ false
  pub requests : str_eq keys.requests keys.lease ≡ false

module _ (redis : Redis) (json : Json) (ttl_ms lease_ms : ℕ) (ttl_pos : 0 < ttl_ms)
    (lease_pos : 0 < lease_ms) (keys : Keys) (apart : LeaseApart keys)
    (request_id token : String) where
  open redis use {Db, read, read-incr, read-rpush, read-hset, read-pexpire}

  append_leased-lease :
      (message : Turn) (batch : Batch) (db : Db)
      → read
          (append_leased redis json ttl_ms lease_ms keys request_id token message batch db).1
          keys.lease
        ≡ read db keys.lease
  unfolding append_leased
  append_leased-lease message batch db =
      rw
        (
          read-pexpire _ keys.lease lease_ms keys.lease lease_pos,
          read-pexpire _ keys.requests ttl_ms keys.lease ttl_pos,
          read-pexpire _ keys.messages ttl_ms keys.lease ttl_pos,
          read-hset _ keys.requests request_id _ keys.lease,
          apart.requests,
          set_for-other redis json ttl_ms lease_ms ttl_pos lease_pos _ keys.batch _ keys.lease
              ttl_ms ttl_pos apart.batch,
          read-rpush _ keys.messages _ keys.lease,
          apart.messages,
          read-incr db keys.sequence keys.lease,
          apart.sequence,
        )
        refl

  save_leased-lease :
      (batch : Batch) (db : Db)
      → read
          (save_leased redis json ttl_ms lease_ms keys request_id token batch false db)
          keys.lease
        ≡ read db keys.lease
  unfolding save_leased
  save_leased-lease batch db =
      rw
        (
          read-pexpire _ keys.lease lease_ms keys.lease lease_pos,
          read-pexpire _ keys.requests ttl_ms keys.lease ttl_pos,
          read-hset _ keys.requests request_id _ keys.lease,
          apart.requests,
          set_for-other redis json ttl_ms lease_ms ttl_pos lease_pos db keys.batch _ keys.lease
              ttl_ms ttl_pos apart.batch,
        )
        refl

  -- The lease is that of the writer.
  abbrev pub Held : Db → Type 0
  Held db = holds (get (read db keys.lease)) token ≡ true

  pub append_script-done :
      (message : Turn) (batch : Batch) (db : Db)
      → Held db
      → (m : Turn) × (b : Batch) × ((append_script redis json ttl_ms lease_ms keys request_id token
            message batch db).0
          ≡ append_ok m b)
        × Held (append_script redis json ttl_ms lease_ms keys request_id token message batch db).1
  unfolding append_script append_leased
  append_script-done message batch db held =
      rw held (_, _, refl, rw (append_leased-lease message batch db) held)

  pub save_script-done :
      (batch : Batch) (release : Bool) (db : Db)
      → Held db
      → (save_script redis json ttl_ms lease_ms keys request_id token batch release db).0 ≡ true
  unfolding save_script
  save_script-done batch release db held = rw held refl

  pub save_script-holds :
      (batch : Batch) (db : Db)
      → Held db
      → Held (save_script redis json ttl_ms lease_ms keys request_id token batch false db).1
  unfolding save_script
  save_script-holds batch db held = rw held (rw (save_leased-lease batch db) held)
