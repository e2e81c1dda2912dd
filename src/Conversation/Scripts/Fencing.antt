-- ===== src/Conversation/Scripts/Fencing.antt =====
-- internal/conversation/structured_store.go: a writer that has lost its lease.
use anime_companion_ai.Prelude.{ℕ, ◌<◌, String, ◌≡◌, refl, Bool, false, str_eq}
use anime_companion_ai.Redis.{Redis}
use anime_companion_ai.Redis.Entries.{get}
use anime_companion_ai.Conversation.{Turn, Batch}
use anime_companion_ai.Conversation.Scripts.{
  Json, Keys, holds, append_lease_lost, interrupt_lease_lost, begin_new, append_script, save_script,
  interrupt_script,
}
use anime_companion_ai.Conversation.Scripts.Frame.{AreDistinct, begin_new-lease}

module _ (redis : Redis) (json : Json) (ttl_ms lease_ms : ℕ) where
  open redis use {Db, read}

  -- What the three scripts of a writer do without its lease.
  pub record IsFenced (keys : Keys) (token : String) (db : Db) : Type 0 where
    pub append_refused :
        (request_id : String) (message : Turn) (batch : Batch)
        → append_script redis json ttl_ms lease_ms keys request_id token message batch db
          ≡ (append_lease_lost, db)
    pub save_refused :
        (request_id : String) (batch : Batch) (release : Bool)
        → save_script redis json ttl_ms lease_ms keys request_id token batch release db
          ≡ (false, db)
    pub interrupt_refused :
        (request_id : String) (now : ℕ)
        → interrupt_script redis json ttl_ms lease_ms keys request_id token now db
          ≡ (interrupt_lease_lost, db)

  without_lease-IsFenced :
      (keys : Keys) (token : String) (db : Db)
      → holds (get (read db keys.lease)) token ≡ false
      → IsFenced keys token db
  unfolding append_script save_script interrupt_script
  without_lease-IsFenced keys token db h = record {
    append_refused = λ request_id message batch. rw h refl;
    save_refused = λ request_id batch release. rw h refl;
    interrupt_refused = λ request_id now. rw h refl;
  }

  -- The lifetimes are positive and the keys of the new batch differ. Right after a batch has been begun,
  -- the three scripts of a writer of the same conversation with another token, for its own batch, day
  -- and request, that is with any keys that share the lease, report the lost lease and leave the server
  -- as it is.
  pub begin_new-IsFenced :
      0 < ttl_ms
      → 0 < lease_ms
      → (keys : Keys) → AreDistinct keys
      → (request_id token member : String) (batch : Batch) (db : Db) (stale : String)
      → str_eq token stale ≡ false
      → (keys' : Keys) → keys'.lease ≡ keys.lease
      → IsFenced keys' stale
          (begin_new redis json ttl_ms lease_ms keys request_id token member batch db)
  begin_new-IsFenced p q keys d request_id token member batch db stale other keys' shared =
      without_lease-IsFenced keys' stale _ (
        rw
          (
            shared,
            begin_new-lease redis json ttl_ms lease_ms p q keys request_id token member batch db d,
          )
          other)
