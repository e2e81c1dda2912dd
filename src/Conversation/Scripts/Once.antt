-- ===== src/Conversation/Scripts/Once.antt =====
-- internal/conversation/structured_store.go: a request that is sent again.
use anime_companion_ai.Prelude.{
  ℕ, ◌<◌, String, ◌≡◌, refl, ap, ◌∙◌, true, false, Option, none, some, str_eq, arith,
}
use anime_companion_ai.Redis.{Redis}
use anime_companion_ai.Redis.Entries.{hget, exists}
use anime_companion_ai.Redis.Hashes.{IsHash}
use anime_companion_ai.Conversation.{Batch}
use anime_companion_ai.Conversation.Scripts.{
  Json, Keys, BeginReply, begin_existing, begun_batch, begin_new, refresh, begin_known, begin_case,
  begin_script,
}
use anime_companion_ai.Conversation.Scripts.Frame.{AreDistinct, begin_new-lease, begin_new-requests}

module _ (redis : Redis) (json : Json) (ttl_ms lease_ms : ℕ) where
  open redis use {Db, read, hset, read-hset}

  -- The answer is `batch`, and at most the ledger of requests is written.
  pub record Answers (keys : Keys) (batch : Batch) (db : Db) (r : BeginReply × Db) : Type 0 where
    pub reply : r.0 ≡ begin_existing batch
    pub frame : (j : String) → str_eq keys.requests j ≡ false → read r.1 j ≡ read db j

  refresh-leased :
      (keys : Keys) (request_id token : String) (batch : Batch)
      → refresh redis json ttl_ms lease_ms keys request_id token true batch ≡ batch
  unfolding refresh
  refresh-leased keys request_id token batch = ground arith

  begin_known-Answers :
      (keys : Keys) (request_id token : String) (found : Option Batch) (batch : Batch) (db : Db)
      → found ≡ some batch
      → exists (read db keys.lease) ≡ true
      → Answers keys batch db
          (begin_known redis json ttl_ms lease_ms keys request_id token keys.requests found db)
  unfolding begin_known
  begin_known-Answers keys request_id token none batch db e h =
      absurd (let impossible : none ≡ some batch = e in cc)
  begin_known-Answers keys request_id token (some found) batch db e h = record {
    reply =
        rw (h, refresh-leased keys request_id token found)
          (let same : found ≡ batch = cc in ap begin_existing same);
    frame = λ j other. rw (read-hset db keys.requests request_id _ j, other) refl;
  }

  begin_case-Answers :
      (keys : Keys) (request_id token : String) (known earlier : Option String) (member : String)
      (fresh batch : Batch) (db : Db)
      → known ≡ some (json.encode_batch batch)
      → exists (read db keys.lease) ≡ true
      → Answers keys batch db (
          begin_case redis json ttl_ms lease_ms keys request_id token known earlier member fresh db)
  unfolding begin_case
  begin_case-Answers keys request_id token none earlier member fresh batch db e h =
      absurd (let impossible : none ≡ some (json.encode_batch batch) = e in cc)
  begin_case-Answers keys request_id token (some known) earlier member fresh batch db e h =
      begin_known-Answers keys request_id token (json.decode_batch known) batch db
        (let same : known ≡ json.encode_batch batch = cc in
          ap json.decode_batch same ∙ json.decode_batch-encode_batch batch)
        h

  begin_script-Answers :
      (keys : Keys) (request_id token member : String) (fresh batch : Batch) (db : Db)
      → hget (read db keys.requests) request_id ≡ some (json.encode_batch batch)
      → exists (read db keys.lease) ≡ true
      → Answers keys batch db
          (begin_script redis json ttl_ms lease_ms keys request_id token member fresh db)
  unfolding begin_script
  begin_script-Answers keys request_id token member fresh batch db e h =
      begin_case-Answers keys request_id token (hget (read db keys.requests) request_id)
        (hget (read db keys.previous_requests) request_id) member fresh batch db e h

  -- The lifetimes are positive, the keys differ, and the ledger of requests is a hash or not there.
  -- If a request that has just begun a batch is sent again, before another call for the conversation and
  -- on the same day, so that the ledger and the lease are the same, but with whatever new batch, key of
  -- it, member and lease token: the answer is the batch that was begun, and no key but the ledger of
  -- requests is written, no second message of the user, no other lease, no further number.
  pub begin_script-once :
      0 < ttl_ms
      → 0 < lease_ms
      → (keys : Keys) → AreDistinct keys
      → (request_id token member : String) (batch : Batch) (db : Db)
      → IsHash (read db keys.requests)
      → (keys' : Keys) → keys'.requests ≡ keys.requests
      → keys'.lease ≡ keys.lease
      → (token' member' : String) (batch' : Batch)
      → Answers keys'
          (begun_batch redis json ttl_ms lease_ms keys request_id token batch db)
          (begin_new redis json ttl_ms lease_ms keys request_id token member batch db)
          (begin_script redis json ttl_ms lease_ms keys' request_id token' member' batch'
            (begin_new redis json ttl_ms lease_ms keys request_id token member batch db))
  begin_script-once p q keys d request_id token member batch db h keys' ledger shared token' member'
        batch' =
      begin_script-Answers keys' request_id token' member' batch' _ _
        (rw ledger (
          begin_new-requests redis json ttl_ms lease_ms p q keys request_id token member batch db d
            h))
        (rw
          (
            shared,
            begin_new-lease redis json ttl_ms lease_ms p q keys request_id token member batch db d,
          )
          refl)
