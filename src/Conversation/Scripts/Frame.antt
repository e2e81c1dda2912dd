-- ===== src/Conversation/Scripts/Frame.antt =====
-- What a fresh batch leaves at its keys, and what it leaves alone.
use anime_companion_ai.Prelude.{ℕ, ◌<◌, String, ◌≡◌, refl, ◌∙◌, false, some, str_eq, eq_refl}
use anime_companion_ai.Redis.{Redis}
use anime_companion_ai.Redis.Entries.{text, hget}
use anime_companion_ai.Redis.Hashes.{IsHash, hget-hset}
use anime_companion_ai.Conversation.{Batch}
use anime_companion_ai.Conversation.Scripts.{Json, Keys, set_for, begun_batch, begin_new}

-- `k` is none of the other keys that a fresh batch writes.
pub record Apart (k a b c d e : String) : Type 0 where
  pub first : str_eq a k ≡ false
  pub second : str_eq b k ≡ false
  pub third : str_eq c k ≡ false
  pub fourth : str_eq d k ≡ false
  pub fifth : str_eq e k ≡ false

-- The keys differ, as they do in the program, where they end in different words.
pub record AreDistinct (keys : Keys) : Type 0 where
  pub lease : Apart keys.lease keys.sequence keys.messages keys.batch keys.requests keys.active
  pub requests : Apart keys.requests keys.lease keys.sequence keys.messages keys.batch keys.active

module _ (redis : Redis) (json : Json) (ttl_ms lease_ms : ℕ) (ttl_pos : 0 < ttl_ms)
    (lease_pos : 0 < lease_ms) where
  open redis use {
    Db, read, set, incr, rpush, sadd, hset, pexpire, read-set, read-incr, read-rpush, read-sadd,
    read-hset, read-pexpire,
  }

  pub set_for-other :
      (db : Db) (k v j : String) (ms : ℕ)
      → 0 < ms
      → str_eq k j ≡ false
      → read (set_for redis json ttl_ms lease_ms db k v ms) j ≡ read db j
  unfolding set_for
  set_for-other db k v j ms p h = rw (read-pexpire (set db k v) k ms j p, read-set db k v j, h) refl

  pub set_for-same :
      (db : Db) (k v : String) (ms : ℕ)
      → 0 < ms
      → read (set_for redis json ttl_ms lease_ms db k v ms) k ≡ text v
  unfolding set_for
  set_for-same db k v ms p =
      rw (read-pexpire (set db k v) k ms k p, read-set db k v k, eq_refl k) refl

  module _ (keys : Keys) (request_id token member : String) (batch : Batch) (db : Db) where
    abbrev begun : Batch
    begun = begun_batch redis json ttl_ms lease_ms keys request_id token batch db

    abbrev stored : Db
    stored =
        set_for redis json ttl_ms lease_ms
          (rpush
            (incr (set_for redis json ttl_ms lease_ms db keys.lease token lease_ms) keys.sequence)
            keys.messages (json.encode_turn begun.user_message))
          keys.batch (json.encode_batch begun) ttl_ms

    abbrev entered : Db
    entered = hset stored keys.requests request_id (json.encode_batch begun)

    -- The four lifetimes and the active set, at another key.
    begin_new-entered :
        (j : String)
        → str_eq keys.active j ≡ false
        → read (begin_new redis json ttl_ms lease_ms keys request_id token member batch db) j
          ≡ read entered j
    unfolding begin_new
    begin_new-entered j h =
        rw
          (
            read-pexpire _ keys.active ttl_ms j ttl_pos,
            read-pexpire _ keys.requests ttl_ms j ttl_pos,
            read-pexpire _ keys.sequence ttl_ms j ttl_pos,
            read-pexpire _ keys.messages ttl_ms j ttl_pos,
            read-sadd entered keys.active member j,
            h,
          )
          refl

    -- The new lease is that of `token`.
    pub begin_new-lease :
        AreDistinct keys
        → read
            (begin_new redis json ttl_ms lease_ms keys request_id token member batch db)
            keys.lease
          ≡ text token
    begin_new-lease d =
        let a = d.lease in
        begin_new-entered keys.lease a.fifth
        ∙ rw
            (
              read-hset stored keys.requests request_id (json.encode_batch begun) keys.lease,
              a.fourth,
              set_for-other _ keys.batch (json.encode_batch begun) keys.lease ttl_ms ttl_pos
                  a.third,
              read-rpush _ keys.messages (json.encode_turn begun.user_message) keys.lease,
              a.second,
              read-incr (set_for redis json ttl_ms lease_ms db keys.lease token lease_ms)
                  keys.sequence keys.lease,
              a.first,
            )
            (set_for-same db keys.lease token lease_ms lease_pos)

    -- The ledger of requests knows the batch.
    pub begin_new-requests :
        AreDistinct keys
        → IsHash (read db keys.requests)
        → hget
            (read
              (begin_new redis json ttl_ms lease_ms keys request_id token member batch db)
              keys.requests)
            request_id
          ≡ some (json.encode_batch begun)
    begin_new-requests d h =
        let a = d.requests in
        let before : read stored keys.requests ≡ read db keys.requests =
          rw
            (
              set_for-other _ keys.batch (json.encode_batch begun) keys.requests ttl_ms ttl_pos
                  a.fourth,
              read-rpush _ keys.messages (json.encode_turn begun.user_message) keys.requests,
              a.third,
              read-incr (set_for redis json ttl_ms lease_ms db keys.lease token lease_ms)
                  keys.sequence keys.requests,
              a.second,
            )
            (set_for-other db keys.lease token keys.requests lease_ms lease_pos a.first) in
        rw
          (
            begin_new-entered keys.requests a.fifth,
            read-hset stored keys.requests request_id (json.encode_batch begun) keys.requests,
            eq_refl keys.requests,
            before,
          )
          (hget-hset request_id (json.encode_batch begun) (read db keys.requests) h)
