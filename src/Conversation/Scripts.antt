-- ===== src/Conversation/Scripts.antt =====
-- internal/conversation/structured_store.go: the Lua scripts, which the server runs as one step each.
pub mod Frame
pub mod Codec
pub mod Fencing
pub mod Held
pub mod Once
use anime_companion_ai.Prelude.{
  ℕ, ◌+◌, ◌≡◌, String, Bool, true, false, not, ◌&&◌, ◌++◌, Option, none, some, List, [], ◌∷◌,
  str_eq, if◌then◌else◌, length,
}
use anime_companion_ai.Prelude.Int.{ℤ, pos, negsuc}
use anime_companion_ai.Redis.{Redis}
use anime_companion_ai.Redis.Entries.{Entry, get, hget, exists, lrange_all}
use anime_companion_ai.Conversation.{Turn, Batch, batch_generating, batch_partial, batch_failed}

-- JSON, as Go and `cjson` write and read it. An empty list may be left out, which reads as empty.
pub record Json : Type 0 where
  pub encode_turn : Turn → String
  pub encode_batch : Batch → String
  pub decode_turn : String → Option Turn
  pub decode_batch : String → Option Batch
  pub decode_turn-encode_turn : (m : Turn) → decode_turn (encode_turn m) ≡ some m
  pub decode_batch-encode_batch : (b : Batch) → decode_batch (encode_batch b) ≡ some b

abbrev pub no_messages : List Turn → Bool
no_messages [] = true
no_messages (m ∷ ms) = false

-- The status of a batch whose generation was broken off.
unfoldable pub broken_status : List Turn → String
broken_status ms = if no_messages ms then batch_failed else batch_partial

abbrev pub interruption_code : String
interruption_code = "generation_interrupted"

unfoldable pub interrupt : Batch → Batch
unfolding broken_status
interrupt batch = record batch {
  status = broken_status batch.character_messages;
  interruption_code = interruption_code;
}

abbrev natural : ℤ → ℕ
natural (pos n) = n
natural (negsuc n) = 0

-- messages[#messages]['Sequence'] = sequence
abbrev pub number_last : ℕ → List Turn → List Turn
number_last sequence [] = []
number_last sequence (m ∷ []) = record m { sequence = sequence } ∷ []
number_last sequence (m ∷ n ∷ ms) = m ∷ number_last sequence (n ∷ ms)

-- The keys of a conversation, as the scripts are given them.
pub record Keys : Type 0 where
  pub messages : String
  pub sequence : String
  pub requests : String
  pub previous_requests : String
  pub lease : String
  pub batch : String
  pub active : String

pub data BeginReply : Type 0 where
  begin_existing begin_started : Batch → BeginReply
  begin_busy script_error : BeginReply

pub data AppendReply : Type 0 where
  append_ok : Turn → Batch → AppendReply
  append_lease_lost append_error : AppendReply

pub data InterruptReply : Type 0 where
  interrupt_ok : String → InterruptReply
  interrupt_lease_lost interrupt_missing interrupt_error : InterruptReply

-- redis.call('GET', KEYS[1]) == ARGV[1]
abbrev pub holds : Option String → String → Bool
holds none token = false
holds (some held) token = str_eq held token

module _ (redis : Redis) (json : Json) (ttl_ms lease_ms : ℕ) where
  open redis use {Db, read, itoa, tonumber, set, del, incr, rpush, sadd, hset, pexpire}

  -- SET … PX …
  unfoldable pub set_for : Db → String → String → ℕ → Db
  set_for db key value ms = pexpire (set db key value) key ms

  -- What INCR answers.
  unfoldable pub sequence_of : Entry → ℕ
  sequence_of entry = elim (get entry) [ none ↦ 0 | some s ↦ natural (tonumber s) ]

  module _ (keys : Keys) (request_id token : String) where
    -- The batch as it is stored and answered, with the next number for the user's message.
    unfoldable pub begun_batch : Batch → Db → Batch
    unfolding set_for sequence_of
    begun_batch batch db =
        let db₁ = incr (set_for db keys.lease token lease_ms) keys.sequence in
        record batch {
          user_message = record batch.user_message {
            sequence = sequence_of (read db₁ keys.sequence);
          };
        }

    -- The end of `beginBatchScript`: a lease, the user's message and the batch.
    unfoldable pub begin_new : String → Batch → Db → Db
    unfolding set_for begun_batch
    begin_new member batch db =
        let begun = begun_batch batch db in
        let db₂ = incr (set_for db keys.lease token lease_ms) keys.sequence in
        let db₃ = rpush db₂ keys.messages (json.encode_turn begun.user_message) in
        let db₄ = set_for db₃ keys.batch (json.encode_batch begun) ttl_ms in
        let db₅ = hset db₄ keys.requests request_id (json.encode_batch begun) in
        let db₆ = sadd db₅ keys.active member in
        let db₇ = pexpire db₆ keys.messages ttl_ms in
        let db₈ = pexpire db₇ keys.sequence ttl_ms in
        let db₉ = pexpire db₈ keys.requests ttl_ms in pexpire db₉ keys.active ttl_ms

    -- A known request: a batch that is still generating, without a lease, was broken off.
    unfoldable pub refresh : Bool → Batch → Batch
    unfolding interrupt
    refresh leased batch =
        if str_eq batch.status batch_generating && not leased then interrupt batch else batch

    unfoldable pub begin_known : String → Option Batch → Db → BeginReply × Db
    unfolding refresh
    begin_known ledger none db = (script_error, db)
    begin_known ledger (some batch) db =
        let refreshed = refresh (exists (read db keys.lease)) batch in
        (begin_existing refreshed, hset db ledger request_id (json.encode_batch refreshed))

    unfoldable pub begin_case :
        Option String → Option String → String → Batch → Db → BeginReply × Db
    unfolding begin_known begun_batch begin_new
    begin_case (some known) earlier member batch db =
        begin_known keys.requests (json.decode_batch known) db
    begin_case none (some known) member batch db =
        begin_known keys.previous_requests (json.decode_batch known) db
    begin_case none none member batch db =
        if exists (read db keys.lease)
        then (begin_busy, db)
        else (begin_started (begun_batch batch db), begin_new member batch db)

    unfoldable pub begin_script : String → Batch → Db → BeginReply × Db
    unfolding begin_case
    begin_script member batch db =
        begin_case (hget (read db keys.requests) request_id)
          (hget (read db keys.previous_requests) request_id) member batch db

    -- `appendCharacterScript`
    unfoldable pub append_leased : Turn → Batch → Db → AppendReply × Db
    unfolding set_for sequence_of
    append_leased message batch db =
        let db₁ = incr db keys.sequence in
        let number = sequence_of (read db₁ keys.sequence) in
        let message' : Turn = record message { sequence = number } in
        let batch' : Batch = record batch {
          character_messages = number_last number batch.character_messages;
        } in
        let db₂ = rpush db₁ keys.messages (json.encode_turn message') in
        let db₃ = set_for db₂ keys.batch (json.encode_batch batch') ttl_ms in
        let db₄ = hset db₃ keys.requests request_id (json.encode_batch batch') in
        let db₅ = pexpire db₄ keys.messages ttl_ms in
        let db₆ = pexpire db₅ keys.requests ttl_ms in
        (append_ok message' batch', pexpire db₆ keys.lease lease_ms)

    unfoldable pub append_script : Turn → Batch → Db → AppendReply × Db
    unfolding append_leased
    append_script message batch db =
        if holds (get (read db keys.lease)) token
        then append_leased message batch db
        else (append_lease_lost, db)

    -- `saveBatchScript`; `true` is its answer 1.
    unfoldable pub save_leased : Batch → Bool → Db → Db
    unfolding set_for
    save_leased batch release db =
        let db₁ = set_for db keys.batch (json.encode_batch batch) ttl_ms in
        let db₂ = hset db₁ keys.requests request_id (json.encode_batch batch) in
        let db₃ = pexpire db₂ keys.requests ttl_ms in
        if release then del db₃ keys.lease else pexpire db₃ keys.lease lease_ms

    unfoldable pub save_script : Batch → Bool → Db → Bool × Db
    unfolding save_leased
    save_script batch release db =
        if holds (get (read db keys.lease)) token
        then (true, save_leased batch release db)
        else (false, db)

    -- `interruptBatchScript`, on the batch that was found.
    unfoldable pub interrupt_found : ℕ → String → Option Batch → Db → InterruptReply × Db
    unfolding interrupt set_for
    interrupt_found now encoded none db = (interrupt_error, db)
    interrupt_found now encoded (some batch) db =
        let broken = json.encode_batch (record (interrupt batch) { updated_at = now }) in
        let db₁ = set_for db keys.batch broken ttl_ms in
        let db₂ = hset db₁ keys.requests request_id broken in
        let db₃ = pexpire db₂ keys.requests ttl_ms in
        if str_eq batch.status batch_generating
        then (interrupt_ok broken, del db₃ keys.lease)
        else (interrupt_ok encoded, del db keys.lease)

    unfoldable pub interrupt_case : ℕ → Option String → Option String → Db → InterruptReply × Db
    unfolding interrupt_found
    interrupt_case now (some encoded) known db =
        interrupt_found now encoded (json.decode_batch encoded) db
    interrupt_case now none (some encoded) db =
        interrupt_found now encoded (json.decode_batch encoded) db
    interrupt_case now none none db = (interrupt_missing, db)

    unfoldable pub interrupt_script : ℕ → Db → InterruptReply × Db
    unfolding interrupt_case
    interrupt_script now db =
        let found =
          interrupt_case now (get (read db keys.batch)) (hget (read db keys.requests) request_id)
            db in
        if holds (get (read db keys.lease)) token then found else (interrupt_lease_lost, db)

  -- `migrateLegacyScript`
  unfoldable pub rpush_all : String → List String → Db → Db
  rpush_all key [] db = db
  rpush_all key (value ∷ values) db = rpush_all key values (rpush db key value)

  unfoldable pub migrate_script : String → String → String → Db → Db
  unfolding rpush_all
  migrate_script turns messages sequence db =
      let legacy = lrange_all (read db turns) in
      let current = lrange_all (read db messages) in
      let db₁ = rpush_all messages current (rpush_all messages legacy (del db messages)) in
      let db₂ = set (del db₁ turns) sequence (itoa (pos (length legacy + length current))) in
      if exists (read db turns) then pexpire (pexpire db₂ messages ttl_ms) sequence ttl_ms else db
