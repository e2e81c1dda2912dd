-- ===== src/Conversation/Structured.antt =====
-- internal/conversation/structured_store.go: the operations of `RedisStore` on batches.
pub mod Appending
use Prim.Native.String.{◌++◌}
use anime_companion_ai.Prelude.{
  ℕ, ◌-◌, String, Bool, true, false, Option, none, some, List, [], ◌∷◌, str_eq, if◌then◌else◌,
  Result, ok, err,
}
use mathlib.Core.List.{◌++◌ as append}
use anime_companion_ai.Redis.{Redis}
use anime_companion_ai.Redis.Entries.{exists, lrange_all, smembers}
use anime_companion_ai.Redis.Link.{Link, call}
use anime_companion_ai.Conversation.{
  Scope, Turn, Batch, BeginState, started, existing, role_user, role_assistant, speaker_user,
  speaker_character, batch_generating, default_conversation_id, beijing_day,
}
use anime_companion_ai.Conversation.Keys.{
  messages_key, sequence_key, requests_key, batch_key, lease_key, active_scopes_key, turns_key,
  active_key, active_member, active_scope_member,
}
use anime_companion_ai.Conversation.Messages.{
  read_messages, distinct_scopes, active_identities, legacy_members,
}
use anime_companion_ai.Conversation.Scripts.{
  Json, Keys, BeginReply, begin_existing, begin_started, begin_busy, script_error, AppendReply,
  append_ok, append_lease_lost, append_error, InterruptReply, interrupt_ok, interrupt_lease_lost,
  interrupt_missing, interrupt_error, begin_script, append_script, save_script, interrupt_script,
  migrate_script,
}

-- `ErrConversationBusy`, `ErrLeaseLost`, and any other error.
pub data BatchError : Type 0 where
  conversation_busy lease_lost unavailable : BatchError

pub record BeginResult : Type 0 where
  pub batch : Batch
  pub state : BeginState
  pub lease_token : String

-- The store: `format_date` writes a Beijing day, `sort` is `sort.Strings`.
module _ (redis : Redis) (json : Json) (format_date : ℕ → String) (sort : List String → List String)
    (prefix : String) (ttl_ms lease_ms : ℕ) where
  open redis use {Db, read, del, srem}

  unfoldable pub keys_of : Scope → ℕ → String → Keys
  unfolding messages_key sequence_key requests_key batch_key lease_key active_scopes_key
  keys_of scope day batch_id = record {
    messages = messages_key format_date prefix scope day;
    sequence = sequence_key format_date prefix scope day;
    requests = requests_key format_date prefix scope day;
    previous_requests = requests_key format_date prefix scope (day - 1);
    lease = lease_key format_date prefix scope;
    batch = batch_key format_date prefix scope batch_id;
    active = active_scopes_key format_date prefix day;
  }

  -- `migrateLegacyScope`; `none` is its error.
  unfoldable pub migrate_legacy_scope : Link → Scope → ℕ → Db → Option (Unit {0}) × Db
  unfolding call migrate_script turns_key messages_key sequence_key
  migrate_legacy_scope link scope day db =
      let script =
        migrate_script redis json ttl_ms lease_ms (turns_key format_date prefix scope.identity day)
          (messages_key format_date prefix scope day) (sequence_key format_date prefix scope day) in
      if str_eq scope.conversation_id default_conversation_id
      then call link (λ d. (tt, script d)) db
      else (some tt, db)

  unfoldable pub begun_result : String → Option BeginReply → Result BatchError BeginResult
  begun_result token none = err unavailable
  begun_result token (some begin_busy) = err conversation_busy
  begun_result token (some script_error) = err unavailable
  begun_result token (some (begin_existing batch)) =
      ok (record { batch = batch; state = existing; lease_token = "" })
  begun_result token (some (begin_started batch)) =
      ok (record { batch = batch; state = started; lease_token = token })

  unfoldable pub new_batch : Scope → String → String → String → String → ℕ → Batch
  new_batch scope request_id content batch_hex turn_hex now = record {
    batch_id = "batch-" ++ batch_hex;
    client_request_id = request_id;
    conversation_id = scope.conversation_id;
    planned_speaker_ids = [];
    user_message = record {
      turn_id = "turn-" ++ turn_hex;
      role = role_user;
      content = content;
      created_at = now;
      conversation_id = scope.conversation_id;
      speaker_kind = speaker_user;
      speaker_id = speaker_user;
      batch_id = "batch-" ++ batch_hex;
      sequence = 0;
      display_name = "你";
      avatar_url = "";
    };
    character_messages = [];
    status = batch_generating;
    interruption_code = "";
    created_at = now;
    updated_at = now;
  }

  -- `BeginBatch`; `batch_hex`, `turn_hex` and `token` are what `newTurnID` draws, and `link` and
  -- `link'` the calls of the migration and of the script.
  module _ (link link' : Link) where
    begin_batch_migrated :
        Scope
        → String
        → Batch
        → String
        → ℕ
        → Option (Unit {0}) × Db
        → Result BatchError BeginResult × Db
    unfolding begun_result call begin_script keys_of active_scope_member
    begin_batch_migrated scope request_id batch token now (none, db) = (err unavailable, db)
    begin_batch_migrated scope request_id batch token now (some done, db) =
        let (reply, db') =
          call link'
            (begin_script redis json ttl_ms lease_ms
              (keys_of scope (beijing_day now) batch.batch_id) request_id token
              (active_scope_member scope) batch)
            db in
        (begun_result token reply, db')

    unfoldable pub begin_batch :
        Scope
        → String
        → String
        → String
        → String
        → String
        → ℕ
        → Db
        → Result BatchError BeginResult × Db
    unfolding begin_batch_migrated migrate_legacy_scope new_batch
    begin_batch scope request_id content batch_hex turn_hex token now db =
        begin_batch_migrated scope request_id
          (new_batch scope request_id content batch_hex turn_hex now) token now
          (migrate_legacy_scope link scope (beijing_day now) db)

  unfoldable pub appended : Batch → Option AppendReply → Batch × Result BatchError Turn
  appended batch none = (batch, err unavailable)
  appended batch (some append_error) = (batch, err unavailable)
  appended batch (some append_lease_lost) = (batch, err lease_lost)
  appended batch (some (append_ok message batch')) = (batch', ok message)

  -- `AppendCharacter`, with the caller's batch as it leaves it.
  unfoldable pub append_character :
      Link
      → Scope
      → Batch
      → String
      → String
      → String
      → String
      → String
      → String
      → ℕ
      → Db
      → (Batch × Result BatchError Turn) × Db
  unfolding appended call append_script keys_of
  append_character link scope batch token speaker_id display_name avatar_url content turn_hex now
        db =
      let message : Turn = record {
        turn_id = "turn-" ++ turn_hex;
        role = role_assistant;
        content = content;
        created_at = now;
        conversation_id = scope.conversation_id;
        speaker_kind = speaker_character;
        speaker_id = speaker_id;
        batch_id = batch.batch_id;
        sequence = 0;
        display_name = display_name;
        avatar_url = avatar_url;
      } in
      let batch' : Batch = record batch {
        character_messages = append batch.character_messages (message ∷ []);
        updated_at = now;
      } in
      let (reply, db') =
        call link
          (append_script redis json ttl_ms lease_ms
            (keys_of scope (beijing_day batch.created_at) batch.batch_id) batch.client_request_id
            token message batch')
          db in
      (appended batch' reply, db')

  unfoldable pub saved : Option Bool → Option BatchError
  saved none = some unavailable
  saved (some true) = none
  saved (some false) = some lease_lost

  -- `SaveBatch`
  unfoldable pub save_batch :
      Link → Scope → Batch → String → Bool → ℕ → Db → (Batch × Option BatchError) × Db
  unfolding saved call save_script keys_of
  save_batch link scope batch token release now db =
      let batch' = record batch { updated_at = now } in
      let (reply, db') =
        call link
          (save_script redis json ttl_ms lease_ms
            (keys_of scope (beijing_day batch.created_at) batch.batch_id) batch.client_request_id
            token batch' release)
          db in
      ((batch', saved reply), db')

  unfoldable pub interrupted : Option InterruptReply → Result BatchError Batch
  interrupted none = err unavailable
  interrupted (some interrupt_error) = err unavailable
  interrupted (some interrupt_lease_lost) = err lease_lost
  interrupted (some interrupt_missing) = err lease_lost
  interrupted (some (interrupt_ok encoded)) = elim (json.decode_batch encoded) [
    | none ↦ err unavailable
    | some batch ↦ ok batch
  ]

  -- `InterruptBatch`
  unfoldable pub interrupt_batch :
      Link → Scope → String → String → String → ℕ → ℕ → Db → Result BatchError Batch × Db
  unfolding interrupted call interrupt_script keys_of
  interrupt_batch link scope batch_id request_id token created_at now db =
      let (reply, db') =
        call link
          (interrupt_script redis json ttl_ms lease_ms
            (keys_of scope (beijing_day created_at) batch_id) request_id token now)
          db in
      (interrupted reply, db')
