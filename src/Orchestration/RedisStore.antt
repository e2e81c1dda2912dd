-- ===== src/Orchestration/RedisStore.antt =====
-- internal/conversation: `RedisStore` as the store of the application, which internal/orchestration
-- calls as `a.store`.
pub mod Laws
pub mod Lease
pub mod Writes
pub mod Tests
use anime_companion_ai.Prelude.{ℕ, suc, String, Bool, Option, none, some, List, Result, ok, err}
use anime_companion_ai.Redis.{Redis}
use anime_companion_ai.Redis.Link.{Link}
use anime_companion_ai.Conversation.{Scope, Turn, Batch, BeginState, started, existing, beijing_day}
use anime_companion_ai.Conversation.Scripts.{Json}
use anime_companion_ai.Conversation.Structured.{
  BatchError, conversation_busy, lease_lost, unavailable, BeginResult, begin_batch,
  append_character, save_batch, interrupt_batch,
}
use anime_companion_ai.Conversation.Days.{messages_for_date_scope, clear_scope_today}
use anime_companion_ai.Persona.Registry.{Character}
use anime_companion_ai.Orchestration.Store
use anime_companion_ai.Orchestration.Store.{
  Store, StoreError, Begun, begin_failed, begin_existing, begin_started, Written,
}

abbrev pub store_error : BatchError → StoreError
store_error conversation_busy = StoreError.conversation_busy
store_error lease_lost = StoreError.lease_lost
store_error unavailable = StoreError.unavailable

abbrev pub store_error? : Option BatchError → Option StoreError
store_error? none = none
store_error? (some e) = some (store_error e)

abbrev begun_state : BeginState → Batch → String → Begun
begun_state started batch token = begin_started batch token
begun_state existing batch token = begin_existing batch

abbrev pub begun : Result BatchError BeginResult → Begun
begun (err e) = begin_failed (store_error e)
begun (ok r) = begun_state r.state r.batch r.lease_token

abbrev pub result_error : Result BatchError Turn → Option StoreError
result_error (ok message) = none
result_error (err e) = some (store_error e)

abbrev pub to_option : Result BatchError Batch → Option Batch
to_option (ok batch) = some batch
to_option (err e) = none

-- What the calls meet, by the number of the operation: the fate of each call of the server, the time,
-- and the names that are drawn.
pub record Environment : Type 0 where
  pub link : ℕ → ℕ → Link
  pub time : ℕ → ℕ
  pub hex : ℕ → ℕ → String

module _ (redis : Redis) (json : Json) (format_date : ℕ → String) (sort : List String → List String)
    (prefix : String) (ttl_ms lease_ms : ℕ) (environment : Environment) where
  open redis use {Db}
  open environment use {link, time, hex}

  -- The database and the number of the next operation.
  pub record World : Type 0 where
    pub db : Db
    pub tick : ℕ

  abbrev after : Db → World → World
  after db w = record { db = db; tick = suc w.tick }

  unfoldable pub store_messages : Scope → World → Option (List Turn) × World
  unfolding messages_for_date_scope
  store_messages scope w =
      let (read, db) =
        messages_for_date_scope redis json format_date sort prefix ttl_ms lease_ms (link w.tick 0)
          (link w.tick 1) scope (beijing_day (time w.tick)) w.db in
      (read, after db w)

  unfoldable pub store_begin : Scope → String → String → World → Begun × World
  unfolding begin_batch
  store_begin scope request_id content w =
      let (r, db) =
        begin_batch redis json format_date sort prefix ttl_ms lease_ms (link w.tick 0)
          (link w.tick 1) scope request_id content (hex w.tick 0) (hex w.tick 1) (hex w.tick 2)
          (time w.tick) w.db in
      (begun r, after db w)

  unfoldable pub store_save : Scope → Batch → String → Bool → World → Written × World
  unfolding save_batch
  store_save scope batch lease release w =
      let ((batch', e), db) =
        save_batch redis json format_date sort prefix ttl_ms lease_ms (link w.tick 0) scope batch
          lease release (time w.tick) w.db in
      (record { batch = batch'; error = store_error? e }, after db w)

  unfoldable pub store_append :
      Scope → Batch → String → Character → String → World → Written × World
  unfolding append_character
  store_append scope batch lease character text w =
      let ((batch', r), db) =
        append_character redis json format_date sort prefix ttl_ms lease_ms (link w.tick 0) scope
          batch lease character.id character.display_name character.avatar_url text (hex w.tick 0)
          (time w.tick) w.db in
      (record { batch = batch'; error = result_error r }, after db w)

  unfoldable pub store_interrupt :
      Scope → String → String → String → ℕ → World → Option Batch × World
  unfolding interrupt_batch
  store_interrupt scope batch_id request_id lease created_at w =
      let (r, db) =
        interrupt_batch redis json format_date sort prefix ttl_ms lease_ms (link w.tick 0) scope
          batch_id request_id lease created_at (time w.tick) w.db in
      (to_option r, after db w)

  unfoldable pub store_clear : Scope → World → Option StoreError × World
  unfolding clear_scope_today
  store_clear scope w =
      let (e, db) =
        clear_scope_today redis json format_date sort prefix ttl_ms lease_ms (link w.tick 0)
          (link w.tick 1) (link w.tick 2) scope (time w.tick) w.db in
      (store_error? e, after db w)

  abbrev pub redis_store : Store
  redis_store = record {
    State = World;
    messages = store_messages;
    begin_batch = store_begin;
    save_batch = store_save;
    append_character = store_append;
    interrupt_batch = store_interrupt;
    clear_scope_today = store_clear;
  }
