-- ===== src/Orchestration/RedisStore/Lease.antt =====
-- internal/conversation/structured_store.go: a batch whose lease is held can be written.
use Prim.Native.String.{◌++◌}
use mathlib.Core.List.{◌++◌ as append}
use anime_companion_ai.Prelude.{ℕ, ◌<◌, String, ◌≡◌, refl, Bool, true, false, none, List, [], ◌∷◌}
use anime_companion_ai.Redis.{Redis}
use anime_companion_ai.Redis.Entries.{get}
use anime_companion_ai.Redis.Link.{answered, call}
use anime_companion_ai.Conversation.{
  Scope, Turn, Batch, beijing_day, role_assistant, speaker_character,
}
use anime_companion_ai.Conversation.Keys.{lease_key}
use anime_companion_ai.Conversation.Scripts.{Json, holds}
use anime_companion_ai.Conversation.Scripts.Held.{
  LeaseApart, append_script-done, save_script-done, save_script-holds,
}
use anime_companion_ai.Conversation.Structured.{
  keys_of, saved, appended, save_batch, append_character,
}
use anime_companion_ai.Persona.Registry.{Character}
use anime_companion_ai.Orchestration.RedisStore.{
  Environment, World, redis_store, store_save, store_append,
}
use anime_companion_ai.Orchestration.Send.Completion.{KeepsLease}

module _ (redis : Redis) (json : Json) (format_date : ℕ → String) (sort : List String → List String)
    (prefix : String) (ttl_ms lease_ms : ℕ) (environment : Environment) (ttl_pos : 0 < ttl_ms)
    (lease_pos : 0 < lease_ms) (arrives : (n k : ℕ) → environment.link n k ≡ answered)
    (scope : Scope) (lease : String)
    (apart : (day : ℕ) (batch_id : String)
      → LeaseApart
          (keys_of redis json format_date sort prefix ttl_ms lease_ms scope day batch_id)) where
  abbrev World' : Type 0
  World' = World redis json format_date sort prefix ttl_ms lease_ms environment

  -- The lease of the conversation is `lease`.
  abbrev pub Holds : World' → Type 0
  Holds w = holds (get (redis.read w.db (lease_key format_date prefix scope))) lease ≡ true

  save_done :
      (batch : Batch) (release : Bool) (w : World')
      → Holds w
      → (store_save redis json format_date sort prefix ttl_ms lease_ms environment scope batch lease
          release w).0.error
        ≡ none
  unfolding store_save save_batch call saved keys_of
  save_done batch release w held =
      let keys =
        keys_of redis json format_date sort prefix ttl_ms lease_ms scope
          (beijing_day batch.created_at) batch.batch_id in
      rw
        (
          arrives w.tick 0,
          save_script-done redis json ttl_ms lease_ms ttl_pos lease_pos keys
              (apart (beijing_day batch.created_at) batch.batch_id) batch.client_request_id lease
              (record batch { updated_at = environment.time w.tick }) release w.db held,
        )
        refl

  save_holds :
      (batch : Batch) (w : World')
      → Holds w
      → Holds
          (store_save redis json format_date sort prefix ttl_ms lease_ms environment scope batch
            lease false w).1
  unfolding store_save save_batch call keys_of
  save_holds batch w held =
      let keys =
        keys_of redis json format_date sort prefix ttl_ms lease_ms scope
          (beijing_day batch.created_at) batch.batch_id in
      rw (arrives w.tick 0) (
        save_script-holds redis json ttl_ms lease_ms ttl_pos lease_pos keys
          (apart (beijing_day batch.created_at) batch.batch_id) batch.client_request_id lease
          (record batch { updated_at = environment.time w.tick }) w.db held)

  -- The message of `AppendCharacter`, and the batch with it.
  abbrev message : Batch → Character → String → World' → Turn
  message batch character text w = record {
    turn_id = "turn-" ++ environment.hex w.tick 0;
    role = role_assistant;
    content = text;
    created_at = environment.time w.tick;
    conversation_id = scope.conversation_id;
    speaker_kind = speaker_character;
    speaker_id = character.id;
    batch_id = batch.batch_id;
    sequence = 0;
    display_name = character.display_name;
    avatar_url = character.avatar_url;
  }

  abbrev grown : Batch → Character → String → World' → Batch
  grown batch character text w = record batch {
    character_messages = append batch.character_messages (message batch character text w ∷ []);
    updated_at = environment.time w.tick;
  }

  append_done :
      (batch : Batch) (character : Character) (text : String) (w : World')
      → Holds w
      → (store_append redis json format_date sort prefix ttl_ms lease_ms environment scope batch
          lease character text w).0.error
        ≡ none
  unfolding store_append append_character call appended keys_of
  append_done batch character text w held =
      let keys =
        keys_of redis json format_date sort prefix ttl_ms lease_ms scope
          (beijing_day batch.created_at) batch.batch_id in
      let (m, b, done, kept) =
        append_script-done redis json ttl_ms lease_ms ttl_pos lease_pos keys
          (apart (beijing_day batch.created_at) batch.batch_id) batch.client_request_id lease
          (message batch character text w) (grown batch character text w) w.db held in
      rw (arrives w.tick 0, done) refl

  append_holds :
      (batch : Batch) (character : Character) (text : String) (w : World')
      → Holds w
      → Holds
          (store_append redis json format_date sort prefix ttl_ms lease_ms environment scope batch
            lease character text w).1
  unfolding store_append append_character call keys_of
  append_holds batch character text w held =
      let keys =
        keys_of redis json format_date sort prefix ttl_ms lease_ms scope
          (beijing_day batch.created_at) batch.batch_id in
      let (m, b, done, kept) =
        append_script-done redis json ttl_ms lease_ms ttl_pos lease_pos keys
          (apart (beijing_day batch.created_at) batch.batch_id) batch.client_request_id lease
          (message batch character text w) (grown batch character text w) w.db held in
      rw (arrives w.tick 0) kept

  -- If every call is answered, the lifetimes are positive and the keys of the conversation are not that
  -- of its lease, then the store in Redis writes a batch whose lease is held, and leaves it held.
  pub redis_store-KeepsLease :
      KeepsLease
        (redis_store redis json format_date sort prefix ttl_ms lease_ms environment)
        scope
        lease
        Holds
  redis_store-KeepsLease = record {
    save_done = save_done;
    save_holds = save_holds;
    append_done = append_done;
    append_holds = append_holds;
  }
