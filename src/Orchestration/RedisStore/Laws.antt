-- ===== src/Orchestration/RedisStore/Laws.antt =====
-- internal/conversation/structured_store.go keeps what internal/orchestration relies on.
use anime_companion_ai.Prelude.{
  ℕ, String, ◌≡◌, refl, Bool, none, some, List, [], ◌∷◌, ◌++◌, Result, ok, err,
}
use anime_companion_ai.Redis.{Redis}
use anime_companion_ai.Conversation.{Scope, Turn, Batch}
use anime_companion_ai.Conversation.Scripts.{Json}
use anime_companion_ai.Conversation.Structured.{BatchError, append_character, save_batch}
use anime_companion_ai.Conversation.Structured.Appending.{append_character-adds}
use anime_companion_ai.Persona.Registry.{Character}
use anime_companion_ai.Orchestration.RedisStore.{
  Environment, World, redis_store, result_error, store_error, store_save, store_append,
}
use anime_companion_ai.Orchestration.Send.Outcome.{StoreLaws}

result_ok : (r : Result BatchError Turn) → result_error r ≡ none → (m : Turn) × (r ≡ ok m)
result_ok (ok m) e = (m, refl)
result_ok (err x) e = absurd (let impossible : some (store_error x) ≡ none = e in cc)

module _ (redis : Redis) (json : Json) (format_date : ℕ → String) (sort : List String → List String)
    (prefix : String) (ttl_ms lease_ms : ℕ) (environment : Environment) where
  open environment use {link, time, hex}

  append_adds :
      (scope : Scope) (batch : Batch) (lease : String) (character : Character) (text : String)
      (w : World redis json format_date sort prefix ttl_ms lease_ms environment)
      → (store_append redis json format_date sort prefix ttl_ms lease_ms environment scope batch
          lease character text w).0.error
        ≡ none
      → (m : Turn) × (t : ℕ) × ((store_append redis json format_date sort prefix ttl_ms lease_ms
            environment scope batch lease character text w).0.batch
          ≡ record batch {
            character_messages = batch.character_messages ++ m ∷ [];
            updated_at = t;
          })
        × (m.speaker_id ≡ character.id)
        × (m.content ≡ text)
  unfolding store_append
  append_adds scope batch lease character text w e =
      let r =
        append_character redis json format_date sort prefix ttl_ms lease_ms (link w.tick 0) scope
          batch lease character.id character.display_name character.avatar_url text (hex w.tick 0)
          (time w.tick) w.db in
      let (m, fine) = result_ok r.0.1 e in
      let (added, same, by, content) =
        append_character-adds redis json format_date sort prefix ttl_ms lease_ms (link w.tick 0)
          scope batch lease character.id character.display_name character.avatar_url text
          (hex w.tick 0) (time w.tick) w.db m fine in
      (added, time w.tick, same, by, content)

  save_keeps :
      (scope : Scope) (batch : Batch) (lease : String) (release : Bool)
      (w : World redis json format_date sort prefix ttl_ms lease_ms environment)
      → (t : ℕ) × ((store_save redis json format_date sort prefix ttl_ms lease_ms environment scope
            batch lease release w).0.batch
          ≡ record batch { updated_at = t })
  unfolding store_save save_batch
  save_keeps scope batch lease release w = (time w.tick, refl)

  -- The store in Redis keeps the laws that `Send` relies on, whatever calls are lost: a save that
  -- succeeds changes nothing but the time of the batch, and an append that succeeds adds one message of
  -- the character with the text.
  pub redis_store-StoreLaws :
      StoreLaws (redis_store redis json format_date sort prefix ttl_ms lease_ms environment)
  redis_store-StoreLaws = record {
    save_keeps = λ scope batch lease release w e. save_keeps scope batch lease release w;
    append_adds = append_adds;
  }
