-- ===== src/Orchestration/RedisStore/Writes.antt =====
-- internal/conversation/structured_store.go: which errors the writes of a batch report.
use anime_companion_ai.Prelude.{ℕ, String, ◌≢◌, Bool, true, false, Option, none, some, List}
use anime_companion_ai.Redis.{Redis}
use anime_companion_ai.Conversation.{Scope, Batch}
use anime_companion_ai.Conversation.Scripts.{
  Json, AppendReply, append_ok, append_lease_lost, append_error,
}
use anime_companion_ai.Conversation.Structured.{saved, appended, save_batch, append_character}
use anime_companion_ai.Persona.Registry.{Character}
use anime_companion_ai.Orchestration.Store.{conversation_busy, lease_lost, unavailable}
use anime_companion_ai.Orchestration.Send.WriteErrors.{WriteLaws}
use anime_companion_ai.Orchestration.RedisStore.{
  Environment, World, redis_store, result_error, store_error?, store_save, store_append,
}

lost_not_busy : some lease_lost ≢ some conversation_busy
lost_not_busy e = cc

unavailable_not_busy : some unavailable ≢ some conversation_busy
unavailable_not_busy e = cc

none_not_busy : none ≢ some conversation_busy
none_not_busy e = cc

module _ (redis : Redis) (json : Json) (format_date : ℕ → String) (sort : List String → List String)
    (prefix : String) (ttl_ms lease_ms : ℕ) where
  saved_not_busy :
      (reply : Option Bool)
      → store_error? (saved redis json format_date sort prefix ttl_ms lease_ms reply)
        ≢ some conversation_busy
  unfolding saved
  saved_not_busy none = unavailable_not_busy
  saved_not_busy (some true) = none_not_busy
  saved_not_busy (some false) = lost_not_busy

  appended_not_busy :
      (batch : Batch) (reply : Option AppendReply)
      → result_error (appended redis json format_date sort prefix ttl_ms lease_ms batch reply).1
        ≢ some conversation_busy
  unfolding appended
  appended_not_busy batch none = unavailable_not_busy
  appended_not_busy batch (some append_error) = unavailable_not_busy
  appended_not_busy batch (some append_lease_lost) = lost_not_busy
  appended_not_busy batch (some (append_ok m b)) = none_not_busy

  module _ (environment : Environment) where
    save_not_busy :
        (scope : Scope) (batch : Batch) (lease : String) (release : Bool)
        (w : World redis json format_date sort prefix ttl_ms lease_ms environment)
        → (store_save redis json format_date sort prefix ttl_ms lease_ms environment scope batch
            lease release w).0.error
          ≢ some conversation_busy
    unfolding store_save save_batch
    save_not_busy scope batch lease release w = saved_not_busy _

    append_not_busy :
        (scope : Scope) (batch : Batch) (lease : String) (character : Character) (text : String)
        (w : World redis json format_date sort prefix ttl_ms lease_ms environment)
        → (store_append redis json format_date sort prefix ttl_ms lease_ms environment scope batch
            lease character text w).0.error
          ≢ some conversation_busy
    unfolding store_append append_character
    append_not_busy scope batch lease character text w = appended_not_busy _ _

    -- The writes of the store in Redis report a lost lease or another error, but never that the
    -- conversation is busy.
    pub redis_store-WriteLaws :
        WriteLaws (redis_store redis json format_date sort prefix ttl_ms lease_ms environment)
    redis_store-WriteLaws = record {
      save_not_busy = save_not_busy;
      append_not_busy = append_not_busy;
    }
