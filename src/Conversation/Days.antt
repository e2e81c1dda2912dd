-- ===== src/Conversation/Days.antt =====
-- internal/conversation/structured_store.go: the operations of `RedisStore` on the messages of a day and
-- on the scopes that are active on it.
use anime_companion_ai.Prelude.{
  ℕ, String, Bool, Option, none, some, List, [], str_eq, if◌then◌else◌,
}
use mathlib.Core.List.{◌++◌ as append}
use anime_companion_ai.Redis.{Redis}
use anime_companion_ai.Redis.Entries.{exists, lrange_all, smembers}
use anime_companion_ai.Redis.Link.{Link, call}
use anime_companion_ai.Conversation.{Scope, Turn, default_conversation_id, beijing_day}
use anime_companion_ai.Conversation.Keys.{
  messages_key, sequence_key, lease_key, active_scopes_key, active_key, active_member,
  active_scope_member,
}
use anime_companion_ai.Conversation.Messages.{
  read_messages, distinct_scopes, active_identities, legacy_members,
}
use anime_companion_ai.Conversation.Scripts.{Json}
use anime_companion_ai.Conversation.Structured.{
  BatchError, conversation_busy, unavailable, migrate_legacy_scope,
}

-- The store: `format_date` writes a Beijing day, `sort` is `sort.Strings`.
module _ (redis : Redis) (json : Json) (format_date : ℕ → String) (sort : List String → List String)
    (prefix : String) (ttl_ms lease_ms : ℕ) where
  open redis use {Db, read, del, srem}

  listed_messages : Scope → Option (List String) → Option (List Turn)
  unfolding read_messages
  listed_messages scope none = none
  listed_messages scope (some values) = read_messages json scope 1 "" values

  list_migrated : Link → Scope → ℕ → Option (Unit {0}) × Db → Option (List Turn) × Db
  unfolding listed_messages call messages_key
  list_migrated link scope day (none, db) = (none, db)
  list_migrated link scope day (some done, db) =
      let (values, db') =
        call link (λ d. (lrange_all (read d (messages_key format_date prefix scope day)), d)) db in
      (listed_messages scope values, db')

  -- `MessagesForDateScope`; `none` is an error.
  unfoldable pub messages_for_date_scope : Link → Link → Scope → ℕ → Db → Option (List Turn) × Db
  unfolding list_migrated migrate_legacy_scope
  messages_for_date_scope link link' scope day db =
      list_migrated link' scope day
        (migrate_legacy_scope redis json format_date sort prefix ttl_ms lease_ms link scope day db)

  -- The pipeline of `ClearScopeDate`.
  unfoldable pub clear_pipeline : Scope → ℕ → Db → Db
  unfolding messages_key sequence_key active_scopes_key active_scope_member active_key active_member
  clear_pipeline scope day db =
      let db₁ =
        del (del db (messages_key format_date prefix scope day))
          (sequence_key format_date prefix scope day) in
      let db₂ = srem db₁ (active_scopes_key format_date prefix day) (active_scope_member scope) in
      if str_eq scope.conversation_id default_conversation_id
      then srem db₂ (active_key format_date prefix day) (active_member scope.identity)
      else db₂

  clear_migrated : Link → Scope → ℕ → Option (Unit {0}) × Db → Option BatchError × Db
  unfolding call clear_pipeline
  clear_migrated link scope day (none, db) = (some unavailable, db)
  clear_migrated link scope day (some done, db) =
      let pipeline : Db → Unit {0} × Db = λ d. (tt, clear_pipeline scope day d) in
      let (reply, db') = call link pipeline db in
      (elim reply [ none ↦ some unavailable | some _ ↦ none ], db')

  unfoldable pub clear_scope_date : Link → Link → Scope → ℕ → Db → Option BatchError × Db
  unfolding clear_migrated migrate_legacy_scope
  clear_scope_date link link' scope day db =
      clear_migrated link' scope day
        (migrate_legacy_scope redis json format_date sort prefix ttl_ms lease_ms link scope day db)

  clear_unless_busy : Link → Link → Scope → ℕ → Option Bool × Db → Option BatchError × Db
  unfolding clear_scope_date
  clear_unless_busy link link' scope day (none, db) = (some unavailable, db)
  clear_unless_busy link link' scope day (some busy, db) =
      let cleared = clear_scope_date link link' scope day db in
      if busy then (some conversation_busy, db) else cleared

  -- `ClearScopeToday`: three calls.
  unfoldable pub clear_scope_today : Link → Link → Link → Scope → ℕ → Db → Option BatchError × Db
  unfolding clear_unless_busy call lease_key
  clear_scope_today link₀ link link' scope now db =
      clear_unless_busy link link' scope (beijing_day now)
        (call link₀ (λ d. (exists (read d (lease_key format_date prefix scope)), d)) db)

  scopes_of : Option (List String) → Option (List String) → Option (List Scope)
  unfolding distinct_scopes legacy_members active_identities
  scopes_of none legacy = none
  scopes_of (some members) none = none
  scopes_of (some members) (some legacy) =
      some (distinct_scopes [] (sort (append members (legacy_members (active_identities legacy)))))

  -- `ActiveScopes`
  unfoldable pub active_scopes : Link → Link → ℕ → Db → Option (List Scope) × Db
  unfolding scopes_of call active_scopes_key active_key
  active_scopes link link' day db =
      let (members, db₁) =
        call link (λ d. (smembers (read d (active_scopes_key format_date prefix day)), d)) db in
      let (legacy, db₂) =
        call link' (λ d. (smembers (read d (active_key format_date prefix day)), d)) db₁ in
      (scopes_of members legacy, db₂)
