-- ===== src/Conversation/Turns.antt =====
-- internal/conversation/redis_store.go: the older operations of `RedisStore`, on the turns of an owner.
pub mod Added
pub mod Tests
use anime_companion_ai.Prelude.{
  ℕ, ◌-◌, String, Bool, true, false, Option, none, some, List, [], ◌∷◌, ltb, drop, length,
  if◌then◌else◌, Result, ok, err,
}
use anime_companion_ai.Redis.{Redis}
use anime_companion_ai.Redis.Entries.{lrange_all, smembers}
use anime_companion_ai.Redis.Link.{Link, call}
use anime_companion_ai.Conversation.{Identity, Turn, beijing_day}
use anime_companion_ai.Conversation.Keys.{turns_key, active_key, active_member}
use anime_companion_ai.Conversation.Messages.{active_identities}
use anime_companion_ai.Conversation.Scripts.{Json}

-- A turn with the fields that `AddTurn` sets.
unfoldable pub plain_turn : String → String → String → ℕ → Turn
plain_turn turn_id role content now = record {
  turn_id = turn_id;
  role = role;
  content = content;
  created_at = now;
  conversation_id = "";
  speaker_kind = "";
  speaker_id = "";
  batch_id = "";
  sequence = 0;
  display_name = "";
  avatar_url = "";
}

-- LRANGE from -limit, or from the start where there is no limit.
unfoldable pub last_values : ℕ → List String → List String
last_values limit values = if ltb 0 limit then drop (length values - limit) values else values

-- The store: `format_date` writes a Beijing day.
module _ (redis : Redis) (json : Json) (format_date : ℕ → String) (prefix : String)
    (ttl_ms : ℕ) where
  open redis use {Db, read, del, rpush, sadd, srem, pexpire}

  -- The pipeline of `AddTurn`, which runs as a whole.
  unfoldable pub add_pipeline : Identity → Turn → ℕ → Db → Db
  unfolding turns_key active_key active_member
  add_pipeline identity turn day db =
      let turns = turns_key format_date prefix identity day in
      let active = active_key format_date prefix day in
      let db' = sadd (rpush db turns (json.encode_turn turn)) active (active_member identity) in
      pexpire (pexpire db' turns ttl_ms) active ttl_ms

  -- `AddTurn`; `drawn` is what `newTurnID` draws.
  unfoldable pub add_turn : Link → Identity → String → String → String → ℕ → Db → Option Turn × Db
  unfolding add_pipeline plain_turn call
  add_turn link identity role content drawn now db =
      let turn = plain_turn drawn role content now in
      call link (λ d. (turn, add_pipeline identity turn (beijing_day now) d)) db

  -- The loop over the values; `none` if one of them cannot be read.
  unfoldable pub read_turns : List String → Option (List Turn)
  read_turns [] = some []
  read_turns (value ∷ values) =
      let rest = read_turns values in
      elim (json.decode_turn value) [
        | none ↦ none
        | some turn ↦ elim rest [ none ↦ none | some turns ↦ some (turn ∷ turns) ]
      ]

  unfoldable pub turns_or_error : Option (List String) → Option (List Turn)
  unfolding read_turns
  turns_or_error none = none
  turns_or_error (some values) = read_turns values

  -- `turnsForDate`; a limit of 0 stands for all limits that are not positive.
  unfoldable pub turns_of_day : Link → Identity → ℕ → ℕ → Db → Option (List Turn) × Db
  unfolding turns_or_error last_values call turns_key
  turns_of_day link identity day limit db =
      let (values, db') =
        call link
          (λ d. (
            last_values limit (lrange_all (read d (turns_key format_date prefix identity day))),
            d,
          ))
          db in
      (turns_or_error values, db')

  -- `RecentTurns`
  unfoldable pub recent_turns : Link → Identity → ℕ → ℕ → Db → Option (List Turn) × Db
  unfolding turns_of_day
  recent_turns link identity now limit = turns_of_day link identity (beijing_day now) limit

  -- `TurnsForDate`
  unfoldable pub turns_for_date : Link → Identity → ℕ → Db → Option (List Turn) × Db
  unfolding turns_of_day
  turns_for_date link identity day = turns_of_day link identity (beijing_day day) 0

  -- `ActiveIdentities`
  unfoldable pub identities_of_day : Link → ℕ → Db → Option (List Identity) × Db
  unfolding active_identities active_key call
  identities_of_day link day db =
      let (members, db') =
        call link (λ d. (smembers (read d (active_key format_date prefix (beijing_day day))), d))
          db in
      (elim members [ none ↦ none | some found ↦ some (active_identities found) ], db')

  -- The pipeline of `ClearDate`.
  unfoldable pub clear_turns : Identity → ℕ → Db → Db
  unfolding turns_key active_key active_member
  clear_turns identity day db =
      srem (del db (turns_key format_date prefix identity day)) (active_key format_date prefix day)
        (active_member identity)

  -- `ClearDate`; whether it is done.
  unfoldable pub clear_date : Link → Identity → ℕ → Db → Bool × Db
  unfolding clear_turns call
  clear_date link identity day db =
      let pipeline : Db → Unit {0} × Db = λ d. (tt, clear_turns identity (beijing_day day) d) in
      let (reply, db') = call link pipeline db in
      (elim reply [ none ↦ false | some done ↦ true ], db')

  -- `ClearToday`
  unfoldable pub clear_turns_today : Link → Identity → ℕ → Db → Bool × Db
  unfolding clear_date
  clear_turns_today link identity now = clear_date link identity now
