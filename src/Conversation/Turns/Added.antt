-- ===== src/Conversation/Turns/Added.antt =====
-- internal/conversation/redis_store.go: a turn that is added is read again.
use Prim.Native.String.{◌++◌}
use text.Mathlib.TextLemmas.{append_cancel_left, append_assoc}
use mathlib.Core.List.{◌++◌ as append, map-append}
use anime_companion_ai.Prelude.{
  ℕ, ◌<◌, ◌-◌, String, ◌≡◌, refl, sym, ap, ◌∙◌, inl, inr, true, false, Option, some, List, [], ◌∷◌,
  map, suc, zero, if_cases, ltb, drop, length, str_eq, eq_iff, eq_refl, Bool-cases, if◌then◌else◌,
  arith,
}
use anime_companion_ai.Prelude.Text.{differ, differ-ne}
use anime_companion_ai.Redis.{Redis}
use anime_companion_ai.Redis.Entries.{Entry, absent, list, lrange_all, rpush_entry}
use anime_companion_ai.Redis.Link.{answered}
use anime_companion_ai.Conversation.{Identity, Turn, beijing_day, is_supported_channel}
use anime_companion_ai.Conversation.Keys.{turns_key, active_key}
use anime_companion_ai.Conversation.Scripts.{Json}
use anime_companion_ai.Conversation.Turns.{
  plain_turn, last_values, add_pipeline, add_turn, read_turns, turns_of_day, recent_turns,
}

cancel : (p s t : String) → str_eq s t ≡ false → str_eq (p ++ s) (p ++ t) ≡ false
cancel p s t h = elim (Bool-cases (str_eq (p ++ s) (p ++ t))) [
  | inr e ↦ e
  | inl e ↦
      let same : s ≡ t = append_cancel_left p s t ((eq_iff (p ++ s) (p ++ t)).0 e) in
      let equal : str_eq s t ≡ true = (eq_iff s t).1 same in cc
]

-- What a list of Redis holds after its values were pushed.
abbrev pub list_of : List String → Entry
list_of [] = absent
list_of (value ∷ values) = list (value ∷ values)

lrange_all-list_of : (values : List String) → lrange_all (list_of values) ≡ values
lrange_all-list_of [] = refl
lrange_all-list_of (value ∷ values) = refl

rpush_entry-list_of :
    (v : String) (values : List String)
    → rpush_entry v (list_of values) ≡ list_of (append values (v ∷ []))
rpush_entry-list_of v [] = refl
rpush_entry-list_of v (value ∷ values) = refl

drop-map {ℓ κ} :
    {A : Type ℓ} {B : Type κ} (f : A → B) (n : ℕ) (xs : List A)
    → drop n (map f xs) ≡ map f (drop n xs)
drop-map f zero xs = refl
drop-map f (suc n) [] = refl
drop-map f (suc n) (x ∷ xs) = drop-map f n xs

length-map {ℓ κ} :
    {A : Type ℓ} {B : Type κ} (f : A → B) (xs : List A) → length (map f xs) ≡ length xs
length-map f [] = refl
length-map f (x ∷ xs) = omega (arith, length-map f xs)

-- The last turns, all of them where there is no limit.
abbrev pub last_turns : ℕ → List Turn → List Turn
last_turns limit turns = if ltb 0 limit then drop (length turns - limit) turns else turns

module _ (redis : Redis) (json : Json) (format_date : ℕ → String) (prefix : String) (ttl_ms : ℕ)
    (lasting : 0 < ttl_ms) (identity : Identity)
    (supported : is_supported_channel identity.channel ≡ true) where
  open redis use {Db, read}

  abbrev key : ℕ → String
  unfolding turns_key
  key day = turns_key format_date prefix identity day

  by_channel :
      (day : ℕ) (c : String)
      → identity.channel ≡ c
      → differ "conversation:active:" ("conversation:" ++ c) ≡ true
      → str_eq (active_key format_date prefix day) (turns_key format_date prefix identity day)
        ≡ false
  unfolding active_key turns_key
  by_channel day c e h =
      let rest = ":" ++ (identity.external_id ++ (":" ++ format_date day)) in
      cancel prefix ("conversation:active:" ++ format_date day)
        ("conversation:" ++ (identity.channel ++ rest))
        (rw (e, sym (append_assoc "conversation:" c rest))
          (differ-ne "conversation:active:" ("conversation:" ++ c) (format_date day) rest h))

  -- The set of the active owners has a key of its own.
  active_key-ne :
      (day : ℕ)
      → str_eq (active_key format_date prefix day) (turns_key format_date prefix identity day)
        ≡ false
  unfolding is_supported_channel
  active_key-ne day = elim (Bool-cases (str_eq identity.channel "api")) [
    | inl e ↦ by_channel day "api" ((eq_iff identity.channel "api").0 e) refl
    | inr e ↦
        let wechat : str_eq identity.channel "wechat" ≡ true = ground (arith, supported) in
        by_channel day "wechat" ((eq_iff identity.channel "wechat").0 wechat) refl
  ]

  -- The key of the day holds the turns.
  abbrev pub Holds : Db → ℕ → List Turn → Type 0
  Holds db day turns =
      read db (turns_key format_date prefix identity day) ≡ list_of (map json.encode_turn turns)

  read_turns-map :
      (turns : List Turn)
      → read_turns redis json format_date prefix ttl_ms (map json.encode_turn turns) ≡ some turns
  unfolding read_turns
  read_turns-map [] = refl
  read_turns-map (turn ∷ turns) = rw (json.decode_turn-encode_turn turn, read_turns-map turns) refl

  last_values-map :
      (limit : ℕ) (turns : List Turn)
      → last_values limit (map json.encode_turn turns)
        ≡ map json.encode_turn (last_turns limit turns)
  unfolding last_values
  last_values-map limit turns =
      if_cases
        (λ (r : List Turn). last_values limit (map json.encode_turn turns) ≡ map json.encode_turn r)
        (ltb 0 limit)
        (λ e. rw (e, length-map json.encode_turn turns) (drop-map json.encode_turn _ turns))
        (λ e. rw e refl)

  -- What is read of a key that holds turns.
  turns_of_day-Holds :
      (day limit : ℕ) (turns : List Turn) (db : Db)
      → Holds db day turns
      → (turns_of_day redis json format_date prefix ttl_ms answered identity day limit db).0
        ≡ some (last_turns limit turns)
  unfolding turns_of_day
  turns_of_day-Holds day limit turns db h =
      rw
        (
          h,
          lrange_all-list_of (map json.encode_turn turns),
          last_values-map limit turns,
          read_turns-map (last_turns limit turns),
        )
        refl

  add_pipeline-Holds :
      (day : ℕ) (turns : List Turn) (turn : Turn) (db : Db)
      → Holds db day turns
      → Holds
          (add_pipeline redis json format_date prefix ttl_ms identity turn day db)
          day
          (append turns (turn ∷ []))
  unfolding add_pipeline
  add_pipeline-Holds day turns turn db h =
      redis.read-pexpire _ _ ttl_ms _ lasting
      ∙ redis.read-pexpire _ _ ttl_ms _ lasting
      ∙ redis.read-sadd _ _ _ _
      ∙ rw
          (
            active_key-ne day,
            redis.read-rpush db (turns_key format_date prefix identity day) (json.encode_turn turn)
                (turns_key format_date prefix identity day),
            eq_refl (turns_key format_date prefix identity day),
            h,
          )
          (rpush_entry-list_of (json.encode_turn turn) (map json.encode_turn turns)
            ∙ ap list_of (sym (map-append json.encode_turn turns (turn ∷ []))))

  -- What is read after a turn was added to the turns of its day.
  pub record IsAdded (day : ℕ) (turns : List Turn) (turn : Turn) (limit now : ℕ)
      (r : Option Turn × Db) : Type 0 where
    pub returned : r.0 ≡ some turn
    pub holds : Holds r.1 day (append turns (turn ∷ []))
    pub all :
        (turns_of_day redis json format_date prefix ttl_ms answered identity day 0 r.1).0
        ≡ some (append turns (turn ∷ []))
    pub recent :
        (recent_turns redis json format_date prefix ttl_ms answered identity now limit r.1).0
        ≡ some (last_turns limit (append turns (turn ∷ [])))

  -- For an owner on a channel that is supported: a turn that is added stands behind the turns of its
  -- day, which are all read in their order, or the last of them under a limit.
  pub add_turn-IsAdded :
      (turns : List Turn) (role content drawn : String) (limit now : ℕ) (db : Db)
      → Holds db (beijing_day now) turns
      → IsAdded (beijing_day now) turns (plain_turn drawn role content now) limit now (
          add_turn redis json format_date prefix ttl_ms answered identity role content drawn now db)
  unfolding add_turn recent_turns
  add_turn-IsAdded turns role content drawn limit now db h =
      let turn = plain_turn drawn role content now in
      let day = beijing_day now in
      let holds = add_pipeline-Holds day turns turn db h in
      record {
        returned = refl;
        holds = holds;
        all = turns_of_day-Holds day 0 (append turns (turn ∷ [])) _ holds;
        recent = turns_of_day-Holds day limit (append turns (turn ∷ [])) _ holds;
      }
