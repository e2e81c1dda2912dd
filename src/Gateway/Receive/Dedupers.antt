-- ===== src/Gateway/Receive/Dedupers.antt =====
-- internal/gateway/dedupe.go and internal/redisstore/redis.go: the two that remember the ids of messages.
use Prim.Native.String.{◌++◌}
use anime_companion_ai.Prelude.{
  ℕ, suc, ◌<◌, String, ◌≡◌, ◌≢◌, refl, ◌∙◌, Bool, true, false, Option, none, some, List, str_eq,
  eq_refl, contains, if◌then◌else◌, if_cases, Bool-cases, inl, inr, arith,
}
use anime_companion_ai.Prelude.Text.{is_empty}
use anime_companion_ai.Redis.{Redis}
use anime_companion_ai.Redis.Entries.{text, exists}
use anime_companion_ai.Redis.Link.{Link, answered, unsent, answer_lost, call}
use anime_companion_ai.Redisstore.{set_new, seen_or_add}
use anime_companion_ai.Gateway.Receive.{Deduper, seen_or_add_locked, msg_deduper}

-- What the handler relies on: an id that is reported as new is known from then on, and an id that is
-- known is never reported as new.
pub record DeduperLaws (deduper : Deduper) : Type 1 where
  pub Knows : String → deduper.State → Type 0
  pub adds :
      (id : String) (s : deduper.State)
      → is_empty id ≡ false
      → (deduper.seen_or_add id s).0 ≡ some false
      → Knows id (deduper.seen_or_add id s).1
  pub keeps :
      (id j : String) (s : deduper.State) → Knows id s → Knows id (deduper.seen_or_add j s).1
  pub recognises :
      (id : String) (s : deduper.State)
      → is_empty id ≡ false
      → Knows id s
      → (deduper.seen_or_add id s).0 ≢ some false

new_or_old :
    (id : String) (s : List String)
    → (is_empty id ≡ false)
    → contains id (seen_or_add_locked id s).1 ≡ true
unfolding seen_or_add_locked
new_or_old id s named = rw named (
    if_cases (λ (r : Option Bool × List String). contains id r.1 ≡ true) (contains id s) (λ e. e)
      (λ _. ground (arith, eq_refl id)))

kept :
    (id j : String) (s : List String)
    → contains id s ≡ true
    → contains id (seen_or_add_locked j s).1 ≡ true
unfolding seen_or_add_locked
kept id j s h =
    if_cases (λ (r : Option Bool × List String). contains id r.1 ≡ true) (is_empty j) (λ _. h)
      (λ _.
        if_cases (λ (r : Option Bool × List String). contains id r.1 ≡ true) (contains j s) (λ _. h)
          (λ _. ground arith))

recognised :
    (id : String) (s : List String)
    → is_empty id ≡ false
    → contains id s ≡ true
    → (seen_or_add_locked id s).0 ≢ some false
unfolding seen_or_add_locked
recognised id s named h e = let impossible : some true ≡ some false = (rw (named, h) at e) in cc

-- The ids that are kept in memory.
pub msg_deduper-DeduperLaws : DeduperLaws msg_deduper
msg_deduper-DeduperLaws = record {
  Knows = λ id s. contains id s ≡ true;
  adds = λ id s named e. new_or_old id s named;
  keeps = kept;
  recognises = recognised;
}

module _ (redis : Redis) (prefix : String) (ttl : ℕ) (positive : 0 < ttl) (link : ℕ → Link) where
  open redis use {Db, read}

  -- The ids in Redis, with the number of the next call.
  unfoldable pub seen_in_redis : String → Db × ℕ → Option Bool × (Db × ℕ)
  unfolding seen_or_add
  seen_in_redis id (db, tick) =
      let (answer, db') = seen_or_add redis prefix ttl (link tick) id db in
      (answer, (db', suc tick))

  abbrev pub redis_deduper : Deduper
  redis_deduper = record { State = Db × ℕ; seen_or_add = seen_in_redis }

  abbrev Remembered : String → Db → Type 0
  Remembered id db = exists (read db (prefix ++ id)) ≡ true

  read-set_new :
      (key j : String) (db : Db)
      → exists (read db key) ≡ false
      → read (set_new redis ttl key db).1 j ≡ (if str_eq key j then text "1" else read db j)
  unfolding set_new
  read-set_new key j db new =
      rw new
        (redis.read-pexpire (redis.set db key "1") key ttl j positive ∙ redis.read-set db key "1" j)

  -- After the command the id is there, and the others are still there.
  set_new-keeps :
      (id j : String) (db : Db)
      → Remembered id db
      → Remembered id (set_new redis ttl (prefix ++ j) db).1
  unfolding set_new
  set_new-keeps id j db h = elim (Bool-cases (exists (read db (prefix ++ j)))) [
    | inl e ↦ rw e h
    | inr e ↦
        rw (read-set_new (prefix ++ j) (prefix ++ id) db e) (
          if_cases (λ x. exists x ≡ true) (str_eq (prefix ++ j) (prefix ++ id)) (λ _. refl)
            (λ _. h))
  ]

  set_new-adds : (id : String) (db : Db) → Remembered id (set_new redis ttl (prefix ++ id) db).1
  unfolding set_new
  set_new-adds id db = elim (Bool-cases (exists (read db (prefix ++ id)))) [
    | inl e ↦ rw e e
    | inr e ↦ rw (read-set_new (prefix ++ id) (prefix ++ id) db e, eq_refl (prefix ++ id)) refl
  ]

  call-keeps :
      (l : Link) (id j : String) (db : Db)
      → Remembered id db
      → Remembered id (seen_or_add redis prefix ttl l j db).1
  unfolding seen_or_add call
  call-keeps l id j db h =
      if_cases (λ (r : Option Bool × Db). Remembered id r.1) (is_empty j) (λ _. h) (λ _. by_link l)
    where
      by_link : (l : Link) → Remembered id (call l (set_new redis ttl (prefix ++ j)) db).1
      by_link answered = set_new-keeps id j db h
      by_link unsent = h
      by_link answer_lost = set_new-keeps id j db h

  call-adds :
      (l : Link) (id : String) (db : Db)
      → is_empty id ≡ false
      → (seen_or_add redis prefix ttl l id db).0 ≡ some false
      → Remembered id (seen_or_add redis prefix ttl l id db).1
  unfolding seen_or_add call
  call-adds answered id db named e = rw named (set_new-adds id db)
  call-adds unsent id db named e =
      absurd (let impossible : none ≡ some false = (rw named at e) in cc)
  call-adds answer_lost id db named e = rw named (set_new-adds id db)

  call-recognises :
      (l : Link) (id : String) (db : Db)
      → is_empty id ≡ false
      → Remembered id db
      → (seen_or_add redis prefix ttl l id db).0 ≢ some false
  unfolding seen_or_add call set_new
  call-recognises answered id db named h e =
      let impossible : some true ≡ some false = (rw (named, h) at e) in cc
  call-recognises unsent id db named h e =
      let impossible : none ≡ some false = (rw named at e) in cc
  call-recognises answer_lost id db named h e =
      let impossible : none ≡ some false = (rw named at e) in cc

  -- The ids in Redis, whatever calls or answers are lost, as long as their keys do not expire.
  pub redis_deduper-DeduperLaws : DeduperLaws redis_deduper
  unfolding seen_in_redis
  redis_deduper-DeduperLaws = record {
    Knows = λ id s. Remembered id s.0;
    adds = λ id s named e. call-adds (link s.1) id s.0 named e;
    keeps = λ id j s h. call-keeps (link s.1) id j s.0 h;
    recognises = λ id s named h. call-recognises (link s.1) id s.0 named h;
  }
