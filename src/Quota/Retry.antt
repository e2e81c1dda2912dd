-- ===== src/Quota/Retry.antt =====
-- internal/quota/quota.go: a reservation that is asked for again.
use anime_companion_ai.Prelude.{
  ℕ, String, ◌≡◌, refl, ap, ◌∙◌, true, false, Option, none, some, str_eq, ltb, eq_iff, eq_refl,
  if_cases, arith,
}
use anime_companion_ai.Prelude.Int.{pos, leb_ℤ, ◌+ℤ◌}
use anime_companion_ai.Prelude.Assoc.{Assoc, lookup, lookup-insert}
use anime_companion_ai.Redis.{Redis}
use anime_companion_ai.Redis.Entries.{fields, hget}
use anime_companion_ai.Quota.Script.{
  ReserveReply, counter, reserve_fresh, reserve_known, reserve_case, reserve_script,
}
use anime_companion_ai.Quota.Ledger.{is_request, not_counter, reserve_fields, lookup-bump}
use anime_companion_ai.Quota.Invariant.{HasLedger, fresh-Puts}

-- The request is in one of the two ledgers.
abbrev IsIn : Option String → Option String → Type 0
IsIn (some state) previous = Unit {0}
IsIn none (some state) = Unit {0}
IsIn none none = ⊥

module _ (redis : Redis) (limit : ℕ) (key previous_key request : String)
    (expires_at previous_expires_at : ℕ) (named : is_request request ≡ true) where
  open redis use {Db, read, clock, hset, hincrby, expireat}

  lookup-reserve_fields :
      (l : Assoc String) → lookup request (reserve_fields redis request l) ≡ some "reserved"
  unfolding reserve_fields
  lookup-reserve_fields l =
      let (reserved, committed, revision) = not_counter request named in
      lookup-bump redis "revision" request (pos 1) _ (other "revision" revision)
      ∙ lookup-bump redis "reserved" request (pos 1) _ (other "reserved" reserved)
      ∙ rw (lookup-insert request request "reserved" l, eq_refl request) refl
    where
      other : (f : String) → str_eq request f ≡ false → str_eq f request ≡ false
      other f h = ground (arith, eq_iff f request, eq_iff request f)

  -- The deadlines of both ledgers lie ahead.
  abbrev Ahead : Db → Type 0
  Ahead db = (ltb (clock db) expires_at ≡ true) × (ltb (clock db) previous_expires_at ≡ true)

  abbrev Known : Db → Type 0
  Known db = IsIn (hget (read db key) request) (hget (read db previous_key) request)

  lives_on :
      (db : Db) (ledger : String) (t : ℕ) (j : String)
      → ltb (clock db) t ≡ true
      → read (expireat db ledger t) j ≡ read db j
  lives_on db ledger t j ahead = redis.read-expireat db ledger t j ∙ rw ahead refl

  abbrev case' : Option String → Option String → Db → ReserveReply × Db
  case' = reserve_case redis key previous_key request (pos limit) expires_at previous_expires_at

  -- A request that is known is accepted, and no entry changes.
  pub record IsRepeated (db : Db) (r : ReserveReply × Db) : Type 0 where
    pub accepted : r.0.accepted ≡ 1
    pub unchanged : (j : String) → read r.1 j ≡ read db j

  case-IsRepeated :
      (state previous_state : Option String) (db : Db)
      → IsIn state previous_state
      → Ahead db
      → IsRepeated db (case' state previous_state db)
  unfolding reserve_case reserve_known
  case-IsRepeated (some state) previous_state db known ahead = record {
    accepted = refl;
    unchanged = λ j. lives_on db key expires_at j ahead.0;
  }
  case-IsRepeated none (some state) db known ahead = record {
    accepted = refl;
    unchanged = λ j. lives_on db previous_key previous_expires_at j ahead.1;
  }
  case-IsRepeated none none db known ahead = absurd known

  same-Known :
      (db db' : Db) (state previous_state : Option String)
      → ((j : String) → read db' j ≡ read db j)
      → hget (read db key) request ≡ state
      → hget (read db previous_key) request ≡ previous_state
      → IsIn state previous_state
      → Known db'
  same-Known db db' state previous_state same e f known =
      rw (same key, same previous_key, e, f) known

  fresh-Known :
      (db : Db)
      → HasLedger redis limit db key
      → Ahead db
      → (reserve_fresh redis key previous_key request
          (pos limit)
          expires_at
          previous_expires_at
          db).0.accepted
        ≡ 1
      → Known
          (reserve_fresh redis key previous_key request
            (pos limit)
            expires_at
            previous_expires_at
            db).1
  unfolding reserve_fresh
  fresh-Known db g ahead h =
      let db₃ =
        hincrby (hincrby (hset db key request "reserved") key "reserved" (pos 1)) key "revision"
          (pos 1) in
      let puts =
        fresh-Puts redis limit key previous_key request expires_at previous_expires_at db named g in
      let clock_kept : clock db₃ ≡ clock db =
        redis.clock-hincrby _ key "revision" (pos 1)
        ∙ redis.clock-hincrby _ key "reserved" (pos 1)
        ∙ redis.clock-hset db key request "reserved" in
      let later : ltb (clock db₃) expires_at ≡ true = rw clock_kept ahead.0 in
      let kept : hget (read (expireat db₃ key expires_at) key) request ≡ some "reserved" =
        ap (λ e. hget e request) (lives_on db₃ key expires_at key later)
        ∙ ap (lookup request) puts.holds
        ∙ lookup-reserve_fields (fields (read db key)) in
      if_cases (λ (r : ReserveReply × Db). r.0.accepted ≡ 1 → Known r.1)
        (leb_ℤ (pos limit) (counter redis db key "committed" +ℤ counter redis db key "reserved"))
        (λ _ e. absurd (omega (arith, e))) (λ _ e. rw kept tt) h

  case-Known :
      (state previous_state : Option String) (db : Db)
      → hget (read db key) request ≡ state
      → hget (read db previous_key) request ≡ previous_state
      → HasLedger redis limit db key
      → Ahead db
      → (case' state previous_state db).0.accepted ≡ 1
      → Known (case' state previous_state db).1
  unfolding reserve_case reserve_known
  case-Known (some state) previous_state db e f g ahead h =
      same-Known db _ (some state) previous_state (λ j. lives_on db key expires_at j ahead.0) e f tt
  case-Known none (some state) db e f g ahead h =
      same-Known db _ none (some state)
        (λ j. lives_on db previous_key previous_expires_at j ahead.1) e f tt
  case-Known none none db e f g ahead h = fresh-Known db g ahead h

  -- On a right ledger, and while the deadlines of both ledgers lie ahead: if `reserveScript` accepts a
  -- request, then it accepts the same request again, and the second run changes no entry of the server,
  -- so that nothing is charged twice.
  pub reserve_script-again :
      (db : Db)
      → HasLedger redis limit db key
      → Ahead db
      → (reserve_script redis key previous_key request
          (pos limit)
          expires_at
          previous_expires_at
          db).0.accepted
        ≡ 1
      → Ahead
          (reserve_script redis key previous_key request
            (pos limit)
            expires_at
            previous_expires_at
            db).1
      → IsRepeated
          (reserve_script redis key previous_key request
            (pos limit)
            expires_at
            previous_expires_at
            db).1
          (reserve_script redis key previous_key request
            (pos limit)
            expires_at
            previous_expires_at
            (reserve_script redis key previous_key request
              (pos limit)
              expires_at
              previous_expires_at
              db).1)
  unfolding reserve_script
  reserve_script-again db g ahead accepted ahead' =
      case-IsRepeated _ _ _ (case-Known _ _ db refl refl g ahead accepted) ahead'
