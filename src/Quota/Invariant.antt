-- ===== src/Quota/Invariant.antt =====
-- Ledgers under the scripts of internal/quota/quota.go.
use anime_companion_ai.Prelude.{
  ℕ, ◌+◌, ◌<◌, String, ◌≡◌, refl, ap, true, false, Option, none, some, [], arith, str_eq, ltb,
  eq_iff, if_cases, and-left, ◌&&◌, Bool-cases, inl, inr,
}
use anime_companion_ai.Prelude.Int.{ℤ, pos, negsuc, ◌+ℤ◌, leb_ℤ, pos-+ℤ}
use anime_companion_ai.Prelude.Assoc.{Assoc, lookup, insert, without, count}
use anime_companion_ai.Redis.{Redis}
use anime_companion_ai.Redis.Hashes.{IsHash, IsHash-hset, fields-hset, IsHash-hdel, fields-hdel}
use anime_companion_ai.Redis.Entries.{Entry, absent, fields, hget}
use anime_companion_ai.Quota.Script.{
  counter, reserve_fresh, reserve_known, reserve_case, reserve_script, settle_script, Settled,
  settle_step, settle_delivered, settle_failed, settle_nothing, is_reserved,
}
use anime_companion_ai.Quota.Ledger.{
  IsLedger, is_request, number, bump, requests_in, reserve_fields, deliver_fields, fail_fields,
  reserve_fields-IsLedger, deliver_fields-IsLedger, fail_fields-IsLedger,
}

module _ (redis : Redis) where
  open redis use {
    Db, read, clock, itoa, tonumber, hset, hdel, hincrby, expireat, read-hset, read-hdel,
    read-hincrby, read-expireat, tonumber_zero,
  }

  pub record IsLedgerEntry (limit : ℕ) (e : Entry) : Type 0 where
    pub typed : IsHash e
    pub ledger : IsLedger redis limit (fields e)

  -- What `key` holds is a ledger.
  abbrev pub HasLedger : ℕ → Db → String → Type 0
  HasLedger limit db key = IsLedgerEntry limit (read db key)

  IsLedger-nil : (limit : ℕ) → IsLedger redis limit []
  unfolding number requests_in lookup count
  IsLedger-nil limit = record {
    once = tt;
    reserved = tonumber_zero;
    committed = tonumber_zero;
    within = omega arith;
  }

  pub IsLedgerEntry-absent : (limit : ℕ) → IsLedgerEntry limit absent
  IsLedgerEntry-absent limit = record { typed = tt; ledger = IsLedger-nil limit }

  -- One key holds other fields, and the rest is as before.
  pub record Puts (db db' : Db) (key : String) (l : Assoc String) : Type 0 where
    pub typed : IsHash (read db' key)
    pub holds : fields (read db' key) ≡ l
    pub frame : (j : String) → str_eq key j ≡ false → read db' j ≡ read db j

  Puts-HasLedger :
      (limit : ℕ) {db db' : Db} {key : String} {l : Assoc String} (j : String)
      → Puts db db' key l
      → IsLedger redis limit l
      → HasLedger limit db j
      → HasLedger limit db' j
  Puts-HasLedger limit {key = key} j p h g = elim (Bool-cases (str_eq key j)) [
    | inl same ↦ rw (← (eq_iff key j).0 same) (record { typed = p.typed; ledger = rw p.holds h })
    | inr other ↦ record {
      typed = rw (p.frame j other) g.typed;
      ledger = rw (p.frame j other) g.ledger;
    }
  ]

  eq_self : (k : String) → str_eq k k ≡ true
  eq_self k = (eq_iff k k).1 refl

  hset-Puts :
      {db db' : Db} {key : String} {l : Assoc String} (f v : String)
      → Puts db db' key l
      → Puts db (hset db' key f v) key (insert f v l)
  hset-Puts {db' = db'} {key = key} f v p = record {
    typed = rw (read-hset db' key f v key, eq_self key) (IsHash-hset f v _ p.typed);
    holds = rw (read-hset db' key f v key, eq_self key, fields-hset f v _ p.typed, p.holds);
    frame = λ j other. rw (read-hset db' key f v j, other) (p.frame j other);
  }

  hdel-Puts :
      {db db' : Db} {key : String} {l : Assoc String} (f : String)
      → Puts db db' key l
      → Puts db (hdel db' key f) key (without f l)
  hdel-Puts {db' = db'} {key = key} f p = record {
    typed = rw (read-hdel db' key f key, eq_self key) (IsHash-hdel f _ p.typed);
    holds = rw (read-hdel db' key f key, eq_self key, fields-hdel f _ p.typed, p.holds);
    frame = λ j other. rw (read-hdel db' key f j, other) (p.frame j other);
  }

  hincrby-Puts :
      {db db' : Db} {key : String} {l : Assoc String} (f : String) (n : ℤ)
      → Puts db db' key l
      → Puts db (hincrby db' key f n) key (bump redis f n l)
  unfolding bump
  hincrby-Puts {db' = db'} {key = key} f n p = record {
    typed = rw (read-hincrby db' key f n key, eq_self key) (IsHash-hset f _ _ p.typed);
    holds = rw (
      read-hincrby db' key f n key,
      eq_self key,
      fields-hset f _ (read db' key) p.typed,
      p.holds,
    );
    frame = λ j other. rw (read-hincrby db' key f n j, other) (p.frame j other);
  }

  Puts-start :
      (db : Db) (key : String) → IsHash (read db key) → Puts db db key (fields (read db key))
  Puts-start db key h = record { typed = h; holds = refl; frame = λ j other. refl }

  expireat-HasLedger :
      (limit : ℕ) (db : Db) (key : String) (t : ℕ) (j : String)
      → HasLedger limit db j
      → HasLedger limit (expireat db key t) j
  expireat-HasLedger limit db key t j g = rw (read-expireat db key t j) (
      if_cases (IsLedgerEntry limit) (ltb (clock db) t) (λ _. g)
        λ _.
          if_cases (IsLedgerEntry limit) (str_eq key j) (λ _. IsLedgerEntry-absent limit) (λ _. g))

  -- The test of the script, on the counters of a ledger.
  room_left : (limit r d : ℕ) → leb_ℤ (pos limit) (pos d +ℤ pos r) ≡ false → r + d < limit
  room_left limit r d h = let e = pos-+ℤ d r in let k = rw e at h in ground arith

  module _ (limit : ℕ) (key previous_key request : String) (expires_at previous_expires_at : ℕ)
      (db : Db) (named : is_request request ≡ true) where
    pub fresh-Puts :
        HasLedger limit db key
        → Puts db
            (hincrby
              (hincrby (hset db key request "reserved") key "reserved" (pos 1))
              key
              "revision"
              (pos 1))
            key
            (reserve_fields redis request (fields (read db key)))
    unfolding reserve_fields
    fresh-Puts g =
        hincrby-Puts "revision" (pos 1) (
          hincrby-Puts "reserved" (pos 1)
            (hset-Puts request "reserved" (Puts-start db key g.typed)))

    reserve_fresh-HasLedger :
        (j : String)
        → hget (read db key) request ≡ none
        → HasLedger limit db key
        → HasLedger limit db j
        → HasLedger limit
            (reserve_fresh redis key previous_key request
              (pos limit)
              expires_at
              previous_expires_at
              db).1
            j
    unfolding reserve_fresh
    reserve_fresh-HasLedger j unknown g h =
        elim (Bool-cases (
          leb_ℤ (pos limit)
            (counter redis db key "committed" +ℤ counter redis db key "reserved"))) [
              | inl full ↦ rw full h
              | inr room ↦ rw room (
                  expireat-HasLedger limit _ key expires_at j (
                    Puts-HasLedger limit j (fresh-Puts g)
                      (reserve_fields-IsLedger redis limit request _ named unknown
                        (room_left limit _ _ (
                          rw (← g.ledger.reserved, ← g.ledger.committed)
                            (unfold counter number in room)))
                        g.ledger)
                      h))
            ]

    reserve_case-HasLedger :
        (j : String) (state previous_state : Option String)
        → hget (read db key) request ≡ state
        → HasLedger limit db key
        → HasLedger limit db j
        → HasLedger limit
            (reserve_case redis key previous_key request
              (pos limit)
              expires_at
              previous_expires_at
              state
              previous_state
              db).1
            j
    unfolding reserve_case reserve_known
    reserve_case-HasLedger j (some state) previous e g h =
        expireat-HasLedger limit db key expires_at j h
    reserve_case-HasLedger j none (some state) e g h =
        expireat-HasLedger limit db previous_key previous_expires_at j h
    reserve_case-HasLedger j none none e g h = reserve_fresh-HasLedger j e g h

    pub reserve_script-HasLedger :
        (j : String)
        → HasLedger limit db key
        → HasLedger limit db j
        → HasLedger limit
            (reserve_script redis key previous_key request
              (pos limit)
              expires_at
              previous_expires_at
              db).1
            j
    unfolding reserve_script
    reserve_script-HasLedger j g h =
        reserve_case-HasLedger j (hget (read db key) request) (hget (read db previous_key) request)
          refl g h

  module _ (limit : ℕ) (key request : String) (db : Db) (named : is_request request ≡ true) where
    is_reserved→eq : (o : Option String) → is_reserved o ≡ true → o ≡ some "reserved"
    is_reserved→eq none h = cc
    is_reserved→eq (some state) h = ap some ((eq_iff state "reserved").0 h)

    deliver-Puts :
        HasLedger limit db key
        → Puts db
            (settle_delivered redis key request db).db
            key
            (deliver_fields redis request (fields (read db key)))
    unfolding settle_delivered deliver_fields
    deliver-Puts g = hincrby-Puts "revision" (pos 1) (
        hset-Puts request "delivered" (
          hincrby-Puts "committed" (pos 1)
            (hincrby-Puts "reserved" (negsuc 0) (Puts-start db key g.typed))))

    fail-Puts :
        HasLedger limit db key
        → Puts db
            (settle_failed redis key request db).db
            key
            (fail_fields redis request (fields (read db key)))
    unfolding settle_failed fail_fields
    fail-Puts g =
        hincrby-Puts "revision" (pos 1)
          (hdel-Puts request (hincrby-Puts "reserved" (negsuc 0) (Puts-start db key g.typed)))

    settle_step-HasLedger :
        (outcome j : String)
        → HasLedger limit db key
        → HasLedger limit db j
        → HasLedger limit (settle_step redis key request outcome db).db j
    unfolding settle_step settle_nothing
    settle_step-HasLedger outcome j g h =
        let is_open = is_reserved (hget (read db key) request) in
        if_cases (λ (s : Settled redis). HasLedger limit s.db j)
          (is_open && str_eq outcome "delivered")
          (λ delivered.
            let o = is_reserved→eq (hget (read db key) request) (and-left is_open _ delivered) in
            Puts-HasLedger limit j (deliver-Puts g)
              (deliver_fields-IsLedger redis limit request _ named o g.ledger) h)
          λ _.
            if_cases (λ (s : Settled redis). HasLedger limit s.db j)
              (is_open && str_eq outcome "failed")
              (λ failed.
                let o = is_reserved→eq (hget (read db key) request) (and-left is_open _ failed) in
                Puts-HasLedger limit j (fail-Puts g)
                  (fail_fields-IsLedger redis limit request _ named o g.ledger) h)
              (λ _. h)

    pub settle_script-HasLedger :
        (outcome j : String) (expires_at : ℕ)
        → HasLedger limit db key
        → HasLedger limit db j
        → HasLedger limit (settle_script redis key request outcome expires_at db).1 j
    unfolding settle_script
    settle_script-HasLedger outcome j expires_at g h =
        let h' = settle_step-HasLedger outcome j g h in
        if_cases (λ db'. HasLedger limit db' j) _
          (λ _. expireat-HasLedger limit _ key expires_at j h') (λ _. h')
