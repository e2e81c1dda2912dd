-- ===== src/Redisstore/Window.antt =====
-- internal/redisstore/redis.go: how many calls `FixedWindowLimiter` allows in a window.
use Prim.Native.String.{◌++◌}
use anime_companion_ai.Prelude.{
  ℕ, zero, suc, ◌+◌, ◌-◌, ◌≤◌, ◌<◌, String, ◌≡◌, refl, ap, ◌∙◌, Bool, true, false, Option, none,
  some, List, [], ◌∷◌, leb, if◌then◌else◌, if_cases, eq_refl, arith,
}
use anime_companion_ai.Prelude.Int.{ℤ, pos, ◌+ℤ◌}
use anime_companion_ai.Prelude.Text.{is_empty}
use anime_companion_ai.Redis.{Redis}
use anime_companion_ai.Redis.Entries.{absent, text, get}
use anime_companion_ai.Redis.Link.{Link, answered, unsent, answer_lost, call}
use anime_companion_ai.Redisstore.{allow_script, opened, allow, allowed, within, counted}

plus_one : (n : ℕ) → pos (suc n) +ℤ pos 1 ≡ pos (suc (suc n))
unfolding ◌+ℤ◌
plus_one n =
    if_cases (λ z. z ≡ pos (suc (suc n))) (leb 0 (suc n + 1)) (λ _. ap pos (omega arith))
      (λ h. absurd (ground arith))

module _ (redis : Redis) (prefix : String) (limit window : ℕ) (open_id : String)
    (positive : 0 < window) (named : is_empty open_id ≡ false) where
  open redis use {Db, read, incr, itoa, tonumber}

  abbrev key : String
  key = prefix ++ open_id

  -- The calls of one window, whose key does not expire: how many are allowed.
  pub grants : List Link → Db → ℕ
  unfolding allow
  grants [] db = 0
  grants (link ∷ links) db =
      let (answer, db') = allow redis prefix limit window link open_id db in
      let rest = grants links db' in
      elim answer [ none ↦ rest | some granted ↦ if granted then suc rest else rest ]

  -- The counter stands at `n`.
  pub data IsAt (db : Db) : ℕ → Type 0 where
    fresh : read db key ≡ absent → IsAt db 0
    counts : (n : ℕ) → read db key ≡ text (itoa (pos (suc n))) → IsAt db (suc n)

  incr_counts : (n : ℕ) (db : Db) → IsAt db n → read (incr db key) key ≡ text (itoa (pos (suc n)))
  incr_counts _ db (fresh e) = redis.read-incr db key key ∙ rw (eq_refl key, e) refl
  incr_counts _ db (counts n e) =
      redis.read-incr db key key
      ∙ rw (eq_refl key, e, redis.tonumber-itoa (pos (suc n)), plus_one n) refl

  -- What the script returns and leaves.
  record Counts (n : ℕ) (r : Option ℤ × Db) : Type 0 where
    returns : r.0 ≡ some (pos (suc n))
    stands : IsAt r.1 (suc n)

  opened-Counts :
      (n : ℕ) (reply : Option ℤ) (db : Db)
      → reply ≡ some (pos (suc n))
      → read db key ≡ text (itoa (pos (suc n)))
      → Counts n (opened redis window key reply db)
  unfolding opened
  opened-Counts n none db e h = absurd (let impossible : none ≡ some (pos (suc n)) = e in cc)
  opened-Counts n (some current) db e h = record {
    returns = e;
    stands =
        if_cases (λ d. IsAt d (suc n)) _
          (λ _. counts n (redis.read-pexpire db key window key positive ∙ h)) (λ _. counts n h);
  }

  allow_script-Counts : (n : ℕ) (db : Db) → IsAt db n → Counts n (allow_script redis window key db)
  unfolding allow_script
  allow_script-Counts n db at =
      let written = incr_counts n db at in
      opened-Counts n (counted redis (get (read (incr db key) key))) (incr db key)
        (rw (written, redis.tonumber-itoa (pos (suc n))) refl) written

  -- The answer of a call, and where the counter stands afterwards.
  record Answers (n : ℕ) (r : Option Bool × Db) : Type 0 where
    at : ℕ
    stands : IsAt r.1 at
    counted_up : n ≤ at
    granted : r.0 ≡ some true → (suc n ≤ limit) × (at ≡ suc n)

  within-le : (n : ℕ) → within limit (pos n) ≡ true → n ≤ limit
  within-le n h = ground arith

  allowed-Answers :
      (n : ℕ) (reply : Option ℤ) (db : Db)
      → reply ≡ some (pos (suc n))
      → IsAt db (suc n)
      → Answers n (allowed redis limit (some reply), db)
  allowed-Answers n none db e h = absurd (let impossible : none ≡ some (pos (suc n)) = e in cc)
  allowed-Answers n (some current) db e h = record {
    at = suc n;
    stands = h;
    counted_up = omega arith;
    granted = λ yes'.
        let same : current ≡ pos (suc n) = cc in
        let right : within limit current ≡ true = cc in
        (within-le (suc n) (rw same at right), refl);
  }

  no-Answers : (n m : ℕ) (db : Db) → n ≤ m → IsAt db m → Answers n (none, db)
  no-Answers n m db h at = record {
    at = m;
    stands = at;
    counted_up = h;
    granted = λ e. absurd (let impossible : none ≡ some true = e in cc);
  }

  allow-Answers :
      (n : ℕ) (link : Link) (db : Db)
      → IsAt db n
      → Answers n (allow redis prefix limit window link open_id db)
  unfolding allow call
  allow-Answers n answered db at =
      let c = allow_script-Counts n db at in rw named (allowed-Answers n _ _ c.returns c.stands)
  allow-Answers n unsent db at = rw named (no-Answers n n db (omega arith) at)
  allow-Answers n answer_lost db at =
      rw named (no-Answers n (suc n) _ (omega arith) (allow_script-Counts n db at).stands)

  -- From a counter at `n` on, the rest of the limit is left.
  grants-at : (links : List Link) (n : ℕ) (db : Db) → IsAt db n → grants links db ≤ limit - n
  unfolding grants
  grants-at [] n db at = omega arith
  grants-at (link ∷ links) n db at =
      let r = allow-Answers n link db at in
      let rest =
        grants-at links r.at (allow redis prefix limit window link open_id db).1 r.stands in
      granted_or_not (allow redis prefix limit window link open_id db).0 _ r.at rest r.counted_up
        r.granted
    where
      granted_or_not :
          (answer : Option Bool) (rest m : ℕ)
          → rest ≤ limit - m
          → n ≤ m
          → (answer ≡ some true → (suc n ≤ limit) × (m ≡ suc n))
          → (elim answer [ none ↦ rest | some granted ↦ if granted then suc rest else rest ])
            ≤ limit - n
      granted_or_not none rest m h le yes' = omega arith
      granted_or_not (some true) rest m h le yes' = let (room, next) = yes' refl in omega arith
      granted_or_not (some false) rest m h le yes' = omega arith

  abbrev pub answers : ℕ → List Link
  answers zero = []
  answers (suc k) = answered ∷ answers k

  le-within : (n : ℕ) → n ≤ limit → within limit (pos n) ≡ true
  le-within n h = ground arith

  allow-granted :
      (n : ℕ) (db : Db)
      → IsAt db n
      → suc n ≤ limit
      → ((allow redis prefix limit window answered open_id db).0 ≡ some true)
        × IsAt (allow redis prefix limit window answered open_id db).1 (suc n)
  unfolding allow call
  allow-granted n db at room =
      let c = allow_script-Counts n db at in
      rw named (
        ap (λ reply. allowed redis limit (some reply)) c.returns ∙ ap some (le-within (suc n) room),
        c.stands,
      )

  grants-answered : (k n : ℕ) (db : Db) → IsAt db n → n + k ≤ limit → grants (answers k) db ≡ k
  unfolding grants
  grants-answered zero n db at room = refl
  grants-answered (suc k) n db at room =
      let (granted, stands) = allow-granted n db at (omega arith) in
      granted_next (allow redis prefix limit window answered open_id db).0 _ granted
      ∙ ap suc (
          grants-answered k (suc n) (allow redis prefix limit window answered open_id db).1 stands
            (omega arith))
    where
      granted_next :
          (answer : Option Bool) (rest : ℕ)
          → answer ≡ some true
          → (elim answer [ none ↦ rest | some granted ↦ if granted then suc rest else rest ])
            ≡ suc rest
      granted_next none rest e = absurd (let impossible : none ≡ some true = e in cc)
      granted_next (some true) rest e = refl
      granted_next (some false) rest e = absurd (let impossible : some false ≡ some true = e in cc)

  -- In a window that begins without a counter: whatever calls or answers are lost, at most `limit` calls
  -- for a person are granted; and if none is lost, then every call up to this number is granted.
  pub grants-le :
      (links : List Link) (k : ℕ) (db : Db)
      → read db key ≡ absent
      → (grants links db ≤ limit) × (k ≤ limit → grants (answers k) db ≡ k)
  grants-le links k db empty = (
    omega (arith, grants-at links 0 db (fresh empty)),
    λ room. grants-answered k 0 db (fresh empty) (omega arith),
  )
