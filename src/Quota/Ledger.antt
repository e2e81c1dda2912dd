-- ===== src/Quota/Ledger.antt =====
-- The ledger of a day, as the list of the fields of its hash: what the counters count.
use anime_companion_ai.Prelude.{
  ℕ, suc, ◌+◌, ◌≤◌, ◌<◌, String, ◌≡◌, refl, ◌∙◌, sym, Bool, true, false, not, ◌&&◌, ◌||◌, Option,
  none, some, arith, str_eq, eq_iff, if◌then◌else◌,
}
use anime_companion_ai.Prelude.Int.{ℤ, pos, negsuc, ◌+ℤ◌, pos-+ℤ, pos-+ℤ_minus_one}
use anime_companion_ai.Prelude.Assoc.{
  Assoc, lookup, insert, without, count, hit, HasOnce, lookup-insert, lookup-without,
  insert-HasOnce, without-HasOnce, count-insert, count-without,
}
use anime_companion_ai.Redis.{Redis}
use anime_companion_ai.Redis.Entries.{number_or_zero, or_zero}

-- The fields that are no counters are requests.
unfoldable pub is_request : String → Bool
is_request f = not (str_eq f "committed" || str_eq f "reserved" || str_eq f "revision")

in_state : String → String → String → Bool
in_state state f v = is_request f && str_eq v state

-- How many requests are in a state.
unfoldable pub requests_in : String → Assoc String → ℕ
unfolding in_state
requests_in state = count (in_state state)

-- A request is no counter.
pub not_counter :
    (request : String)
    → is_request request ≡ true
    → (str_eq request "reserved" ≡ false)
      × (str_eq request "committed" ≡ false)
      × (str_eq request "revision" ≡ false)
unfolding is_request
not_counter request h = (ground arith, ground arith, ground arith)

pub counter_ne :
    (f request : String)
    → is_request f ≡ false
    → is_request request ≡ true
    → str_eq f request ≡ false
counter_ne f request h k = ground (arith, eq_iff f request)

module _ (state : String) (l : Assoc String) where
  -- A counter is in no state.
  pub requests_in-counter :
      (f v : String) → is_request f ≡ false → requests_in state (insert f v l) ≡ requests_in state l
  unfolding requests_in
  requests_in-counter f v h = ground (arith, count-insert (in_state state) f v l)

  pub requests_in-insert :
      (request v : String)
      → is_request request ≡ true
      → requests_in state (insert request v l)
          + hit (λ f w. str_eq w state) request (lookup request l)
        ≡ requests_in state l + (if str_eq v state then 1 else 0)
  unfolding requests_in
  requests_in-insert request v h = ground (arith, count-insert (in_state state) request v l)

  pub requests_in-without :
      (request : String)
      → is_request request ≡ true
      → HasOnce l
      → requests_in state (without request l)
          + hit (λ f w. str_eq w state) request (lookup request l)
        ≡ requests_in state l
  unfolding requests_in
  requests_in-without request h once = ground (arith, count-without (in_state state) request l once)

module _ (redis : Redis) where
  open redis use {itoa, tonumber, tonumber-itoa, tonumber_zero}

  unfoldable pub number : Assoc String → String → ℤ
  number l f = tonumber (or_zero (lookup f l))

  -- HINCRBY on the fields.
  unfoldable pub bump : String → ℤ → Assoc String → Assoc String
  bump f n l = insert f (itoa (number_or_zero itoa tonumber (lookup f l) +ℤ n)) l

  or_zero-number : (o : Option String) → number_or_zero itoa tonumber o ≡ tonumber (or_zero o)
  or_zero-number none = sym tonumber_zero
  or_zero-number (some s) = refl

  pub number-insert :
      (f g v : String) (l : Assoc String)
      → number (insert f v l) g ≡ (if str_eq f g then tonumber v else number l g)
  unfolding number
  number-insert f g v l = ground (arith, lookup-insert f g v l)

  pub number-without :
      (f g : String) (l : Assoc String) → str_eq f g ≡ false → number (without f l) g ≡ number l g
  unfolding number
  number-without f g l h = ground (arith, lookup-without f g l)

  pub number-bump :
      (f g : String) (n : ℤ) (l : Assoc String)
      → number (bump f n l) g ≡ (if str_eq f g then number l f +ℤ n else number l g)
  unfolding bump
  number-bump f g n l =
      rw number-insert (rw (tonumber-itoa, or_zero-number (lookup f l)) (unfold number in refl))

  pub lookup-bump :
      (f g : String) (n : ℤ) (l : Assoc String)
      → str_eq f g ≡ false
      → lookup g (bump f n l) ≡ lookup g l
  unfolding bump
  lookup-bump f g n l h = rw (lookup-insert, h)

  pub bump-HasOnce : (f : String) (n : ℤ) (l : Assoc String) → HasOnce l → HasOnce (bump f n l)
  unfolding bump
  bump-HasOnce f n l h = insert-HasOnce f _ l h

  pub requests_in-bump :
      (state f : String) (n : ℤ) (l : Assoc String)
      → is_request f ≡ false
      → requests_in state (bump f n l) ≡ requests_in state l
  unfolding bump
  requests_in-bump state f n l h = requests_in-counter state l f _ h

  -- The counters say how many requests are in each state, and these are at most `limit`.
  pub record IsLedger (limit : ℕ) (l : Assoc String) : Type 0 where
    pub once : HasOnce l
    pub reserved : number l "reserved" ≡ pos (requests_in "reserved" l)
    pub committed : number l "committed" ≡ pos (requests_in "delivered" l)
    pub within : requests_in "reserved" l + requests_in "delivered" l ≤ limit

  IsLedger-revision :
      (limit : ℕ) (n : ℤ) (l : Assoc String)
      → IsLedger limit l
      → IsLedger limit (bump "revision" n l)
  IsLedger-revision limit n l h =
      let no_request : is_request "revision" ≡ false = unfold is_request in refl in
      let r = requests_in-bump "reserved" "revision" n l no_request in
      let d = requests_in-bump "delivered" "revision" n l no_request in
      record {
        once = bump-HasOnce "revision" n l h.once;
        reserved = rw (number-bump, r) h.reserved;
        committed = rw (number-bump, d) h.committed;
        within = omega (arith, r, d, h.within);
      }

  -- The fields after a first reservation.
  unfoldable pub reserve_fields : String → Assoc String → Assoc String
  reserve_fields request l =
      bump "revision" (pos 1) (bump "reserved" (pos 1) (insert request "reserved" l))

  pub reserve_fields-IsLedger :
      (limit : ℕ) (request : String) (l : Assoc String)
      → is_request request ≡ true
      → lookup request l ≡ none
      → requests_in "reserved" l + requests_in "delivered" l < limit
      → IsLedger limit l
      → IsLedger limit (reserve_fields request l)
  unfolding reserve_fields
  reserve_fields-IsLedger limit request l named unknown room h =
      let l' = insert request "reserved" l in
      let no_request : is_request "reserved" ≡ false = unfold is_request in refl in
      let r = requests_in-bump "reserved" "reserved" (pos 1) l' no_request in
      let d = requests_in-bump "delivered" "reserved" (pos 1) l' no_request in
      let r' : requests_in "reserved" l' ≡ requests_in "reserved" l + 1 =
        ground (arith, requests_in-insert "reserved" l request "reserved" named) in
      let d' : requests_in "delivered" l' ≡ requests_in "delivered" l =
        ground (arith, requests_in-insert "delivered" l request "reserved" named) in
      let other = not_counter request named in
      IsLedger-revision limit (pos 1) _ (record {
        once = bump-HasOnce _ _ _ (insert-HasOnce request _ l h.once);
        reserved = rw (number-bump, number-insert, other.0, h.reserved, r, r') (pos-+ℤ _ 1);
        committed = rw (number-bump, number-insert, other.1, d, d') h.committed;
        within = omega (arith, r, d, r', d');
      })

  -- The fields after a request is settled as delivered, and as failed.
  unfoldable pub deliver_fields : String → Assoc String → Assoc String
  deliver_fields request l =
      bump "revision" (pos 1)
        (insert request "delivered" (bump "committed" (pos 1) (bump "reserved" (negsuc 0) l)))

  unfoldable pub fail_fields : String → Assoc String → Assoc String
  fail_fields request l = bump "revision" (pos 1) (without request (bump "reserved" (negsuc 0) l))

  module _ (limit : ℕ) (request : String) (l : Assoc String) (named : is_request request ≡ true)
      (open_request : lookup request l ≡ some "reserved") (h : IsLedger limit l) where
    pub deliver_fields-IsLedger : IsLedger limit (deliver_fields request l)
    unfolding deliver_fields
    deliver_fields-IsLedger =
        let l₁ = bump "reserved" (negsuc 0) l in
        let l₂ = bump "committed" (pos 1) l₁ in
        let l₃ = insert request "delivered" l₂ in
        let other = not_counter request named in
        let still : lookup request l₂ ≡ some "reserved" =
          rw
            (
              lookup-bump "committed" request (pos 1) l₁
                  (counter_ne "committed" request (unfold is_request in refl) named),
              lookup-bump "reserved" request (negsuc 0) l
                  (counter_ne "reserved" request (unfold is_request in refl) named),
            )
            open_request in
        let count_of = λ (state : String).
          requests_in-bump state "committed" (pos 1) l₁ (unfold is_request in refl)
          ∙ requests_in-bump state "reserved" (negsuc 0) l (unfold is_request in refl) in
        let r : requests_in "reserved" l ≡ suc (requests_in "reserved" l₃) = ground (
          arith,
          requests_in-insert "reserved" l₂ request "delivered" named,
          count_of "reserved",
        ) in
        let d : requests_in "delivered" l₃ ≡ requests_in "delivered" l + 1 = ground (
          arith,
          requests_in-insert "delivered" l₂ request "delivered" named,
          count_of "delivered",
        ) in
        IsLedger-revision limit (pos 1) l₃ (record {
          once = insert-HasOnce _ _ _ (bump-HasOnce _ _ _ (bump-HasOnce _ _ _ h.once));
          reserved =
              rw (number-insert, other.0, number-bump, number-bump, h.reserved, r)
                (pos-+ℤ_minus_one _);
          committed =
              rw (number-insert, other.1, number-bump, number-bump, h.committed, d) (pos-+ℤ _ 1);
          within = omega (arith, r, d, h.within);
        })

    pub fail_fields-IsLedger : IsLedger limit (fail_fields request l)
    unfolding fail_fields
    fail_fields-IsLedger =
        let l₁ = bump "reserved" (negsuc 0) l in
        let l₂ = without request l₁ in
        let other = not_counter request named in
        let once = bump-HasOnce "reserved" (negsuc 0) l h.once in
        let still : lookup request l₁ ≡ some "reserved" =
          rw
            (lookup-bump "reserved" request (negsuc 0) l
              (counter_ne "reserved" request (unfold is_request in refl) named))
            open_request in
        let count_of = λ (state : String).
          requests_in-bump state "reserved" (negsuc 0) l (unfold is_request in refl) in
        let r : requests_in "reserved" l ≡ suc (requests_in "reserved" l₂) =
          ground
            (arith, requests_in-without "reserved" l₁ request named once, count_of "reserved") in
        let d : requests_in "delivered" l₂ ≡ requests_in "delivered" l =
          ground
            (arith, requests_in-without "delivered" l₁ request named once, count_of "delivered") in
        IsLedger-revision limit (pos 1) l₂ (record {
          once = without-HasOnce request l₁ once;
          reserved =
              rw (number-without request "reserved" l₁ other.0, number-bump, h.reserved, r)
                (pos-+ℤ_minus_one _);
          committed =
              rw (number-without request "committed" l₁ other.1, number-bump, d) h.committed;
          within = omega (arith, r, d, h.within);
        })
