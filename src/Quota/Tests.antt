-- ===== src/Quota/Tests.antt =====
-- The quota manager on a server in memory, with a limit of two requests a day.
use anime_companion_ai.Prelude.{ℕ, String, ◌≡◌, refl, false, true, ltb}
use anime_companion_ai.Prelude.Int.{pos, ◌+ℤ◌}
use anime_companion_ai.Prelude.Assoc.{lookup, insert}
use anime_companion_ai.Redis.Memory.{Db, memory, fresh}
use anime_companion_ai.Redis.Link.{Link, answered, answer_lost}
use anime_companion_ai.Quota.Types.{Subject, delivered, limited_snapshot}
use anime_companion_ai.Quota.Script.{ReserveReply, counter, reserve_script}
use anime_companion_ai.Quota.Invariant.{HasLedger, IsLedgerEntry-absent}
use anime_companion_ai.Quota.Ledger.{is_request}
use anime_companion_ai.Quota.Retry.{IsRepeated, reserve_script-again}
use anime_companion_ai.Quota.Manager.{Manager, Reserved, reserve, settle}
use anime_companion_ai.Quota.Histories.{
  AllLedgers, Reach, here, next, reserves, settles, reserve-IsNamed, Reach-AllLedgers,
}

abbrev manager : Manager
manager = record { prefix = "quota:"; limit = pos 2 }

abbrev digest : String → String
digest s = s

abbrev format_date : ℕ → String
format_date day = "1970-01-01"

abbrev mina : Subject
mina = record { user_id = "mina"; is_admin = false }

abbrev reserve_one : Link → Db → Reserved × Db
reserve_one link db = reserve memory digest format_date manager link mina "r1" 1000 db

-- The first request, whose answer is lost.
abbrev lost : Reserved × Db
lost = reserve_one answer_lost (fresh 1000)

-- The same request once more.
abbrev again : Reserved × Db
again = reserve_one answered lost.1

abbrev settled : Db
settled =
    (settle memory digest format_date manager answered answered again.0.reservation delivered 1060
      again.1).1

again-used : again.0.snapshot.used ≡ pos 1
unfolding reserve lookup ◌+ℤ◌ counter insert limited_snapshot
again-used = refl

fresh-AllLedgers : AllLedgers memory digest format_date manager 2 refl (fresh 1000)
fresh-AllLedgers key = IsLedgerEntry-absent memory 2

again-Reach : Reach memory digest format_date manager 2 refl (fresh 1000) again.1
again-Reach =
    next (next here (reserves answer_lost mina "r1" 1000)) (reserves answered mina "r1" 1000)

settled-Reach : Reach memory digest format_date manager 2 refl (fresh 1000) settled
settled-Reach = next again-Reach (
    settles answered answered again.0.reservation delivered 1060
      (reserve-IsNamed memory digest format_date manager 2 refl answered mina "r1" 1000
        lost.1).named)

Reach-AllLedgers_example : HasLedger memory 2 settled "quota:mina:1970-01-01"
Reach-AllLedgers_example =
    Reach-AllLedgers memory digest format_date manager 2 refl fresh-AllLedgers settled-Reach
      "quota:mina:1970-01-01"

named : is_request "request:r1" ≡ true
unfolding is_request
named = refl

-- The first of two calls of the script.
first : ReserveReply × Db
unfolding reserve_script
first = reserve_script memory "today" "yesterday" "request:r1" (pos 2) 5000 4000 (fresh 1000)

first_accepted : first.0.accepted ≡ 1
unfolding first reserve_script lookup ◌+ℤ◌ counter insert
first_accepted = refl

first_ahead : (ltb (memory.clock first.1) 5000 ≡ true) × (ltb (memory.clock first.1) 4000 ≡ true)
unfolding first reserve_script lookup ◌+ℤ◌ counter insert
first_ahead = (refl, refl)

reserve_script-again_example :
    IsRepeated memory 2 "today" "yesterday" "request:r1" 5000 4000 named first.1
      (reserve_script memory "today" "yesterday" "request:r1" (pos 2) 5000 4000 first.1)
unfolding first
reserve_script-again_example =
    reserve_script-again memory 2 "today" "yesterday" "request:r1" 5000 4000 named (fresh 1000)
      (IsLedgerEntry-absent memory 2) (refl, refl) first_accepted first_ahead
