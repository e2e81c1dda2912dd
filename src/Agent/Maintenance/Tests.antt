-- ===== src/Agent/Maintenance/Tests.antt =====
-- The maintenance of a day on the older store, where Mina has written one message on WeChat.
use anime_companion_ai.Prelude.{ℕ, String, ◌≡◌, refl, Option, none, some, List, [], ◌∷◌}
use anime_companion_ai.Conversation.{Identity}
use anime_companion_ai.Orchestration.Maintenance.Trace.{Noted, noted}
use anime_companion_ai.Orchestration.Maintenance.Samples.{answers, today, visitor}
use anime_companion_ai.Agent.Server.{ChatTurn}
use anime_companion_ai.Agent.Maintenance.{run_daily_maintenance}
use anime_companion_ai.Agent.Maintenance.Kept.{noted_owners, IsKept, run_daily_maintenance-IsKept}

abbrev owners : List Noted → Option (List Identity)
owners t = some (visitor.identity ∷ [])

abbrev summarize : List ChatTurn → Option String
summarize turns = some "喜欢棒球。"

abbrev parse : String → Option ℕ
parse s = some today

greeted :
    (run_daily_maintenance
      (noted answers)
      (noted_owners owners)
      summarize
      parse
      none
      "2023-11-14"
      []).0
    ≡ some ("mina" ∷ [])
unfolding run_daily_maintenance
greeted = refl

run_daily_maintenance-IsKept_example :
    IsKept answers owners summarize
      (run_daily_maintenance
        (noted answers)
        (noted_owners owners)
        summarize
        parse
        none
        "2023-11-14"
        []).1
run_daily_maintenance-IsKept_example =
    run_daily_maintenance-IsKept answers owners summarize parse "2023-11-14"
