-- ===== src/Orchestration/Maintenance/Tests.antt =====
-- The maintenance of a day with one message.
use anime_companion_ai.Prelude.{◌≡◌, refl, true, some, [], ◌∷◌}
use anime_companion_ai.Prelude.Text.{trim_space, is_empty}
use anime_companion_ai.Orchestration.Maintenance.{archive_turn, maintain_day}
use anime_companion_ai.Orchestration.Maintenance.Trace.{
  noted, listed, read, filed, cleared, purged, IsSafe, maintain_day-IsSafe,
}
use anime_companion_ai.Orchestration.Maintenance.Samples.{
  answers, today, summariser, message, visitor,
}

-- All calls that are made, the last first.
calls :
    (maintain_day (noted answers) summariser true today []).1
    ≡ purged 1699395200 true
      ∷ cleared visitor today true
      ∷ filed visitor today [] "喜欢棒球。" true
      ∷ filed visitor today (archive_turn message ∷ []) "" true
      ∷ read visitor today (some (message ∷ []))
      ∷ listed today
      ∷ []
unfolding maintain_day trim_space is_empty
calls = refl

maintain_day-IsSafe_example :
    IsSafe answers summariser (maintain_day (noted answers) summariser true today []).1
maintain_day-IsSafe_example = maintain_day-IsSafe answers summariser true today
