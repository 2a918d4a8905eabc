-- ===== src/Tests/Rollup.antt =====
-- The roll-up of directions, and the snapshot of a registry, at concrete arguments.
use logistics_situation_plat.Thresholds.Rollup.{combine_directions-groups}
use logistics_situation_plat.Thresholds.{improving, level, deteriorating, combine_directions}
use logistics_situation_plat.Health.Snapshot.{evaluate_registry_health-required}
use logistics_situation_plat.Health.{
  listed_for, SourceHealth, RegistryHealth, in_error, evaluate_registry_health, registry_health,
  source_healths, evaluate_source_health, evaluate_by_access, evaluate_automated_health,
  automated_health, automated_status, last_error_of, latest_run, latest_success_run, dated,
  parse_timestamp, latest_from, insufficient_coverage,
}
use logistics_situation_plat.Model.{Run, run_error}
use logistics_situation_plat.Model.{Source}
use logistics_situation_plat.Tests.Data.{quiet_run, port_source, stamp, notice_time, next_day}
use logistics_situation_plat.Base.{
  keep, lookup, ok, ◌≡◌, refl, Memᴰ, String, true, none, some, List, [], ◌∷◌, ◌==◌, string_eq,
  option_eq, nat_eq,
}

combine_directions-groups_example :
    (combine_directions
        (combine_directions (improving ∷ level ∷ []) ∷ combine_directions (deteriorating ∷ []) ∷ [])
      ≡ combine_directions (improving ∷ level ∷ deteriorating ∷ []))
    × (combine_directions (improving ∷ level ∷ deteriorating ∷ [])
        ≡ combine_directions (deteriorating ∷ improving ∷ level ∷ []))
combine_directions-groups_example =
    combine_directions-groups (improving ∷ level ∷ []) (deteriorating ∷ [])

abbrev feed_source : Source
feed_source = record port_source { id = "FEED"; access_method = none }

abbrev failed_run : Run
failed_run = record quiet_run {
  status = run_error;
  completed_at = some (stamp "2026-04-11T00:00:00Z" notice_time);
  records_emitted = none;
  errors = "Timed out." ∷ [];
}

abbrev feed_runs : List (String × List Run)
feed_runs = ("FEED", failed_run ∷ []) ∷ []

abbrev failed_health : SourceHealth
failed_health = record {
  source_id = "FEED";
  status = in_error;
  last_checked_at = some notice_time;
  last_success_at = none;
  last_error = some "Timed out.";
  item_count = none;
  required_for_publication = true;
  max_stale_minutes = 2880;
}

abbrev feed_report : RegistryHealth
feed_report = registry_health (feed_source ∷ []) (failed_health ∷ [])

feed_evaluation : evaluate_registry_health (feed_source ∷ []) feed_runs next_day [] ≡ ok feed_report
unfolding evaluate_registry_health source_healths evaluate_source_health evaluate_by_access
    evaluate_automated_health automated_health automated_status last_error_of latest_run
    latest_success_run dated parse_timestamp latest_from keep lookup ◌==◌
feed_evaluation = refl

feed_listed :
    evaluate_source_health feed_source
      (listed_for feed_runs feed_source.id)
      next_day
      (listed_for [] feed_source.id)
    ≡ ok failed_health
unfolding evaluate_source_health evaluate_by_access evaluate_automated_health automated_health
    automated_status last_error_of latest_run latest_success_run dated parse_timestamp latest_from
    keep lookup ◌==◌
feed_listed = refl

evaluate_registry_health-required_example : feed_report.overall ≡ insufficient_coverage
evaluate_registry_health-required_example =
    evaluate_registry_health-required (feed_source ∷ []) feed_runs next_day [] feed_report
      feed_source failed_health feed_evaluation (Memᴰ.head refl) refl feed_listed refl
