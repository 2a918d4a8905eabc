-- ===== src/Tests/Health.antt =====
-- Runs of the source health on one run of a feed, and its theorems there.
use logistics_situation_plat.Health.Liveness.{evaluate_automated_health-fresh, IsRecentSuccess}
use logistics_situation_plat.Health.{
  SourceHealth, CapabilityCoverage, evaluate_automated_health, automated_health, automated_status,
  clock_status, fresh_boundary_minutes, last_error_of, latest_run, latest_success_run, dated,
  parse_timestamp, latest_from, is_fresh, sufficient,
}
use logistics_situation_plat.Model.{Run, run_success}
use logistics_situation_plat.Tests.Data.{quiet_run, port_source, stamp, notice_time, next_day}
use logistics_situation_plat.Base.{
  keep, ok, ◌≡◌, refl, Memᴰ, true, none, some, [], ◌∷◌, ◌==◌, string_eq, option_eq, nat_eq,
}

abbrev good_run : Run
good_run = record quiet_run {
  status = run_success;
  completed_at = some (stamp "2026-04-11T00:00:00Z" notice_time);
  records_emitted = some 3;
  errors = [];
}

abbrev fresh_health : SourceHealth
fresh_health = record {
  source_id = "PORT-AUTHORITY";
  status = is_fresh;
  last_checked_at = some notice_time;
  last_success_at = some notice_time;
  last_error = none;
  item_count = some 3;
  required_for_publication = true;
  max_stale_minutes = 2880;
}

abbrev notices : CapabilityCoverage
notices = record {
  capability = "operational_notices";
  status = sufficient;
  supporting_sources = "PORT-AUTHORITY" ∷ [];
  gap_reason = none;
}

good_evaluation :
    evaluate_automated_health port_source 2880 (good_run ∷ []) next_day ≡ ok fresh_health
unfolding evaluate_automated_health automated_health automated_status clock_status
    fresh_boundary_minutes last_error_of latest_run latest_success_run dated parse_timestamp
    latest_from keep ◌==◌
good_evaluation = refl

evaluate_automated_health-fresh_example :
    (port_source.enabled ≡ true)
    × ((run : Run) × Memᴰ run (good_run ∷ []) × IsRecentSuccess port_source 2880 next_day run)
evaluate_automated_health-fresh_example =
    evaluate_automated_health-fresh port_source 2880 (good_run ∷ []) next_day fresh_health
      good_evaluation refl
