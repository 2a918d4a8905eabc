-- ===== src/Health/Evaluation.antt =====
-- collectors/source_health.py: _fresh_boundary_minutes, _evaluate_manual_source_health,
-- evaluate_source_health.
use logistics_situation_plat.Model.{Source, Time, minute, AccessMethod, access_method_eq}
use logistics_situation_plat.Health.Runs.{
  HealthError, missing_max_stale, latest_run, latest_success_run, latest_reviewed_event,
}
use logistics_situation_plat.Model.{Run, RunStatus, run_error, ReviewEvent}
use logistics_situation_plat.Base.{
  option_eq, suc, Result, ok, raise, ◌>>=◌, leb, ℕ, ◌+◌, ◌*◌, ◌/◌, String, Bool, true, false, not,
  List, [], ◌∷◌, Option, none, some, ◌==◌, if◌then◌else◌,
}

pub data SourceStatus : Type 0 where
  is_fresh is_stale very_stale no_data disabled in_error : SourceStatus

-- A `SourceHealth`; its times are instants, which the code prints in ISO form.
pub record SourceHealth : Type 0 where
  pub source_id : String
  pub status : SourceStatus
  pub last_checked_at : Option Time
  pub last_success_at : Option Time
  pub last_error : Option String
  pub item_count : Option ℕ
  pub required_for_publication : Bool
  pub max_stale_minutes : ℕ

-- `cadence` if it is positive, and half of the stale limit, at least 1, otherwise.
unfoldable pub fresh_boundary_minutes : Option ℕ → ℕ → ℕ
fresh_boundary_minutes (some (suc n)) max_stale = suc n
fresh_boundary_minutes _ max_stale = if leb 1 (max_stale / 2) then max_stale / 2 else 1

-- The tests on `age_minutes`, for a time that is not later than `now`.
unfoldable pub clock_status : Source → ℕ → Time → Time → SourceStatus
clock_status source max_stale since now =
    if leb now (since + fresh_boundary_minutes source.expected_cadence_minutes max_stale * minute)
    then is_fresh
    else (if leb now (since + max_stale * minute) then is_stale else very_stale)

abbrev pub max_stale_of : Option ℕ → Result HealthError ℕ
max_stale_of none = raise missing_max_stale
max_stale_of (some minutes) = ok minutes

unfoldable pub manual_health : Source → ℕ → Time → Option (ReviewEvent × Time) → SourceHealth
manual_health source max_stale now none = record {
  source_id = source.id;
  status = disabled;
  last_checked_at = none;
  last_success_at = none;
  last_error = none;
  item_count = none;
  required_for_publication = source.required_for_publication;
  max_stale_minutes = max_stale;
}
manual_health source max_stale now (some (event, reviewed_at)) = record {
  source_id = source.id;
  status = clock_status source max_stale reviewed_at now;
  last_checked_at = some reviewed_at;
  last_success_at = some reviewed_at;
  last_error = none;
  item_count = event.record_count;
  required_for_publication = source.required_for_publication;
  max_stale_minutes = max_stale;
}

-- The chain of tests for a source that collects by itself.
abbrev pub failed : Option (Run × Time) → Bool
failed none = false
failed (some (run, time)) = has_failed run.status
  where
    has_failed : RunStatus → Bool
    has_failed run_error = true
    has_failed _ = false

unfoldable pub automated_status :
    Source → ℕ → Time → Option (Run × Time) → Option (Run × Time) → SourceStatus
automated_status source max_stale now none success = if source.enabled then no_data else disabled
automated_status source max_stale now (some checked) none =
    if not source.enabled then disabled else (if failed (some checked) then in_error else no_data)
automated_status source max_stale now (some checked) (some (run, time)) =
    if not source.enabled
    then disabled
    else (if failed (some checked) then in_error else clock_status source max_stale time now)

abbrev pub time_of : {A : Type 0} → Option (A × Time) → Option Time
time_of none = none
time_of (some (a, time)) = some time

abbrev pub last_text : String → List String → String
last_text text [] = text
last_text text (next ∷ rest) = last_text next rest

-- The last error text of a failed run.
unfoldable pub last_error_of : Option (Run × Time) → Option String
last_error_of none = none
last_error_of (some (run, time)) =
    if failed (some (run, time))
    then some (last_text "Source reported an error with no message." run.errors)
    else none

abbrev pub emitted : Option (Run × Time) → Option ℕ
emitted none = none
emitted (some (run, time)) = run.records_emitted

unfoldable pub automated_health :
    Source → ℕ → Time → Option (Run × Time) → Option (Run × Time) → SourceHealth
automated_health source max_stale now checked success = record {
  source_id = source.id;
  status = automated_status source max_stale now checked success;
  last_checked_at = time_of checked;
  last_success_at = time_of success;
  last_error = last_error_of checked;
  item_count = emitted success;
  required_for_publication = source.required_for_publication;
  max_stale_minutes = max_stale;
}

unfoldable pub evaluate_automated_health :
    Source → ℕ → List Run → Time → Result HealthError SourceHealth
evaluate_automated_health source max_stale runs now = do
  checked ← latest_run runs now
  success ← latest_success_run runs now
  ok (automated_health source max_stale now checked success)

unfoldable pub evaluate_manual_source_health :
    Source → ℕ → List ReviewEvent → Time → Result HealthError SourceHealth
evaluate_manual_source_health source max_stale events now = do
  reviewed ← latest_reviewed_event events now
  ok (manual_health source max_stale now reviewed)

-- The evaluation by the access method, once the stale limit is read.
unfoldable pub evaluate_by_access :
    Source → ℕ → List Run → Time → List ReviewEvent → Result HealthError SourceHealth
evaluate_by_access source max_stale runs now manual_review_events =
    if source.access_method == some AccessMethod.manual
    then evaluate_manual_source_health source max_stale manual_review_events now
    else evaluate_automated_health source max_stale runs now

unfoldable pub evaluate_source_health :
    Source → List Run → Time → List ReviewEvent → Result HealthError SourceHealth
evaluate_source_health source runs now manual_review_events = do
  max_stale ← max_stale_of source.max_stale_minutes
  evaluate_by_access source max_stale runs now manual_review_events
