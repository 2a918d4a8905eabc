-- ===== src/Health/Runs.antt =====
-- collectors/source_health.py: _parse_timestamp, _latest_run, _latest_success_run,
-- _latest_reviewed_event.
use logistics_situation_plat.Model.{
  Stamp, Time, Run, RunStatus, ReviewEvent, run_success, run_not_modified,
}
use logistics_situation_plat.Base.{
  string_eq, ◌++◌, Result, ok, raise, ◌>>=◌, keep, leb, ltb, Bool, true, false, List, [], ◌∷◌,
  Option, none, some, ◌==◌, if◌then◌else◌,
}

-- What can be raised: ValueError on a text that is no date-time, and an absent
-- `max_stale_minutes`.
pub data HealthError : Type 0 where
  malformed_timestamp missing_max_stale : HealthError

-- `_parse_timestamp`: unlike the readers of analysis/, it does not catch the ValueError.
abbrev pub parsed_or_error : Option Time → Result HealthError (Option Time)
parsed_or_error none = raise malformed_timestamp
parsed_or_error (some time) = ok (some time)

unfoldable pub parse_timestamp : Option Stamp → Result HealthError (Option Time)
parse_timestamp none = ok none
parse_timestamp (some at) = if at.text == "" then ok none else parsed_or_error at.parsed

abbrev pub pair_with : {A : Type 0} → A → Option Time → List (A × Time) → List (A × Time)
pair_with a none rest = rest
pair_with a (some time) rest = (a, time) ∷ rest

-- The dated items that are not later than `now`, with their times.
unfoldable pub dated :
    {A : Type 0} → (A → Option Stamp) → Time → List A → Result HealthError (List (A × Time))
dated stamp_of now [] = ok []
dated stamp_of now (item ∷ rest) = do
  time ← parse_timestamp (stamp_of item)
  others ← dated stamp_of now rest
  ok (keep (λ pair. leb pair.1 now) (pair_with item time []) ++ others)

-- `max(dated, key=…)`: the first of those with the greatest time.
unfoldable pub latest_from : {A : Type 0} → A × Time → List (A × Time) → A × Time
latest_from best [] = best
latest_from best (pair ∷ rest) = latest_from (if ltb best.1 pair.1 then pair else best) rest

abbrev pub latest : {A : Type 0} → List (A × Time) → Option (A × Time)
latest [] = none
latest (pair ∷ rest) = some (latest_from pair rest)

-- `_latest_run`, with the time of the run.
unfoldable pub latest_run : List Run → Time → Result HealthError (Option (Run × Time))
latest_run runs now = do pairs ← dated (λ run. run.completed_at) now runs; ok (latest pairs)

-- `status in _SUCCESS_RUN_STATUSES`
abbrev pub is_success : RunStatus → Bool
is_success run_success = true
is_success run_not_modified = true
is_success _ = false

unfoldable pub latest_success_run : List Run → Time → Result HealthError (Option (Run × Time))
latest_success_run runs now = latest_run (keep (λ run. is_success run.status) runs) now

unfoldable pub latest_reviewed_event :
    List ReviewEvent → Time → Result HealthError (Option (ReviewEvent × Time))
latest_reviewed_event events now = do
  pairs ← dated (λ event. event.reviewed_at) now (keep (λ event. event.is_reviewed) events)
  ok (latest pairs)
