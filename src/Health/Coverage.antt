-- ===== src/Health/Coverage.antt =====
-- collectors/source_health.py: _required_source_gap, _capability_coverage, _overall_status.
use logistics_situation_plat.Health.Evaluation.{
  SourceHealth, SourceStatus, is_fresh, is_stale, disabled,
}
use logistics_situation_plat.Base.{
  any_of, all_of, non_empty, is_empty, String, Bool, true, false, not, ◌&&◌, List, map, Option,
  none, some, if◌then◌else◌,
}

-- `status in _LIVE_STATUSES`
abbrev pub is_live : SourceStatus → Bool
is_live is_fresh = true
is_live is_stale = true
is_live _ = false

abbrev pub is_disabled : SourceStatus → Bool
is_disabled disabled = true
is_disabled _ = false

unfoldable pub required_source_gap : List SourceHealth → Bool
required_source_gap healths =
    any_of (λ health. health.required_for_publication && not (is_live health.status)) healths

pub data CoverageStatus : Type 0 where
  sufficient limited insufficient_coverage : CoverageStatus

pub data Gap : Type 0 where
  required_unavailable nothing_enabled degraded : Gap

pub record CapabilityCoverage : Type 0 where
  pub capability : String
  pub status : CoverageStatus
  pub supporting_sources : List String
  pub gap_reason : Option Gap

-- The status and the reason, in the order of the tests.
unfoldable pub coverage_verdict : List SourceHealth → CoverageStatus × Option Gap
coverage_verdict healths =
    if required_source_gap healths
    then (insufficient_coverage, some required_unavailable)
    else (if any_of (λ health. is_live health.status) healths
        then (sufficient, none)
        else (if non_empty healths && all_of (λ health. is_disabled health.status) healths
            then (insufficient_coverage, some nothing_enabled)
            else (limited, some degraded)))

unfoldable pub capability_coverage : String → List SourceHealth → CapabilityCoverage
capability_coverage capability healths =
    let (status, gap) = coverage_verdict healths in
    record {
      capability = capability;
      status = status;
      supporting_sources = map (λ health. health.source_id) healths;
      gap_reason = gap;
    }

abbrev pub is_insufficient : CoverageStatus → Bool
is_insufficient insufficient_coverage = true
is_insufficient _ = false

abbrev pub is_limited : CoverageStatus → Bool
is_limited limited = true
is_limited _ = false

unfoldable pub overall_status : List CapabilityCoverage → List SourceHealth → CoverageStatus
overall_status coverages healths =
    if required_source_gap healths
    then insufficient_coverage
    else (if is_empty coverages
        then insufficient_coverage
        else (if any_of (λ coverage. is_insufficient coverage.status) coverages
            then (if all_of (λ coverage. is_insufficient coverage.status) coverages
                then insufficient_coverage
                else limited)
            else (if any_of (λ coverage. is_limited coverage.status) coverages
                then limited
                else sufficient)))
