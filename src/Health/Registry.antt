-- ===== src/Health/Registry.antt =====
-- collectors/source_health.py: evaluate_registry_health.
use logistics_situation_plat.Model.{Registry, Time}
use logistics_situation_plat.Health.Runs.{HealthError}
use logistics_situation_plat.Model.{Run, ReviewEvent}
use logistics_situation_plat.Health.Evaluation.{SourceHealth, evaluate_source_health}
use logistics_situation_plat.Health.Coverage.{
  CapabilityCoverage, CoverageStatus, sufficient, limited, insufficient_coverage,
  capability_coverage, overall_status,
}
use logistics_situation_plat.Base.{
  false, string_eq, Result, ok, ◌>>=◌, any_of, lookup, or_else, leb, ℕ, String, Bool, List, [], ◌∷◌,
  ◌++◌, map, Option, none, some, ◌==◌, if◌then◌else◌,
}

-- `runs_by_source.get(source["id"], ())` and the same for the review events.
abbrev pub listed_for : {A : Type 0} → List (String × List A) → String → List A
listed_for entries source_id = or_else (lookup source_id entries) []

-- The health of every source, in the order of the registry.
unfoldable pub source_healths :
    Registry
    → List (String × List Run)
    → Time
    → List (String × List ReviewEvent)
    → Result HealthError (List SourceHealth)
source_healths [] runs now events = ok []
source_healths (source ∷ rest) runs now events = do
  health ←
      evaluate_source_health source (listed_for runs source.id) now (listed_for events source.id)
  others ← source_healths rest runs now events
  ok (health ∷ others)

-- `health_by_id[…]`: of two healths with one id the last stands.
unfoldable pub health_by_id : List SourceHealth → String → Option SourceHealth
health_by_id [] source_id = none
health_by_id (health ∷ rest) source_id = elim (health_by_id rest source_id) [
  | some later ↦ some later
  | none ↦ if health.source_id == source_id then some health else none
]

-- `capabilities.setdefault(purpose, []).append(health)`
unfoldable pub add_health :
    String → SourceHealth → List (String × List SourceHealth) → List (String × List SourceHealth)
add_health purpose health [] = (purpose, health ∷ []) ∷ []
add_health purpose health ((name, healths) ∷ rest) =
    if name == purpose
    then (name, healths ++ health ∷ []) ∷ rest
    else (name, healths) ∷ add_health purpose health rest

unfoldable pub add_purposes :
    List String
    → Option SourceHealth
    → List (String × List SourceHealth)
    → List (String × List SourceHealth)
add_purposes purposes none groups = groups
add_purposes [] (some health) groups = groups
add_purposes (purpose ∷ rest) (some health) groups =
    add_purposes rest (some health) (add_health purpose health groups)

-- The two loops over the sources and their purposes.
unfoldable pub capability_groups :
    Registry
    → List SourceHealth
    → List (String × List SourceHealth)
    → List (String × List SourceHealth)
capability_groups [] healths groups = groups
capability_groups (source ∷ rest) healths groups =
    capability_groups rest healths
      (add_purposes source.purposes (health_by_id healths source.id) groups)

pub data CoverageMessage : Type 0 where
  sufficient_message limited_message partial_evidence zero_evidence : CoverageMessage

abbrev pub has_items : Option ℕ → Bool
has_items none = false
has_items (some count) = leb 1 count

unfoldable pub coverage_message : CoverageStatus → List SourceHealth → CoverageMessage
coverage_message sufficient healths = sufficient_message
coverage_message limited healths = limited_message
coverage_message insufficient_coverage healths =
    if any_of (λ health. has_items health.item_count) healths
    then partial_evidence
    else zero_evidence

-- The snapshot, without the time that it was made at; the code sorts the capabilities by name.
pub record RegistryHealth : Type 0 where
  pub overall : CoverageStatus
  pub message : CoverageMessage
  pub sources : List SourceHealth
  pub capabilities : List CapabilityCoverage

unfoldable pub registry_health : Registry → List SourceHealth → RegistryHealth
registry_health registry healths =
    let coverages =
      map (λ group. capability_coverage group.0 group.1) (capability_groups registry healths []) in
    let overall = overall_status coverages healths in
    record {
      overall = overall;
      message = coverage_message overall healths;
      sources = healths;
      capabilities = coverages;
    }

unfoldable pub evaluate_registry_health :
    Registry
    → List (String × List Run)
    → Time
    → List (String × List ReviewEvent)
    → Result HealthError RegistryHealth
evaluate_registry_health registry runs now events = do
  healths ← source_healths registry runs now events
  ok (registry_health registry healths)
