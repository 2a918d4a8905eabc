-- ===== src/Situations/Rules.antt =====
-- analysis/situations.py: the tests of rules 1 to 4.
use logistics_situation_plat.Model.{
  freshness_state_eq, grade_eq, impact_status_eq, Event, Impact, Area, Severity, Grade,
  FreshnessState, no_severity, moderate, high, critical, severity_code, observed, potential,
  elevated_watch, insufficient_evidence, no_material, confirmed, corroborated, reported, fresh,
  ageing,
}
use logistics_situation_plat.Grading.{compute_evidence_grade, has_capping_contradiction, is_capping}
use logistics_situation_plat.Situations.Gate.{Inputs}
use logistics_situation_plat.Base.{
  option_eq, all_of, non_empty, keep, collect, truthy, ltb, not, Bool, true, false, ◌&&◌, ◌||◌,
  List, [], ◌∷◌, Option, none, some, ◌==◌, if◌then◌else◌,
}

-- An event that passed Gate 0, with its grade and its freshness.
pub record Entry : Type 0 where
  pub event : Event
  pub grade : Option Grade
  pub freshness : FreshnessState

-- `_MATERIAL_SEVERITIES`; also the severities that are at least moderate.
abbrev pub is_material : Severity → Bool
is_material moderate = true
is_material high = true
is_material critical = true
is_material _ = false

abbrev pub was_observed : Impact → Bool
was_observed impact = impact.status == some observed

abbrev pub is_watched : Impact → Bool
is_watched impact = impact.status == some potential || impact.status == some elevated_watch

-- The loop of `_worst_impact_status_severity`, from the best so far.
unfoldable pub worst_from :
    (Impact → Bool) → Option Area × Severity → List Impact → Option Area × Severity
worst_from has_status best [] = best
worst_from has_status best (impact ∷ rest) =
    worst_from has_status
      (if not (has_status impact)
        then best
        else (if ltb (severity_code best.1) (severity_code impact.severity)
            then (some impact.area, impact.severity)
            else best))
      rest

unfoldable pub worst_impact_status_severity : (Impact → Bool) → Event → Option Area × Severity
worst_impact_status_severity has_status event =
    worst_from has_status (none, no_severity) event.impact_assessments

-- `area is not None and severity` material: the area, if both hold.
abbrev pub material_part : Option Area × Severity → Option (Area × Severity)
material_part (none, _) = none
material_part (some area, severity) = if is_material severity then some (area, severity) else none

unfoldable pub material_area : (Impact → Bool) → Event → Option (Area × Severity)
material_area has_status event = material_part (worst_impact_status_severity has_status event)

abbrev pub is_some : {A : Type 0} → Option A → Bool
is_some none = false
is_some (some a) = true

-- "no impact area yet assessed"
unfoldable pub is_unassessed : Event → Bool
is_unassessed event =
    non_empty event.impact_assessments
    && all_of (λ impact. impact.status == some insufficient_evidence) event.impact_assessments

-- `grade in {"CONFIRMED", "CORROBORATED", "REPORTED"}`
abbrev pub is_reported_grade : Option Grade → Bool
is_reported_grade grade =
    grade == some confirmed || grade == some corroborated || grade == some reported

-- The event without its capping conflicts.
unfoldable pub stripped : Event → Event
stripped event = record event {
  conflicting_evidence = keep (λ entry. not (is_capping entry)) event.conflicting_evidence;
}

-- The tests of `_would_reach_rule1_or_rule3` on the grade of the stripped event.
unfoldable pub reaches : Option Grade → FreshnessState → Event → Bool
reaches grade freshness event =
    (grade == some confirmed
      && (is_some (material_area was_observed event) && freshness == fresh
          || is_unassessed event
          || is_some (material_area was_observed event) && freshness == ageing))
    || (is_reported_grade grade && is_some (material_area is_watched event))

unfoldable pub would_reach_rule1_or_rule3 : Inputs → FreshnessState → Event → Bool
would_reach_rule1_or_rule3 inputs freshness event =
    let (grade, basis) =
      compute_evidence_grade (stripped event) inputs.claims_by_id inputs.documents_by_id
        inputs.registry inputs.as_of in
    reaches grade freshness event

-- What an event adds to `status_basis`.
pub data Contribution : Type 0 where
  observed_impact : Area → Severity → Contribution
  core_contradiction : Contribution
  watched_impact : Option Grade → Area → Severity → Contribution
  not_yet_assessed : Contribution
  drifted_impact : Area → Severity → Contribution
  negative_evidence : Area → Contribution

abbrev pub Hit : Type 0
Hit = Event × Contribution

-- One round of the loop of rule 1.
unfoldable pub rule1_hit : Entry → Option Hit
rule1_hit entry =
    if entry.grade == some confirmed
      && entry.freshness == fresh
      && not (has_capping_contradiction entry.event)
    then (elim (material_area was_observed entry.event) [
      | none ↦ none
      | some (area, severity) ↦ some (entry.event, observed_impact area severity)
    ])
    else none

unfoldable pub rule2_hit : Inputs → Entry → Option Hit
rule2_hit inputs entry =
    if has_capping_contradiction entry.event
      && would_reach_rule1_or_rule3 inputs entry.freshness entry.event
    then some (entry.event, core_contradiction)
    else none

-- The watched impact of an event with a grade of REPORTED or better.
unfoldable pub watched_part : Entry → Option Hit
watched_part entry =
    if is_reported_grade entry.grade
    then (elim (material_area is_watched entry.event) [
      | none ↦ none
      | some (area, severity) ↦ some (entry.event, watched_impact entry.grade area severity)
    ])
    else none

unfoldable pub drifted_part : Entry → Option Hit
drifted_part entry =
    if entry.freshness == ageing
    then (elim (material_area was_observed entry.event) [
      | none ↦ none
      | some (area, severity) ↦ some (entry.event, drifted_impact area severity)
    ])
    else none

-- One round of the loop of rule 3.
unfoldable pub rule3_hit : Entry → Option Hit
rule3_hit entry = elim (watched_part entry) [
  | some hit ↦ some hit
  | none ↦
      if not (entry.grade == some confirmed)
      then none
      else (if is_unassessed entry.event
          then some (entry.event, not_yet_assessed)
          else drifted_part entry)
]

-- One round of the inner loop of rule 4.
abbrev pub rule4_round : Event → Impact → Option Hit
rule4_round event impact =
    if impact.status == some no_material && truthy impact.no_material_basis
    then some (event, negative_evidence impact.area)
    else none

-- The hits of one event under rule 4, one for each impact found immaterial on a stated basis.
unfoldable pub rule4_event_hits : Event → List Hit
rule4_event_hits event =
    if not event.negative_operational_evidence
    then []
    else collect (rule4_round event) event.impact_assessments
