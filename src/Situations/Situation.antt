-- ===== src/Situations/Situation.antt =====
-- analysis/situations.py: compute_mode_situation.
use logistics_situation_plat.Model.{
  evidence_layer_eq, grade_eq, Event, Claim, EvidenceLayer, FreshnessState, Grade, fresh, unknown,
  confirmed, corroborated, reported, current_evidence, context, structural_research,
}
use logistics_situation_plat.Grading.{
  compute_evidence_grade, doc_of, independent_group_count, text_gt,
}
use logistics_situation_plat.Situations.Gate.{Inputs, Exclusion, gate0, worst_state}
use logistics_situation_plat.Situations.Rules.{
  Entry, Hit, rule1_hit, rule2_hit, rule3_hit, rule4_event_hits,
}
use logistics_situation_plat.Situations.Confidence.{
  Coverage, Level, Reduction, SituationStatus, coverage_basis, claims_of, confidence_of,
  confirmed_disruption, mixed_evidence, watch_status, no_material_impact_detected,
  insufficient_current_evidence,
}
use logistics_situation_plat.Base.{
  option_eq, string_eq, Result, ok, raise, contains, keep, collect, distinct, length, non_empty,
  truthy, leb, ℕ, String, not, ◌&&◌, List, [], ◌∷◌, ◌++◌, map, Option, none, some, ◌==◌,
  if◌then◌else◌,
}

abbrev pub exclusion_of : Event → Result Exclusion FreshnessState → Option (String × Exclusion)
exclusion_of event (ok freshness) = none
exclusion_of event (raise exclusion) = some (event.event_id, exclusion)

abbrev pub entry_of : Event → Option Grade → Result Exclusion FreshnessState → Option Entry
entry_of event grade (ok freshness) =
    some (record { event = event; grade = grade; freshness = freshness })
entry_of event grade (raise exclusion) = none

abbrev pub grade_of : Inputs → Event → Option Grade
grade_of inputs event =
    let (grade, basis) =
      compute_evidence_grade event inputs.claims_by_id inputs.documents_by_id inputs.registry
        inputs.as_of in
    grade

-- The two lists of the first loop.
unfoldable pub excluded_events : Inputs → List Event → List (String × Exclusion)
excluded_events inputs events = collect (λ event. exclusion_of event (gate0 inputs event)) events

unfoldable pub eligible_entries : Inputs → List Event → List Entry
eligible_entries inputs events =
    collect (λ event. entry_of event (grade_of inputs event) (gate0 inputs event)) events

unfoldable pub rule4_hits : List Entry → List Hit
rule4_hits [] = []
rule4_hits (entry ∷ rest) = rule4_event_hits entry.event ++ rule4_hits rest

-- Rule 4, and the default: a finding of no material impact wants coverage as well.
unfoldable pub rule4_part : Inputs → List Entry → SituationStatus × List Hit
rule4_part inputs eligible =
    if non_empty (rule4_hits eligible) && leb 1 (coverage_basis inputs).qualifying_document_count
    then (no_material_impact_detected, rule4_hits eligible)
    else (insufficient_current_evidence, [])

-- The rules in order: the first that hits gives the status and what contributes to it.
unfoldable pub situation_status : Inputs → List Entry → SituationStatus × List Hit
situation_status inputs eligible =
    let rule1 = collect rule1_hit eligible in
    let rule2 = collect (rule2_hit inputs) eligible in
    let rule3 = collect rule3_hit eligible in
    if non_empty rule1
    then (confirmed_disruption, rule1)
    else (if non_empty rule2
        then (mixed_evidence, rule2)
        else (if non_empty rule3 then (watch_status, rule3) else rule4_part inputs eligible))

-- `sorted(set(…))` of ids: the set, in its first order.
unfoldable pub hit_ids : List Hit → List String
hit_ids hits = distinct (map (λ hit. hit.0.event_id) hits)

unfoldable pub entry_ids : List Entry → List String
entry_ids entries = distinct (map (λ entry. entry.event.event_id) entries)

-- The eligible entries that carry one of the ids.
unfoldable pub entries_with : List String → List Entry → List Entry
entries_with ids entries = keep (λ entry. contains ids entry.event.event_id) entries

unfoldable pub count_grade : Grade → List Entry → ℕ
count_grade grade entries = length (keep (λ entry. entry.grade == some grade) entries)

unfoldable pub count_layer : EvidenceLayer → List Claim → ℕ
count_layer layer claims = length (keep (λ claim. claim.evidence_layer == some layer) claims)

-- `evidence_composition`
pub record Composition : Type 0 where
  pub by_confirmed : ℕ
  pub by_corroborated : ℕ
  pub by_reported : ℕ
  pub by_inference : ℕ
  pub layer1 : ℕ
  pub layer2 : ℕ
  pub layer3 : ℕ
  pub document_count : ℕ
  pub claim_count : ℕ
  pub group_count : ℕ

unfoldable pub composition_of : Inputs → List Entry → Composition
composition_of inputs contributing =
    let claims = claims_of inputs contributing in
    record {
      by_confirmed = count_grade confirmed contributing;
      by_corroborated = count_grade corroborated contributing;
      by_reported = count_grade reported contributing;
      by_inference = count_grade Grade.analytical_inference contributing;
      layer1 = count_layer current_evidence claims;
      layer2 = count_layer context claims;
      layer3 = count_layer structural_research claims;
      document_count = length (
          distinct (
            collect (λ claim. if truthy claim.document_id then claim.document_id else none)
              claims));
      claim_count = length claims;
      group_count = independent_group_count claims inputs.documents_by_id;
    }

-- The texts of `published_at` behind some claims, less the absent and empty ones.
unfoldable pub published_texts : Inputs → List Claim → List String
published_texts inputs claims =
    collect
      (λ claim. elim (doc_of inputs.documents_by_id claim).published_at [
        | none ↦ none
        | some at ↦ if at.text == "" then none else some at.text
      ])
      claims

-- The last and the first text of the sorted list.
abbrev pub newest : List String → Option String
newest [] = none
newest (text ∷ rest) = elim (newest rest) [
  | none ↦ some text
  | some other ↦ some (if text_gt text other then text else other)
]

abbrev pub oldest : List String → Option String
oldest [] = none
oldest (text ∷ rest) = elim (oldest rest) [
  | none ↦ some text
  | some other ↦ some (if text_gt text other then other else text)
]

unfoldable pub freshness_of_entries : List Entry → FreshnessState
freshness_of_entries [] = unknown
freshness_of_entries entries = worst_state fresh (map (λ entry. entry.freshness) entries)

-- The record that is returned, without its texts that only format the arguments; `newest` none makes
-- the cutoff the time of the computation.
pub record ModeSituation : Type 0 where
  pub status : SituationStatus
  pub status_basis : List Hit
  pub confidence : Level
  pub confidence_reductions : List Reduction
  pub material_event_count : ℕ
  pub contributing_event_ids : List String
  pub watch_event_ids : List String
  pub excluded_event_ids : List (String × Exclusion)
  pub evidence_composition : Composition
  pub newest_verification_at : Option String
  pub oldest_contributing_verification_at : Option String
  pub freshness : FreshnessState
  pub coverage : Coverage

unfoldable pub compute_mode_situation : Inputs → List Event → ModeSituation
compute_mode_situation inputs events =
    let eligible = eligible_entries inputs events in
    let (status, hits) = situation_status inputs eligible in
    let ids = hit_ids hits in
    let contributing = entries_with ids eligible in
    let (confidence, reductions) = confidence_of inputs status eligible contributing in
    let published = published_texts inputs (claims_of inputs contributing) in
    record {
      status = status;
      status_basis = hits;
      confidence = confidence;
      confidence_reductions = reductions;
      material_event_count = length ids;
      contributing_event_ids = ids;
      watch_event_ids = keep (λ id. not (contains ids id)) (entry_ids eligible);
      excluded_event_ids = excluded_events inputs events;
      evidence_composition = composition_of inputs contributing;
      newest_verification_at = newest published;
      oldest_contributing_verification_at = oldest published;
      freshness = freshness_of_entries contributing;
      coverage = coverage_basis inputs;
    }
