-- ===== src/Situations/Confidence.antt =====
-- analysis/situations.py: _coverage_basis, _step_confidence and the confidence of a situation.
use logistics_situation_plat.Model.{
  dataset_eq, freshness_state_eq, evidence_layer_eq, Claim, Document, Source, Registry, fresh,
  current_evidence, current_publication,
}
use logistics_situation_plat.Evidence.{freshness_state}
use logistics_situation_plat.Grading.{
  Documents, doc_of, eligible_claims, has_capping_contradiction, independent_group_count,
}
use logistics_situation_plat.Situations.Gate.{Inputs, is_eligible_freshness}
use logistics_situation_plat.Situations.Rules.{Entry}
use logistics_situation_plat.Base.{
  is_empty, ◌≡◌, Eq, by_code, arith, nat_eq, string_eq, option_eq, suc, any_of, contains, keep,
  collect, distinct, length, truthy, leb, ℕ, String, Bool, true, false, not, ◌&&◌, ◌||◌, List, [],
  ◌∷◌, ◌++◌, map, Option, none, some, ◌==◌, if◌then◌else◌,
}

pub record Coverage : Type 0 where
  pub sources_with_public_claims : List String
  pub qualifying_document_count : ℕ
  pub window_minutes : Option ℕ

unfoldable pub candidate_source_ids : Registry → List String
candidate_source_ids registry =
    map (λ source. source.id)
      (keep
        (λ source.
          source.enabled_for_public_claims && source.governance_layer == some current_evidence)
        registry)

unfoldable pub qualifies_as_coverage : Inputs → Document → Bool
qualifies_as_coverage inputs document =
    (elim document.source_id [
      | none ↦ false
      | some source_id ↦ contains (candidate_source_ids inputs.registry) source_id
    ])
    && document.dataset == some current_publication
    && is_eligible_freshness (freshness_state document inputs.registry inputs.as_of)
    && (contains document.geographies inputs.geography_id
        || contains document.geographies inputs.country_code)

-- `min(windows) if windows else None`
abbrev pub least : List ℕ → Option ℕ
least [] = none
least (window ∷ rest) = elim (least rest) [
  | none ↦ some window
  | some other ↦ some (if leb window other then window else other)
]

-- `source.get("max_stale_minutes")`, where it is not 0.
abbrev pub positive_window : Option ℕ → Option ℕ
positive_window (some (suc n)) = some (suc n)
positive_window _ = none

unfoldable pub coverage_basis : Inputs → Coverage
coverage_basis inputs =
    let documents =
      keep (qualifies_as_coverage inputs) (map (λ entry. entry.1) inputs.documents_by_id) in
    let sources = distinct (collect (λ document. document.source_id) documents) in
    record {
      sources_with_public_claims = sources;
      qualifying_document_count = length documents;
      window_minutes = least (
          collect (λ source. positive_window source.max_stale_minutes)
            (keep (λ source. contains sources source.id) inputs.registry));
    }

-- `_CONFIDENCE_LEVELS`
pub data Level : Type 0 where
  low_confidence medium_confidence high_confidence : Level

-- `_step_confidence(level, -1)` and `_step_confidence(level, 1)`
abbrev pub step_down : Level → Level
step_down high_confidence = medium_confidence
step_down _ = low_confidence

abbrev pub step_up : Level → Level
step_up low_confidence = medium_confidence
step_up _ = high_confidence

pub data Reduction : Type 0 where
  no_eligible_event unresolved_contradiction not_all_fresh single_origin cadence_unknown : Reduction
  raised_by_groups : ℕ → Reduction

pub data SituationStatus : Type 0 where
  confirmed_disruption mixed_evidence watch_status : SituationStatus
  no_material_impact_detected insufficient_current_evidence : SituationStatus

abbrev pub status_code : SituationStatus → ℕ
status_code confirmed_disruption = 0
status_code mixed_evidence = 1
status_code watch_status = 2
status_code no_material_impact_detected = 3
status_code insufficient_current_evidence = 4

pub status_inj : (a b : SituationStatus) → status_code a ≡ status_code b → a ≡ b
status_inj a b h = ground arith

instance abbrev pub status_eq : Eq SituationStatus
status_eq = by_code status_code status_inj

abbrev pub starting_level : SituationStatus → Level
starting_level confirmed_disruption = high_confidence
starting_level watch_status = medium_confidence
starting_level no_material_impact_detected = medium_confidence
starting_level _ = low_confidence

abbrev pub lowered_if : Bool → Reduction → Level × List Reduction → Level × List Reduction
lowered_if true reduction (level, reductions) = (step_down level, reductions ++ reduction ∷ [])
lowered_if false reduction (level, reductions) = (level, reductions)

-- The step for the number of independent origins.
abbrev pub stepped_by_groups : ℕ → Level × List Reduction → Level × List Reduction
stepped_by_groups count (level, reductions) =
    if leb count 1
    then (step_down level, reductions ++ single_origin ∷ [])
    else (step_up level, reductions ++ raised_by_groups count ∷ [])

abbrev pub noted_if : Bool → Reduction → Level × List Reduction → Level × List Reduction
noted_if true reduction (level, reductions) = (level, reductions ++ reduction ∷ [])
noted_if false reduction (level, reductions) = (level, reductions)

-- `registry_by_id.get(source_id)`: of two sources with one id the last stands.
unfoldable pub last_source : Registry → String → Option Source
last_source [] source_id = none
last_source (source ∷ rest) source_id = elim (last_source rest source_id) [
  | some later ↦ some later
  | none ↦ if source.id == source_id then some source else none
]

-- `registry_by_id.get(source_id, {}).get("expected_cadence_minutes") is None`
unfoldable pub has_unknown_cadence : Registry → String → Bool
has_unknown_cadence registry source_id = elim (last_source registry source_id) [
  | none ↦ true
  | some source ↦ source.expected_cadence_minutes == none
]

-- The claims of the contributing entries, entry by entry.
unfoldable pub claims_of : Inputs → List Entry → List Claim
claims_of inputs [] = []
claims_of inputs (entry ∷ rest) =
    eligible_claims entry.event inputs.claims_by_id inputs.documents_by_id inputs.registry
    ++ claims_of inputs rest

-- The sources behind some claims that are no empty text.
unfoldable pub claim_sources : Documents → List Claim → List String
claim_sources documents claims =
    collect
      (λ claim.
        let source_id = (doc_of documents claim).source_id in
        if truthy source_id then source_id else none)
      claims

-- The steps from the level that the status starts at, in the code's order.
unfoldable pub stepped_confidence : Inputs → SituationStatus → List Entry → Level × List Reduction
stepped_confidence inputs status contributing =
    let claims = claims_of inputs contributing in
    noted_if
      (any_of (has_unknown_cadence inputs.registry) (claim_sources inputs.documents_by_id claims))
      cadence_unknown
      (stepped_by_groups (independent_group_count claims inputs.documents_by_id) (
        lowered_if (any_of (λ entry. not (entry.freshness == fresh)) contributing) not_all_fresh (
          lowered_if (any_of (λ entry. has_capping_contradiction entry.event) contributing)
            unresolved_contradiction (starting_level status, []))))

-- The confidence and its reductions, from the status, the eligible and the contributing entries.
unfoldable pub confidence_of :
    Inputs → SituationStatus → List Entry → List Entry → Level × List Reduction
confidence_of inputs status eligible contributing =
    if status == insufficient_current_evidence && is_empty eligible
    then (low_confidence, no_eligible_event ∷ [])
    else stepped_confidence inputs status contributing
