-- ===== src/Validation/Rules.antt =====
-- analysis/situation_validation.py: the rules on events, claims, documents and situations, each a list
-- of problems.
use logistics_situation_plat.Grading.{source_of, Documents, Claims}
use logistics_situation_plat.Situations.{
  SituationStatus, insufficient_current_evidence, ModeSituation,
}
use logistics_situation_plat.Evidence.{authority_covers, EventEvidence}
use text.Mathlib.Text.{starts_with}
use Prim.Native.String.{String, ◌++◌ as append, slice, len}
use logistics_situation_plat.Model.{
  ResolutionStatus, Document, Area, Impact, Registry, Event, Claim, grade_eq, dataset_eq,
  corroboration_status_eq, resolution_status_eq, strength_eq, confirmed, current_publication,
  officially_confirmed, elevated_watch, no_material, not_relevant, strength_a,
}
use logistics_situation_plat.Base.{
  is_empty, is_present, any_of, lookup?, problem_if, truthy, gather, lookup, string_eq, option_eq,
  Option, none, some, List, [], ◌++◌, if◌then◌else◌, ◌==◌, ◌&&◌, Bool, true, false, not,
}

-- What the messages tell apart, with the ids that they name.
pub data RuleProblem : Type 0 where
  unresolved_event ungraded_event event_without_claims : String → String → RuleProblem
  unresolved_claim unresolved_document : String → String → String → RuleProblem
  unregistered_source no_canonical_url : String → String → String → RuleProblem
  uncovered_confirmed : String → RuleProblem
  uncovered_strength : String → RuleProblem
  conduit_confirmed : String → RuleProblem
  conduit_event : String → String → RuleProblem
  no_independence_basis : Option String → String → RuleProblem
  empty_status_basis : RuleProblem
  no_impact_basis : String → Area → RuleProblem
  not_a_status_change : String → RuleProblem
  no_resolution_basis : String → RuleProblem

abbrev pub Events : Type 0
Events = List (String × Event)

-- Does a claim id lead to a document whose publisher's authority covers the claim?
unfoldable pub is_covered : Claims → Documents → String → Bool
is_covered claims_by_id documents_by_id claim_id = elim (lookup claim_id claims_by_id) [
  | none ↦ false
  | some claim ↦ elim (lookup? claim.document_id documents_by_id) [
    | none ↦ false
    | some document ↦ authority_covers claim document
  ]
]

unfoldable pub confirmed_event_problems : Claims → Documents → Event → List RuleProblem
confirmed_event_problems claims_by_id documents_by_id event =
    if event.evidence_grade == some confirmed
    then problem_if (not (any_of (is_covered claims_by_id documents_by_id) event.claim_ids))
        (uncovered_confirmed event.event_id)
    else []

unfoldable pub confirmed_requires_authority_coverage_problems :
    List Event → Claims → Documents → List RuleProblem
confirmed_requires_authority_coverage_problems events claims_by_id documents_by_id =
    gather (confirmed_event_problems claims_by_id documents_by_id) events

-- `"CLM-" + evidence_id.removeprefix("EVD-")`
unfoldable pub claim_id_of : String → String
claim_id_of evidence_id =
    append "CLM-" (
      if starts_with evidence_id "EVD-" then slice evidence_id 4 (len evidence_id) else evidence_id)

-- A claim or a document that does not resolve is skipped.
unfoldable pub is_uncovered : Claims → Documents → String → Bool
is_uncovered claims_by_id documents_by_id claim_id = elim (lookup claim_id claims_by_id) [
  | none ↦ false
  | some claim ↦ elim (lookup? claim.document_id documents_by_id) [
    | none ↦ false
    | some document ↦ not (authority_covers claim document)
  ]
]

unfoldable pub strength_record_problems : Claims → Documents → EventEvidence → List RuleProblem
strength_record_problems claims_by_id documents_by_id item =
    problem_if
      (item.strength == strength_a
        && is_uncovered claims_by_id documents_by_id (claim_id_of item.evidence_id))
      (uncovered_strength item.evidence_id)

unfoldable pub item_strength_a_requires_authority_coverage_problems :
    List EventEvidence → Claims → Documents → List RuleProblem
item_strength_a_requires_authority_coverage_problems evidence_records claims_by_id documents_by_id =
    gather (strength_record_problems claims_by_id documents_by_id) evidence_records

unfoldable pub conduit_event_problems : Events → String → String → List RuleProblem
conduit_event_problems events_by_id claim_id event_id = elim (lookup event_id events_by_id) [
  | none ↦ []
  | some event ↦
      problem_if (event.evidence_grade == some confirmed) (conduit_event claim_id event_id)
]

-- The tests on a claim whose document resolves.
unfoldable pub conduit_claim_problems : Events → Registry → Claim → Document → List RuleProblem
conduit_claim_problems events_by_id registry claim document =
    if (source_of document registry).is_conduit && not (is_present document.publisher_authority)
    then problem_if (claim.corroboration_status == some officially_confirmed)
        (conduit_confirmed claim.claim_id)
      ++ gather (conduit_event_problems events_by_id claim.claim_id) claim.event_ids
    else []

unfoldable pub conduit_authority_gate_problems :
    List Claim → Documents → Events → Registry → List RuleProblem
conduit_authority_gate_problems claims documents_by_id events_by_id registry =
    gather
      (λ claim. elim (lookup? claim.document_id documents_by_id) [
        | none ↦ []
        | some document ↦ conduit_claim_problems events_by_id registry claim document
      ])
      claims

abbrev pub requires_basis : SituationStatus → Bool
requires_basis insufficient_current_evidence = false
requires_basis _ = true

unfoldable pub status_basis_required_problems : List ModeSituation → List RuleProblem
status_basis_required_problems situations =
    gather
      (λ situation.
        problem_if (requires_basis situation.status && is_empty situation.status_basis)
          empty_status_basis)
      situations

-- `_IMPACT_STATUS_BASIS_FIELD`: does the status name a field that is not set?
unfoldable pub lacks_basis : Impact → Bool
lacks_basis impact = elim impact.status [
  | some elevated_watch ↦ not (truthy impact.watch_trigger)
  | some no_material ↦ not (truthy impact.no_material_basis)
  | some not_relevant ↦ not (truthy impact.not_relevant_basis)
  | _ ↦ false
]

unfoldable pub impact_event_problems : Event → List RuleProblem
impact_event_problems event =
    if event.dataset == some current_publication
    then gather
        (λ impact. problem_if (lacks_basis impact) (no_impact_basis event.event_id impact.area))
        event.impact_assessments
    else []

unfoldable pub impact_assessment_basis_problems : List Event → List RuleProblem
impact_assessment_basis_problems events = gather impact_event_problems events

unfoldable pub conflicting_evidence_resolution_basis_problems : List Event → List RuleProblem
conflicting_evidence_resolution_basis_problems events =
    gather
      (λ event.
        gather
          (λ entry.
            problem_if
              (not (entry.resolution_status == some ResolutionStatus.unresolved)
                && not (truthy entry.resolution_basis))
              (no_resolution_basis event.event_id))
          event.conflicting_evidence)
      events
