-- ===== src/Grading/Transitions.antt =====
-- analysis/grading.py: compute_situation_state, a proposal for one event.
use logistics_situation_plat.Grading.Grade.{has_state}
use logistics_situation_plat.Grading.Qualified.{has_capping_contradiction, Documents}
use logistics_situation_plat.Evidence.{instant}
use logistics_situation_plat.Model.{
  active, developing, unknown, expired, stale, uncertain, review_status_eq, contradiction_status_eq,
  emerging, hour, evidence_layer_eq, claim_type_eq, Registry, grade_eq, SituationState,
  corroborated, approved, ContradictionStatus, reported, confirmed, current_evidence,
  denial_or_correction, Time, Grade, Event, Claim,
}
use Prim.Native.Nat.{Ordering}
use Prim.Native.String.{compare, slice}
use logistics_situation_plat.Base.{
  keep, leb, ltb, truthy, contains, any_of, ◌+◌, ◌*◌, String, Bool, true, false, not, ◌&&◌, ◌||◌,
  Option, none, some, List, [], ◌∷◌, if◌then◌else◌, ◌==◌, string_eq, option_eq, nat_eq,
}

-- The reasons given with a proposal; some quote the claim that fired.
pub data StateBasis : Type 0 where
  contradicted_core : StateBasis
  freshness_clock : StateBasis
  widens_scope : String → StateBasis
  active_and_graded : StateBasis
  denial : String → StateBasis
  first_seen_recently : StateBasis
  no_rule_fires : StateBasis

-- `left > right` on texts
abbrev pub text_gt : String → String → Bool
text_gt left right = elim (compare left right) [ Ordering.gt ↦ true | _ ↦ false ]

-- `set(left) - set(right)`, for its truth
unfoldable pub exceeds : List String → List String → Bool
exceeds left right = any_of (λ item. not (contains right item)) left

-- The claim's end is set and lies beyond the event's recorded end, or the event records none.
unfoldable pub extends_end : Claim → Event → Bool
extends_end claim event = elim claim.event_end_at [
  | none ↦ false
  | some end_at ↦ not (end_at.text == "") && (elim event.event_end_date [
    | none ↦ true
    | some recorded ↦ text_gt (slice end_at.text 0 10) recorded.text
  ])
]

-- The filter of `widening`.
unfoldable pub widens : Event → Time → Claim → Bool
widens event active_as_of claim = elim (instant claim.event_start_at) [
  | none ↦ false
  | some start ↦
      ltb active_as_of start && (exceeds claim.node_ids event.node_ids || extends_end claim event)
]

-- The filter of `resolving`.
unfoldable pub resolves : Claim → Bool
resolves claim =
    claim.claim_type == some denial_or_correction
    && not (claim.contradiction_status == some ContradictionStatus.unresolved)

-- The filter of `approved_current`.
unfoldable pub is_approved_current : Claim → Bool
is_approved_current claim =
    claim.evidence_layer == some current_evidence && claim.review_status == some approved

-- `grade in {"CONFIRMED", "CORROBORATED"}` and `grade in {"REPORTED", None}`
abbrev pub is_strong_grade : Option Grade → Bool
is_strong_grade grade = grade == some confirmed || grade == some corroborated

abbrev pub is_weak_grade : Option Grade → Bool
is_weak_grade grade = grade == some reported || grade == none

-- `active_as_of and event.get("active_basis")`: the instant, if both are there.
unfoldable pub active_since : Event → Option Time
active_since event = if truthy event.active_basis then instant event.active_as_of else none

-- `first_seen_at is None or (now - first_seen_at).total_seconds() <= 48 * 3600`
unfoldable pub is_first_seen_recently : Event → Time → Bool
is_first_seen_recently event now = elim (instant event.first_seen_at) [
  | none ↦ true
  | some seen ↦ leb now (seen + 48 * hour)
]

-- The rules after the ACTIVE and DEVELOPING ones.
unfoldable pub later_rules :
    Event → List Claim → Option Grade → Time → Option SituationState × StateBasis
later_rules event claims grade now = elim (keep resolves claims) [
  | claim ∷ rest ↦ (some SituationState.resolved, denial claim.claim_id)
  | [] ↦
      if any_of is_approved_current claims
        && is_weak_grade grade
        && is_first_seen_recently event now
      then (some emerging, first_seen_recently)
      else (none, no_rule_fires)
]

unfoldable pub compute_situation_state :
    Event
    → List Claim
    → Documents
    → Registry
    → Option Grade
    → Time
    → Option SituationState × StateBasis
compute_situation_state event claims documents registry grade now =
    if has_capping_contradiction event
    then (some uncertain, contradicted_core)
    else (if has_state documents registry now (stale ∷ expired ∷ unknown ∷ []) claims
        then (some uncertain, freshness_clock)
        else (elim (if is_strong_grade grade then active_since event else none) [
          | some since ↦ elim (keep (widens event since) claims) [
            | claim ∷ rest ↦ (some developing, widens_scope claim.claim_id)
            | [] ↦ (some active, active_and_graded)
          ]
          | none ↦ later_rules event claims grade now
        ]))
