-- ===== src/Claims/Settlement.antt =====
-- analysis/claims.py: resolved_situation_state_problems.
use logistics_situation_plat.Claims.Gates.{
  unresolved_claims, only_disputed_claims, no_claims, no_resolving_claim, ClaimProblem,
}
use logistics_situation_plat.Grading.{Claims}
use logistics_situation_plat.Model.{
  SituationState, ContradictionStatus, Event, Claim, ClaimType, claim_type_eq,
  contradiction_status_eq, situation_state_eq, official_notice, verified_fact, denial_or_correction,
}
use logistics_situation_plat.Base.{
  is_present, non_empty, is_empty, keep, problem_if, gather, lookup, String, string_eq, option_eq,
  Option, none, some, List, [], ◌∷◌, ◌++◌, if◌then◌else◌, ◌==◌, Bool, true, false, not,
}

-- `RESOLVING_CLAIM_TYPES`
abbrev pub is_resolving_type : Option ClaimType → Bool
is_resolving_type (some official_notice) = true
is_resolving_type (some verified_fact) = true
is_resolving_type (some denial_or_correction) = true
is_resolving_type _ = false

abbrev pub is_known_claim : Claims → String → Bool
is_known_claim claims_by_id claim_id = is_present (lookup claim_id claims_by_id)

unfoldable pub is_qualifying : Claims → String → Bool
is_qualifying claims_by_id claim_id = elim (lookup claim_id claims_by_id) [
  | none ↦ false
  | some claim ↦ is_resolving_type claim.claim_type
]

abbrev pub is_undisputed : Claim → Bool
is_undisputed claim = not (claim.contradiction_status == some ContradictionStatus.unresolved)

unfoldable pub is_undisputed_id : Claims → String → Bool
is_undisputed_id claims_by_id claim_id = elim (lookup claim_id claims_by_id) [
  | none ↦ false
  | some claim ↦ is_undisputed claim
]

-- The tests on the qualifying claim ids.
unfoldable pub qualifying_problems : Claims → String → List String → List ClaimProblem
qualifying_problems claims_by_id event_id [] = no_resolving_claim event_id ∷ []
qualifying_problems claims_by_id event_id (claim_id ∷ rest) =
    problem_if (is_empty (keep (is_undisputed_id claims_by_id) (claim_id ∷ rest)))
      (only_disputed_claims event_id (claim_id ∷ rest))

-- The tests on the claim ids of a RESOLVED event.
unfoldable pub settlement_problems : Claims → String → List String → List ClaimProblem
settlement_problems claims_by_id event_id [] = no_claims event_id ∷ []
settlement_problems claims_by_id event_id (claim_id ∷ rest) =
    let claim_ids = claim_id ∷ rest in
    let unknown = keep (λ id. not (is_known_claim claims_by_id id)) claim_ids in
    problem_if (non_empty unknown) (unresolved_claims event_id unknown)
    ++ qualifying_problems claims_by_id event_id (keep (is_qualifying claims_by_id) claim_ids)

unfoldable pub resolved_event_problems : Claims → Event → List ClaimProblem
resolved_event_problems claims_by_id event =
    if event.situation_state == some SituationState.resolved
    then settlement_problems claims_by_id event.event_id event.claim_ids
    else []

unfoldable pub resolved_situation_state_problems : List Event → Claims → List ClaimProblem
resolved_situation_state_problems events claims_by_id =
    gather (resolved_event_problems claims_by_id) events
