-- ===== src/Claims/Gates.antt =====
-- analysis/claims.py: the checks on events and claims, each a list of problems.
use logistics_situation_plat.Grading.{Documents, Claims}
use logistics_situation_plat.Model.{
  ai_proposed_human_approved, ai_proposed_unreviewed, DatePrecision, corroborated_independent,
  officially_confirmed, Stamp, ExtractionMethod, Document, Event, Claim, run_status_eq,
  evidence_layer_eq, situation_state_eq, claim_type_eq, contradiction_status_eq,
  corroboration_status_eq, extraction_method_eq, date_precision_eq, claim_scope_eq, relevance_eq,
  structural_research, uncertain,
}
use logistics_situation_plat.Base.{
  any_of, is_empty, meets, all_of, lookup?, non_empty, lookup, problem_if, truthy, gather, String,
  string_eq, option_eq, Option, none, some, List, [], ◌∷◌, ◌++◌, if◌then◌else◌, ◌==◌, ◌&&◌, ◌||◌,
  Bool, true, false, not,
}

-- What the messages tell apart, with the ids that they name.
pub data ClaimProblem : Type 0 where
  structural_fact : String → String → ClaimProblem
  structural_state : String → ClaimProblem
  not_primary : String → ClaimProblem
  no_cluster no_independent_corroborator : String → ClaimProblem
  precise_without_date date_without_precision : String → ClaimProblem
  no_claims : String → ClaimProblem
  unresolved_claims : String → List String → ClaimProblem
  no_resolving_claim : String → ClaimProblem
  only_disputed_claims : String → List String → ClaimProblem
  regional_relevance : String → ClaimProblem
  unresolved_document : String → ClaimProblem
  other_source other_layer other_group unpermitted_quotation : String → ClaimProblem

-- `_is_structural` of a claim that resolves; the first rule skips one that does not.
abbrev pub is_structural : Claim → Bool
is_structural claim = claim.evidence_layer == some structural_research

unfoldable pub structural_facts : Claims → String → List String → List ClaimProblem
structural_facts claims_by_id event_id facts =
    gather
      (λ claim_id. elim (lookup claim_id claims_by_id) [
        | none ↦ []
        | some claim ↦ problem_if (is_structural claim) (structural_fact event_id claim_id)
      ])
      facts

-- A claim id that resolves to a structural claim. All ids doing so is `len(resolved) == len(claim_ids)`
-- together with `layers == {"structural_research"}`, on claim ids that are not empty.
unfoldable pub resolves_to_structural : Claims → String → Bool
resolves_to_structural claims_by_id claim_id = elim (lookup claim_id claims_by_id) [
  | none ↦ false
  | some claim ↦ is_structural claim
]

unfoldable pub l3_firewall_event : Claims → Event → List ClaimProblem
l3_firewall_event claims_by_id event =
    structural_facts claims_by_id event.event_id event.verified_facts
    ++ problem_if
        (non_empty event.claim_ids
          && all_of (resolves_to_structural claims_by_id) event.claim_ids
          && not (event.situation_state == none || event.situation_state == some uncertain))
        (structural_state event.event_id)

unfoldable pub l3_firewall_problems : List Event → Claims → List ClaimProblem
l3_firewall_problems events claims_by_id = gather (l3_firewall_event claims_by_id) events

unfoldable pub independence_confirmation_problems : List Claim → List ClaimProblem
independence_confirmation_problems claims =
    gather
      (λ claim.
        problem_if
          (claim.corroboration_status == some officially_confirmed
            && not claim.primary_for_this_claim)
          (not_primary claim.claim_id))
      claims

-- `_origin_url`
unfoldable pub origin_url : Option Document → Option String
origin_url none = none
origin_url (some document) =
    if truthy document.originator_document_url
    then document.originator_document_url
    else document.canonical_url

-- `this_origin is not None and other_origin == this_origin`
abbrev pub is_syndication : Option String → Option String → Bool
is_syndication this_origin other_origin = not (this_origin == none) && other_origin == this_origin

-- The tests of the inner loop on another claim.
unfoldable pub is_independent_corroborator : Documents → Claim → Claim → Bool
is_independent_corroborator documents_by_id claim other =
    meets other.event_ids claim.event_ids
    && not (other.independence_group == claim.independence_group)
    && not (
        is_syndication (origin_url (lookup? claim.document_id documents_by_id))
          (origin_url (lookup? other.document_id documents_by_id)))

unfoldable pub corroboration_of : Documents → List Claim → Claim → List ClaimProblem
corroboration_of documents_by_id others claim =
    if claim.corroboration_status == some corroborated_independent
    then (if is_empty claim.event_ids
        then no_cluster claim.claim_id ∷ []
        else problem_if (not (any_of (is_independent_corroborator documents_by_id claim) others))
            (no_independent_corroborator claim.claim_id))
    else []

-- The loop over the claims: the others of a claim are those before it and those after it, which is
-- `other is claim` for a list that holds no object twice.
unfoldable pub corroboration_loop : Documents → List Claim → List Claim → List ClaimProblem
corroboration_loop documents_by_id before [] = []
corroboration_loop documents_by_id before (claim ∷ after) =
    corroboration_of documents_by_id (before ++ after) claim
    ++ corroboration_loop documents_by_id (before ++ claim ∷ []) after

unfoldable pub corroboration_independence_problems : List Claim → Documents → List ClaimProblem
corroboration_independence_problems claims documents_by_id =
    corroboration_loop documents_by_id [] claims

-- `AI_EXTRACTION_METHODS`
abbrev pub is_ai_extraction : Option ExtractionMethod → Bool
is_ai_extraction (some ai_proposed_human_approved) = true
is_ai_extraction (some ai_proposed_unreviewed) = true
is_ai_extraction _ = false

abbrev pub has_date : Option Stamp → Bool
has_date none = false
has_date (some stamp) = true

unfoldable pub ai_date_claim : Claim → List ClaimProblem
ai_date_claim claim =
    if is_ai_extraction claim.extraction_method
    then problem_if
        (not (has_date claim.event_start_at)
          && not (claim.event_date_precision == some DatePrecision.unknown))
        (precise_without_date claim.claim_id)
      ++ problem_if
          (has_date claim.event_start_at
            && claim.event_date_precision == some DatePrecision.unknown)
          (date_without_precision claim.claim_id)
    else []

unfoldable pub ai_date_invention_problems : List Claim → List ClaimProblem
ai_date_invention_problems claims = gather ai_date_claim claims
