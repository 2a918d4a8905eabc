-- ===== src/Grading/Grade.antt =====
-- analysis/grading.py: compute_evidence_grade. The base grade is the first rule that fires; the
-- contradiction and the freshness clocks then cap it. `now` is always given by the caller here.
use logistics_situation_plat.Base.{
  ℕ, String, Option, none, some, Bool, false, not, ◌&&◌, ◌||◌, List, [], ◌∷◌, ◌++◌, if◌then◌else◌,
  ltb, leb, ◌==◌, option_eq, any_of, all_of, keep, contains, is_empty, non_empty, string_eq, truthy,
}
use logistics_situation_plat.Model.{
  grade_eq, Time, Claim, Registry, Event, ClaimType, claim_type_eq, verified_fact, official_notice,
  official_forecast, reported_claim, historical_fact, denial_or_correction, structural_finding,
  EvidenceLayer, evidence_layer_eq, current_evidence, Grade, confirmed, corroborated, reported,
  strength_eq, strength_a, strength_b, FreshnessState, freshness_state_eq, fresh, ageing, stale,
  expired, unknown,
}
use logistics_situation_plat.Evidence.{freshness_state, authority_covers, item_strength}
use logistics_situation_plat.Grading.Qualified.{
  Claims, Documents, doc_of, eligible_claims, independent_group_count, modal_assertion_group,
  has_capping_contradiction,
}

-- The sentences of `basis`, with the values that they quote.
pub data Basis : Type 0 where
  not_gradable : Basis
  establishes : String → Option ClaimType → Basis
  corroborate : ℕ → Option String → Basis
  reporting : String → Basis
  own_reasoning : Basis
  contradiction_cap : Basis
  expired_or_unknown_clock : Basis
  stale_clock : Basis
  ageing_clock : Basis

-- `GRADE_RANK`, moved up by one so that None is 0.
abbrev pub grade_rank : Option Grade → ℕ
grade_rank none = 0
grade_rank (some Grade.analytical_inference) = 1
grade_rank (some reported) = 2
grade_rank (some corroborated) = 3
grade_rank (some confirmed) = 4

-- `claim_type in …`, where the type may be null
abbrev pub type_in : Option ClaimType → List ClaimType → Bool
type_in none types = false
type_in (some kind) types = contains types kind

-- `_REPORTED_CLAIM_TYPES` and `_NON_CORROBORATING_CLAIM_TYPES`
abbrev pub reported_claim_types : List ClaimType
reported_claim_types =
    verified_fact ∷ official_notice ∷ official_forecast ∷ reported_claim ∷ historical_fact
    ∷ denial_or_correction ∷ []

abbrev pub non_corroborating_claim_types : List ClaimType
non_corroborating_claim_types =
    ClaimType.analytical_inference ∷ structural_finding ∷ ClaimType.discovery_lead ∷ []

-- `core_set`: the claims of the modal assertion group, or all where there is none.
unfoldable pub core_set : List Claim → List Claim
core_set claims =
    if truthy (modal_assertion_group claims)
    then keep (λ claim. claim.assertion_group_id == modal_assertion_group claims) claims
    else claims

module _ (documents : Documents) (registry : Registry) (now : Time) where
  -- The filter of `confirming`, but for the contradiction.
  unfoldable pub confirms : Claim → Bool
  confirms claim =
      item_strength claim (doc_of documents claim) registry now == strength_a
      && type_in claim.claim_type (verified_fact ∷ official_notice ∷ [])
      && authority_covers claim (doc_of documents claim)
      && freshness_state (doc_of documents claim) registry now == fresh

  -- `item_strength(…) in {"A", "B"}`
  unfoldable pub is_strong_enough : Claim → Bool
  is_strong_enough claim =
      contains (strength_a ∷ strength_b ∷ [])
        (item_strength claim (doc_of documents claim) registry now)

  unfoldable pub corroborates : List Claim → Bool
  unfolding core_set
  corroborates claims =
      leb 2 (independent_group_count (core_set claims) documents)
      && any_of is_strong_enough (core_set claims)
      && not (
          any_of (λ claim. type_in claim.claim_type non_corroborating_claim_types)
            (core_set claims))

  unfoldable pub reporting_claims : List Claim → List Claim
  reporting_claims claims =
      keep
        (λ claim.
          type_in claim.claim_type reported_claim_types
          && ((doc_of documents claim).evidence_layer == some current_evidence
              || (doc_of documents claim).evidence_layer == some EvidenceLayer.context))
        claims

  unfoldable pub reports : List Claim → Bool
  reports claims =
      non_empty (reporting_claims claims)
      && leb 1 (independent_group_count (reporting_claims claims) documents)

  -- `confirming`
  unfoldable pub confirming_claims : Bool → List Claim → List Claim
  confirming_claims capping claims = keep (λ claim. confirms claim && not capping) claims

  -- The grade and basis before the caps: `confirming[0]` and `reported[0]` name the first claim.
  unfoldable pub base_grade : Bool → List Claim → Grade × List Basis
  unfolding confirming_claims
  base_grade capping claims = elim (confirming_claims capping claims) [
    | claim ∷ rest ↦ (confirmed, establishes claim.claim_id claim.claim_type ∷ [])
    | [] ↦
        if corroborates claims && not capping
        then (
          corroborated,
          corroborate (independent_group_count (core_set claims) documents)
                (modal_assertion_group claims)
              ∷ [],
        )
        else (elim (reporting_claims claims) [
          | claim ∷ rest ↦
              if reports claims
              then (reported, reporting claim.claim_id ∷ [])
              else (Grade.analytical_inference, own_reasoning ∷ [])
          | [] ↦ (Grade.analytical_inference, own_reasoning ∷ [])
        ])
  ]

  -- `freshness_states`: is some state of these present among the claims' documents?
  unfoldable pub has_state : List FreshnessState → List Claim → Bool
  has_state states claims =
      any_of (λ claim. contains states (freshness_state (doc_of documents claim) registry now))
        claims

-- `if GRADE_RANK[grade] > GRADE_RANK[cap]: grade = cap`, then `basis.append(note)`
unfoldable pub clock_cap : Bool → Grade → Basis → Grade × List Basis → Grade × List Basis
clock_cap present cap note (grade, basis) =
    if present
    then (
      (if ltb (grade_rank (some cap)) (grade_rank (some grade)) then cap else grade),
      basis ++ note ∷ [],
    )
    else (grade, basis)

-- `if capping_contradiction and grade in {"CONFIRMED", "CORROBORATED"}`
unfoldable pub cap_contradiction : Bool → Grade × List Basis → Grade × List Basis
cap_contradiction capping (grade, basis) =
    if capping && (grade == confirmed || grade == corroborated)
    then (reported, basis ++ contradiction_cap ∷ [])
    else (grade, basis)

-- The four caps, in the code's order.
unfoldable pub capped_grade : Documents → Registry → Time → Bool → List Claim → Grade × List Basis
capped_grade documents registry now capping claims =
    let has = λ (states : List FreshnessState). has_state documents registry now states claims in
    clock_cap (has (ageing ∷ [])) corroborated ageing_clock (
      clock_cap (has (stale ∷ [])) reported stale_clock (
        clock_cap (has (expired ∷ unknown ∷ [])) reported expired_or_unknown_clock
          (cap_contradiction capping (base_grade documents registry now capping claims))))

-- `not claims or all(claim is a discovery_lead)`
unfoldable pub is_gradable : List Claim → Bool
is_gradable claims =
    not (
      is_empty claims || all_of (λ claim. claim.claim_type == some ClaimType.discovery_lead) claims)

unfoldable pub compute_evidence_grade :
    Event → Claims → Documents → Registry → Time → Option Grade × List Basis
unfolding is_gradable
compute_evidence_grade event claims documents registry now =
    let eligible = eligible_claims event claims documents registry in
    if is_gradable eligible
    then (let (grade, basis) =
          capped_grade documents registry now (has_capping_contradiction event) eligible in
        (some grade, basis))
    else (none, not_gradable ∷ [])
