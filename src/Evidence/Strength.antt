-- ===== src/Evidence/Strength.antt =====
-- analysis/claim_evidence_adapter.py: the item-level grade A to D and its basis.
use logistics_situation_plat.Base.{
  some, Bool, true, false, not, ◌&&◌, ◌||◌, if◌then◌else◌, leb, ◌==◌, option_eq,
}
use logistics_situation_plat.Model.{
  Time, Claim, Document, Registry, ClaimType, claim_type_eq, verified_fact, official_notice,
  evidence_layer_eq, current_evidence, structural_research, contradiction_status_eq, unresolved,
  origin_eq, human_reviewed_manual, synthetic_test_fixture, historical_validation_fixture,
  retrieval_status_eq, retrieved, retrieval_failed, Strength, strength_code, strength_a, strength_b,
  strength_c, strength_d, FreshnessState, fresh, ageing, stale, expired, unknown,
}
use logistics_situation_plat.Evidence.Sources.{source_entry, is_discovery_source, named_is}
use logistics_situation_plat.Evidence.Freshness.{freshness_state}
use logistics_situation_plat.Evidence.Authority.{authority_covers}

-- `_FRESHNESS_ITEM_CAP`
abbrev pub freshness_item_cap : FreshnessState → Strength
freshness_item_cap fresh = strength_a
freshness_item_cap ageing = strength_b
freshness_item_cap stale = strength_c
freshness_item_cap expired = strength_d
freshness_item_cap unknown = strength_d

unfoldable pub weaker_strength : Strength → Strength → Strength
weaker_strength left right = if leb (strength_code right) (strength_code left) then left else right

-- `claim_type in {"verified_fact", "official_notice"}`
unfoldable pub is_strongest_type : Claim → Bool
is_strongest_type claim =
    claim.claim_type == some verified_fact || claim.claim_type == some official_notice

-- `evidence_origin in _FIXTURE_ORIGINS`
unfoldable pub is_fixture_document : Document → Bool
is_fixture_document document =
    document.evidence_origin == some synthetic_test_fixture
    || document.evidence_origin == some historical_validation_fixture

pub data StrengthBasis : Type 0 where
  verified expected_at_cutoff : StrengthBasis

abbrev pub is_verified : StrengthBasis → Bool
is_verified verified = true
is_verified expected_at_cutoff = false

unfoldable pub strength_basis : Document → StrengthBasis
strength_basis document =
    if is_fixture_document document
    then expected_at_cutoff
    else (if document.retrieval_status == some retrieved
        then verified
        else (if document.evidence_origin == some human_reviewed_manual
            then verified
            else expected_at_cutoff))

-- The two tests on the claim alone with which both heuristics start.
unfoldable pub is_lead_or_structural : Claim → Bool
is_lead_or_structural claim =
    claim.claim_type == some ClaimType.discovery_lead
    || claim.evidence_layer == some structural_research

unfoldable pub legacy_strength : Claim → Strength
legacy_strength claim =
    if is_lead_or_structural claim
    then strength_d
    else (if claim.primary_for_this_claim
          && is_strongest_type claim
          && claim.evidence_layer == some current_evidence
        then strength_a
        else (if named_is true claim.attributed_to
            then strength_b
            else (if claim.primary_for_this_claim then strength_b else strength_c)))

-- The early returns of grade D.
unfoldable pub is_barred : Claim → Document → Registry → Bool
is_barred claim document registry =
    is_lead_or_structural claim
    || is_discovery_source (source_entry registry document.source_id)
    || document.paywall_encountered
    || document.retrieval_status == some retrieval_failed

-- `near_a`
unfoldable pub near_a : Claim → Document → Bool
near_a claim document =
    claim.primary_for_this_claim
    && claim.evidence_layer == some current_evidence
    && is_strongest_type claim
    && not (claim.contradiction_status == some unresolved)
    && is_verified (strength_basis document)
    && not (named_is false claim.attributed_to)

-- The grade before the freshness cap.
unfoldable pub base_strength : Claim → Document → Strength
base_strength claim document =
    if near_a claim document
    then (if authority_covers claim document then strength_a else strength_b)
    else (if claim.evidence_layer == some current_evidence && named_is true claim.attributed_to
        then strength_b
        else (if claim.primary_for_this_claim && not (is_strongest_type claim)
            then strength_b
            else strength_c))

unfoldable pub full_strength : Claim → Document → Registry → Time → Strength
full_strength claim document registry now =
    if is_barred claim document registry
    then strength_d
    else weaker_strength (base_strength claim document)
        (freshness_item_cap (freshness_state document registry now))

-- `_strength`, of which `item_strength` is the public name.
unfoldable pub item_strength : Claim → Document → Registry → Time → Strength
item_strength claim document registry now =
    if is_fixture_document document
    then legacy_strength claim
    else full_strength claim document registry now
