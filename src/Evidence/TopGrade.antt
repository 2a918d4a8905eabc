-- ===== src/Evidence/TopGrade.antt =====
-- When a claim reaches item grade A.
use logistics_situation_plat.Base.{◌≡◌, ◌≢◌, ◌↔◌, ◌⊎◌, some, true, false, arith, ==_iff, option_eq}
use logistics_situation_plat.Model.{
  Time, Claim, Document, Registry, ClaimType, claim_type_eq, verified_fact, official_notice,
  evidence_layer_eq, current_evidence, structural_research, contradiction_status_eq, unresolved,
  origin_eq, human_reviewed_manual, retrieval_status_eq, retrieved, retrieval_failed, strength_a,
  fresh,
}
use logistics_situation_plat.Evidence.Sources.{source_entry, is_discovery_source, named_is}
use logistics_situation_plat.Evidence.Freshness.{freshness_state}
use logistics_situation_plat.Evidence.Authority.{authority_covers}
use logistics_situation_plat.Evidence.Strength.{
  weaker_strength, base_strength, is_barred, near_a, is_fixture_document, full_strength,
  item_strength, is_lead_or_structural, is_strongest_type, strength_basis,
}

-- The conditions of design section 2.4 for grade A, read off the two records.
pub record IsTop (claim : Claim) (document : Document) (registry : Registry) (now : Time)
    : Type 0 where
  pub strong_type :
      (claim.claim_type ≡ some verified_fact) ⊎ (claim.claim_type ≡ some official_notice)
  pub current : claim.evidence_layer ≡ some current_evidence
  pub primary : claim.primary_for_this_claim ≡ true
  pub undisputed : claim.contradiction_status ≢ some unresolved
  pub not_unnamed : named_is false claim.attributed_to ≡ false
  pub acquired :
      (document.retrieval_status ≡ some retrieved)
      ⊎ (document.evidence_origin ≡ some human_reviewed_manual)
  pub not_failed : document.retrieval_status ≢ some retrieval_failed
  pub no_paywall : document.paywall_encountered ≡ false
  pub no_discovery : is_discovery_source (source_entry registry document.source_id) ≡ false
  pub covered : authority_covers claim document ≡ true
  pub still_fresh : freshness_state document registry now ≡ fresh

top_step :
    (claim : Claim) (document : Document) (registry : Registry) (now : Time)
    → is_fixture_document document ≡ false
    → item_strength claim document registry now ≡ strength_a
    → (is_barred claim document registry ≡ false)
      × (near_a claim document ≡ true)
      × (authority_covers claim document ≡ true)
      × (freshness_state document registry now ≡ fresh)
unfolding item_strength full_strength weaker_strength base_strength
top_step claim document registry now real h = ground arith

item_strength-IsTop :
    (claim : Claim) (document : Document) (registry : Registry) (now : Time)
    → is_fixture_document document ≡ false
    → item_strength claim document registry now ≡ strength_a
    → IsTop claim document registry now
unfolding is_barred near_a strength_basis is_lead_or_structural is_strongest_type
item_strength-IsTop claim document registry now real h =
    let (barred, near, covers, state) = top_step claim document registry now real h in
    record {
      strong_type = ground (
        arith,
        ==_iff claim.claim_type (some verified_fact),
        ==_iff claim.claim_type (some official_notice),
      );
      current = ground (arith, ==_iff claim.evidence_layer (some current_evidence));
      primary = ground arith;
      undisputed = ground (arith, ==_iff claim.contradiction_status (some unresolved));
      not_unnamed = ground arith;
      acquired = ground (
        arith,
        ==_iff document.retrieval_status (some retrieved),
        ==_iff document.evidence_origin (some human_reviewed_manual),
      );
      not_failed = ground (arith, ==_iff document.retrieval_status (some retrieval_failed));
      no_paywall = ground arith;
      no_discovery = ground arith;
      covered = covers;
      still_fresh = state;
    }

top-not_barred :
    (claim : Claim) (document : Document) (registry : Registry) (now : Time)
    → IsTop claim document registry now
    → is_barred claim document registry ≡ false
unfolding is_barred is_lead_or_structural
top-not_barred claim document registry now top = ground (
  arith,
  ==_iff claim.claim_type (some ClaimType.discovery_lead),
  ==_iff claim.evidence_layer (some structural_research),
  ==_iff document.retrieval_status (some retrieval_failed),
)

top-near_a :
    (claim : Claim) (document : Document) (registry : Registry) (now : Time)
    → is_fixture_document document ≡ false
    → IsTop claim document registry now
    → near_a claim document ≡ true
unfolding near_a strength_basis is_strongest_type
top-near_a claim document registry now real top = ground (
  arith,
  ==_iff claim.claim_type (some verified_fact),
  ==_iff claim.claim_type (some official_notice),
  ==_iff claim.evidence_layer (some current_evidence),
  ==_iff claim.contradiction_status (some unresolved),
  ==_iff document.retrieval_status (some retrieved),
  ==_iff document.evidence_origin (some human_reviewed_manual),
)

-- On a document that is no fixture the item grade is A exactly when the conditions of `IsTop` hold.
pub item_strength-IsTop_iff :
    (claim : Claim) (document : Document) (registry : Registry) (now : Time)
    → is_fixture_document document ≡ false
    → (item_strength claim document registry now ≡ strength_a) ↔ IsTop claim document registry now
unfolding item_strength full_strength weaker_strength base_strength
item_strength-IsTop_iff claim document registry now real = (
  item_strength-IsTop claim document registry now real,
  λ top. ground (
    arith,
    top-not_barred claim document registry now top,
    top-near_a claim document registry now real top,
  ),
)
