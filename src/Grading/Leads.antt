-- ===== src/Grading/Leads.antt =====
-- Which events have no grade (analysis/grading.py: the first test of compute_evidence_grade).
use logistics_situation_plat.Base.{
  all_of_mem, option_eq, all_of, all_of-intro, ◌≢◌, Bool-cases, false, List, ◌==◌, none, refl, inr,
  inl, ◌↔◌, [], ◌∷◌, some, ==_iff, arith, Memᴰ, true, ◌≡◌,
}
use logistics_situation_plat.Grading.Grade.{compute_evidence_grade, is_gradable}
use logistics_situation_plat.Model.{
  Event, claim_type_eq, freshness_state_eq, strength_eq, ClaimType, Claim, Time, Registry,
}
use logistics_situation_plat.Grading.Qualified.{eligible_claims, Claims, Documents}

-- A claim set is gradable exactly when some claim of it is no discovery lead.
pub non_lead-gradable :
    (claim : Claim) (claims : List Claim)
    → Memᴰ claim claims
    → claim.claim_type ≢ some ClaimType.discovery_lead
    → is_gradable claims ≡ true
unfolding is_gradable
non_lead-gradable claim [] m h = elim m [ ]
non_lead-gradable claim (x ∷ xs) m h =
    elim (Bool-cases (all_of (λ c. c.claim_type == some ClaimType.discovery_lead) (x ∷ xs))) [
      | inl e ↦ absurd (
          h (
            (==_iff claim.claim_type (some ClaimType.discovery_lead)).0
              (all_of_mem _ (x ∷ xs) e m)))
      | inr e ↦ rw e refl
    ]

leads-not_gradable :
    (claims : List Claim)
    → ((claim : Claim) → Memᴰ claim claims → claim.claim_type ≡ some ClaimType.discovery_lead)
    → is_gradable claims ≡ false
unfolding is_gradable
leads-not_gradable [] h = refl
leads-not_gradable (x ∷ xs) h =
    rw
      (all_of-intro (λ c. c.claim_type == some ClaimType.discovery_lead) (x ∷ xs)
        (λ claim m. (==_iff claim.claim_type (some ClaimType.discovery_lead)).1 (h claim m)))
      refl

module _ (event : Event) (claims : Claims) (documents : Documents) (registry : Registry)
    (now : Time) where
  all_leads_iff : ((compute_evidence_grade event claims documents registry now).0 ≡ none) ↔ (
      (claim : Claim)
      → Memᴰ claim (eligible_claims event claims documents registry)
      → claim.claim_type ≡ some ClaimType.discovery_lead)
  unfolding compute_evidence_grade
  all_leads_iff = (
    (λ h claim m. elim (Bool-cases (claim.claim_type == some ClaimType.discovery_lead)) [
      | inl e ↦ (==_iff claim.claim_type (some ClaimType.discovery_lead)).0 e
      | inr e ↦ ground (
        arith,
        non_lead-gradable claim (eligible_claims event claims documents registry) m
            (λ q. cc (e, (==_iff claim.claim_type (some ClaimType.discovery_lead)).1 q)),
      )
    ]),
    λ h. rw (leads-not_gradable (eligible_claims event claims documents registry) h) refl,
  )

  -- An event has no grade exactly when no eligible claim is anything but a discovery lead.
  pub compute_evidence_grade-none_iff :
      ((compute_evidence_grade event claims documents registry now).0 ≡ none)
      ↔ ¬ (
          (claim : Claim) × Memᴰ claim (eligible_claims event claims documents registry)
          × (claim.claim_type ≢ some ClaimType.discovery_lead))
  compute_evidence_grade-none_iff = (
    (λ h (claim, m, other). other (all_leads_iff.0 h claim m)),
    λ nothing. all_leads_iff.1 (λ claim m.
        elim (Bool-cases (claim.claim_type == some ClaimType.discovery_lead)) [
          | inl e ↦ (==_iff claim.claim_type (some ClaimType.discovery_lead)).0 e
          | inr e ↦
              elim (nothing (
                claim,
                m,
                λ q. cc (e, (==_iff claim.claim_type (some ClaimType.discovery_lead)).1 q),
              )) [ ]
        ]),
  )
