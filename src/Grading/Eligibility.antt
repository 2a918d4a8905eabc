-- ===== src/Grading/Eligibility.antt =====
-- Which claims count towards a grade, and which overrides are accepted.
use logistics_situation_plat.Grading.Grade.{grade_rank}
use logistics_situation_plat.Grading.Override.{grade_override_problems, override_problem}
use logistics_situation_plat.Evidence.{is_fixture_document, source_entry, strength_basis}
use logistics_situation_plat.Model.{
  Event, GradeOverride, origin_eq, retrieval_status_eq, review_status_eq, dataset_eq,
  human_reviewed_manual, retrieved, Document, approved, current_publication, Claim, Registry,
}
use logistics_situation_plat.Grading.Qualified.{
  eligible_claim, eligible_claims, Claims, source_of, is_eligible, Documents,
}
use logistics_situation_plat.Base.{
  ltb, ◌≤◌, ◌<◌, Bool-cases, inl, inr, ◌⊎◌, ℕ, collect-nil_iff, ◌<◌, collect_mem, mem_collect, ◌↔◌,
  lookup, [], none, Memᴰ, List, String, lookup?, ==_iff, Option-cases, truthy, ◌≡◌, ◌⊎◌, inl, inr,
  true, false, some, arith, string_eq, option_eq, nat_eq,
}

-- The conditions of Q(E) on a claim, with the document that it resolves to.
pub record IsEligible (documents : Documents) (registry : Registry) (claim : Claim) : Type 0 where
  pub current : claim.dataset ≡ some current_publication
  pub approved_claim : claim.review_status ≡ some approved
  pub standing : truthy claim.superseded_by ≡ false
  pub document : Document
  pub resolves_to : lookup? claim.document_id documents ≡ some document
  pub public_source : (source_entry registry document.source_id).enabled_for_public_claims ≡ true
  pub no_fixture : is_fixture_document document ≡ false
  pub acquired :
      (document.retrieval_status ≡ some retrieved)
      ⊎ (document.evidence_origin ≡ some human_reviewed_manual)

module _ (documents : Documents) (registry : Registry) (claim : Claim) where
  is_eligible-IsEligible :
      is_eligible documents registry claim ≡ true → IsEligible documents registry claim
  unfolding is_eligible source_of strength_basis
  is_eligible-IsEligible h = elim (Option-cases (lookup? claim.document_id documents)) [
    | inl e ↦ ground arith
    | inr (document, e) ↦ record {
      current = ground (arith, ==_iff claim.dataset (some current_publication));
      approved_claim = ground (arith, ==_iff claim.review_status (some approved));
      standing = ground arith;
      document = document;
      resolves_to = e;
      public_source = ground arith;
      no_fixture = ground arith;
      acquired = ground (
        arith,
        ==_iff document.retrieval_status (some retrieved),
        ==_iff document.evidence_origin (some human_reviewed_manual),
      );
    }
  ]

  IsEligible-is_eligible :
      IsEligible documents registry claim → is_eligible documents registry claim ≡ true
  unfolding is_eligible source_of strength_basis
  IsEligible-is_eligible h = ground (
    arith,
    ==_iff claim.dataset (some current_publication),
    ==_iff claim.review_status (some approved),
    ==_iff h.document.retrieval_status (some retrieved),
    ==_iff h.document.evidence_origin (some human_reviewed_manual),
  )

module _ (claims : Claims) (documents : Documents) (registry : Registry) (claim : Claim)
    (claim_id : String) where
  eligible_claim-some :
      eligible_claim claims documents registry claim_id ≡ some claim
      → (lookup claim_id claims ≡ some claim) × (is_eligible documents registry claim ≡ true)
  unfolding eligible_claim
  eligible_claim-some h = ground arith

  some-eligible_claim :
      lookup claim_id claims ≡ some claim
      → is_eligible documents registry claim ≡ true
      → eligible_claim claims documents registry claim_id ≡ some claim
  unfolding eligible_claim
  some-eligible_claim found passes = ground arith

-- The eligible claims of an event are exactly those that its claim ids resolve to and that meet the
-- conditions of Q(E): current and approved, not superseded, from a resolving real document that was
-- retrieved or human-reviewed, of a source enabled for public claims.
pub eligible_claims-mem_iff :
    (event : Event) (claims : Claims) (documents : Documents) (registry : Registry) (claim : Claim)
    → Memᴰ claim (eligible_claims event claims documents registry) ↔ (
        (claim_id : String) × Memᴰ claim_id event.claim_ids
        × (lookup claim_id claims ≡ some claim)
        × IsEligible documents registry claim)
unfolding eligible_claims
eligible_claims-mem_iff event claims documents registry claim = (
  (λ m.
      let (id, listed, e) =
        mem_collect (eligible_claim claims documents registry) event.claim_ids m in
      let (found, passes) = eligible_claim-some claims documents registry claim id e in
      (id, listed, found, is_eligible-IsEligible documents registry claim passes)),
  λ (id, listed, found, ok).
      collect_mem (eligible_claim claims documents registry) event.claim_ids id listed (
        some-eligible_claim claims documents registry claim id found
          (IsEligible-is_eligible documents registry claim ok)),
)

module _ (override : GradeOverride) (event : Event) (h : event.grade_override ≡ some override) where
  override_problem-none_iff :
      (override_problem event ≡ none) ↔ (grade_rank override.to < grade_rank event.evidence_grade)
  unfolding override_problem
  override_problem-none_iff = ((λ e. ground arith), λ lt. ground arith)

no_override : (event : Event) → event.grade_override ≡ none → override_problem event ≡ none
unfolding override_problem
no_override event e = ground arith

lt_not_le : {a b : ℕ} → a < b → b ≤ a → ⊥
lt_not_le down up = omega arith

lt_or_le : (a b : ℕ) → (a < b) ⊎ (b ≤ a)
lt_or_le a b = elim (Bool-cases (ltb a b)) [
  | inl e ↦ inl (ground arith)
  | inr e ↦ inr (ground arith)
]

all_downward_iff :
    (events : List Event)
    → (grade_override_problems events ≡ []) ↔ (
        (event : Event) (override : GradeOverride)
        → Memᴰ event events
        → event.grade_override ≡ some override
        → grade_rank override.to < grade_rank event.evidence_grade)
unfolding grade_override_problems
all_downward_iff events = (
  (λ h event override m e.
      (override_problem-none_iff override event e).0
        ((collect-nil_iff override_problem events).0 h event m)),
  λ h. (collect-nil_iff override_problem events).1 (λ event m.
      elim (Option-cases event.grade_override) [
        | inl e ↦ no_override event e
        | inr (override, e) ↦ (override_problem-none_iff override event e).1 (h event override m e)
      ]),
)

-- The check passes exactly when no event carries an override that is not strictly weaker than the
-- event's recorded grade.
pub grade_override_problems-nil_iff :
    (events : List Event)
    → (grade_override_problems events ≡ [])
      ↔ ¬ (
          (event : Event) × (override : GradeOverride) × Memᴰ event events
          × (event.grade_override ≡ some override)
          × (grade_rank event.evidence_grade ≤ grade_rank override.to))
grade_override_problems-nil_iff events = (
  (λ h (event, override, m, e, up).
      lt_not_le ((all_downward_iff events).0 h event override m e) up),
  λ nothing. (all_downward_iff events).1 (λ event override m e.
      elim (lt_or_le (grade_rank override.to) (grade_rank event.evidence_grade)) [
        | inl down ↦ down
        | inr up ↦ elim (nothing (event, override, m, e, up)) [ ]
      ]),
)
