-- ===== src/Validation/Agreement.antt =====
-- analysis/situation_validation.py against analysis/grading.py, analysis/situations.py and
-- analysis/claim_evidence_adapter.py: what these compute, under the rules on stored records.
use logistics_situation_plat.Evidence.Traceability.{without_prefix}
use logistics_situation_plat.Evidence.TopGrade.{item_strength-IsTop_iff}
use logistics_situation_plat.Grading.Eligibility.{eligible_claims-mem_iff}
use logistics_situation_plat.Grading.Confirmed.{compute_evidence_grade-confirmed_iff}
use logistics_situation_plat.Grading.{compute_evidence_grade, Documents, Claims}
use logistics_situation_plat.Evidence.{
  is_fixture_document, event_not_attached, source_disagrees, document_disagrees, projected,
  item_strength, project_event_evidence, EventEvidence, authority_covers, evidence_id_of,
}
use logistics_situation_plat.Model.{
  strength_eq, strength_a, grade_eq, empty_document, confirmed, Time, Registry, Document, Claim,
  Event,
}
use logistics_situation_plat.Validation.Rules.{
  strength_record_problems, item_strength_a_requires_authority_coverage_problems, is_uncovered,
  confirmed_event_problems, claim_id_of, confirmed_requires_authority_coverage_problems, is_covered,
}
use Prim.Native.String.{[], String, ◌++◌ as append}
use logistics_situation_plat.Base.{
  problem_if-nil_iff, false, ◌&&◌, string_eq, ok_inj, sym, contains, require-ok, ok, ◌∙◌, option_eq,
  ap, [], inr, ==_iff, or_else, inl, subst, ◌==◌, any_of_mem, Bool-cases, gather-nil_iff, any_of,
  true, Memᴰ, lookup?, lookup, ◌≡◌, List, refl, some,
}

covered_of :
    (claims_by_id : Claims) (documents_by_id : Documents) (id : String) (claim : Claim)
    (document : Document)
    → lookup id claims_by_id ≡ some claim
    → lookup? claim.document_id documents_by_id ≡ some document
    → authority_covers claim document ≡ true
    → is_covered claims_by_id documents_by_id id ≡ true
unfolding is_covered
covered_of claims_by_id documents_by_id id claim document e e' h = rw (e, is_covered) (rw e' h)

confirmed-covered :
    (event : Event) (claims_by_id : Claims) (documents_by_id : Documents) (registry : Registry)
    (now : Time)
    → (compute_evidence_grade event claims_by_id documents_by_id registry now).0 ≡ some confirmed
    → any_of (is_covered claims_by_id documents_by_id) event.claim_ids ≡ true
confirmed-covered event claims_by_id documents_by_id registry now h =
    let c =
      (compute_evidence_grade-confirmed_iff event claims_by_id documents_by_id registry now).0 h in
    let (id, listed, found, eligible) =
      (eligible_claims-mem_iff event claims_by_id documents_by_id registry c.claim).0 c.eligible in
    any_of_mem (is_covered claims_by_id documents_by_id) event.claim_ids listed (
      covered_of claims_by_id documents_by_id id c.claim eligible.document found
        eligible.resolves_to
        (subst (λ each. authority_covers c.claim (or_else each empty_document) ≡ true)
          eligible.resolves_to c.confirming.covered))

-- Events that store no CONFIRMED but a computed one pass the rule that CONFIRMED wants authority: one of
-- the claims of each leads to a document whose publisher's authority covers it.
pub computed_confirmed-covered :
    (events : List Event) (claims_by_id : Claims) (documents_by_id : Documents)
    (registry : Registry) (now : Time)
    → ((event : Event)
        → Memᴰ event events
        → event.evidence_grade ≡ some confirmed
        → (compute_evidence_grade event claims_by_id documents_by_id registry now).0
          ≡ some confirmed)
    → confirmed_requires_authority_coverage_problems events claims_by_id documents_by_id ≡ []
unfolding confirmed_requires_authority_coverage_problems confirmed_event_problems
computed_confirmed-covered events claims_by_id documents_by_id registry now computed =
    (gather-nil_iff (confirmed_event_problems claims_by_id documents_by_id) events).1 (λ event m.
      elim (Bool-cases (event.evidence_grade == some confirmed)) [
        | inl e ↦
            rw
              (
                e,
                confirmed-covered event claims_by_id documents_by_id registry now
                    (computed event m ((==_iff event.evidence_grade (some confirmed)).0 e)),
              )
              refl
        | inr e ↦ rw e refl
      ])

-- The id of a claim, from the id of the evidence that it is projected to.
claim_id_of-evidence_id_of :
    (rest : String) → claim_id_of (evidence_id_of (append "CLM-" rest)) ≡ append "CLM-" rest
unfolding claim_id_of evidence_id_of
claim_id_of-evidence_id_of rest =
    ap (λ each. claim_id_of (append "EVD-" each)) (without_prefix "CLM-" rest)
    ∙ ap (append "CLM-") (without_prefix "EVD-" rest)

-- An evidence record that is the projection of a stored claim, whose id starts as claim ids do, on the
-- document that the claim resolves to.
pub record IsProjected (claims_by_id : Claims) (documents_by_id : Documents) (registry : Registry)
    (item : EventEvidence) : Type 0 where
  pub claim : Claim
  pub document : Document
  pub event_id : String
  pub now : Time
  pub projection : project_event_evidence claim document event_id registry now ≡ ok item
  pub rest : String
  pub claim_id : claim.claim_id ≡ append "CLM-" rest
  pub stored : lookup claim.claim_id claims_by_id ≡ some claim
  pub resolves_to : lookup? claim.document_id documents_by_id ≡ some document
  pub real : is_fixture_document document ≡ false

projection_of :
    (claim : Claim) (document : Document) (event_id : String) (registry : Registry) (now : Time)
    (item : EventEvidence)
    → project_event_evidence claim document event_id registry now ≡ ok item
    → (item.evidence_id ≡ evidence_id_of claim.claim_id)
      × (item.strength ≡ item_strength claim document registry now)
unfolding project_event_evidence projected
projection_of claim document event_id registry now item h =
    let (a, h1) = require-ok (claim.document_id == document.document_id) document_disagrees h in
    let (b, h2) = require-ok (claim.source_id == document.source_id) source_disagrees h1 in
    let (c, h3) = require-ok (contains claim.event_ids event_id) event_not_attached h2 in
    let same = sym (ok_inj h3) in
    (ap (λ each. each.evidence_id) same, ap (λ each. each.strength) same)

same_id :
    {claims_by_id : Claims} {documents_by_id : Documents} {registry : Registry}
    (item : EventEvidence) (p : IsProjected claims_by_id documents_by_id registry item)
    → claim_id_of item.evidence_id ≡ p.claim.claim_id
same_id item p =
    let (id, strength) = projection_of p.claim p.document p.event_id _ p.now item p.projection in
    ap claim_id_of (id ∙ ap evidence_id_of p.claim_id)
    ∙ claim_id_of-evidence_id_of p.rest
    ∙ sym p.claim_id

quiet_on :
    (claims_by_id : Claims) (documents_by_id : Documents) (id : String) (claim : Claim)
    (document : Document)
    → lookup id claims_by_id ≡ some claim
    → lookup? claim.document_id documents_by_id ≡ some document
    → authority_covers claim document ≡ true
    → is_uncovered claims_by_id documents_by_id id ≡ false
unfolding is_uncovered
quiet_on claims_by_id documents_by_id id claim document e e' h =
    rw (e, is_uncovered) (rw e' (rw h refl))

projected-quiet :
    (claims_by_id : Claims) (documents_by_id : Documents) (registry : Registry)
    (item : EventEvidence)
    → IsProjected claims_by_id documents_by_id registry item
    → (item.strength == strength_a
        && is_uncovered claims_by_id documents_by_id (claim_id_of item.evidence_id))
      ≡ false
projected-quiet claims_by_id documents_by_id registry item p =
    elim (Bool-cases (item.strength == strength_a)) [
      | inl e ↦
          let (id, strength) =
            projection_of p.claim p.document p.event_id registry p.now item p.projection in
          let top =
            (item_strength-IsTop_iff p.claim p.document registry p.now p.real).0
              (sym strength ∙ (==_iff item.strength strength_a).0 e) in
          rw (e, same_id item p)
            (quiet_on claims_by_id documents_by_id p.claim.claim_id p.claim p.document p.stored
              p.resolves_to top.covered)
      | inr e ↦ rw e refl
    ]

-- Evidence records that are projected from stored claims on real documents pass the rule that strength A
-- wants authority: the id leads back to the claim, and the claim's document covers it.
pub projected_strength-covered :
    (items : List EventEvidence) (claims_by_id : Claims) (documents_by_id : Documents)
    (registry : Registry)
    → ((item : EventEvidence)
        → Memᴰ item items
        → IsProjected claims_by_id documents_by_id registry item)
    → item_strength_a_requires_authority_coverage_problems items claims_by_id documents_by_id ≡ []
unfolding item_strength_a_requires_authority_coverage_problems strength_record_problems
projected_strength-covered items claims_by_id documents_by_id registry h =
    (gather-nil_iff (strength_record_problems claims_by_id documents_by_id) items).1 (λ item m.
      (problem_if-nil_iff _ _).1
        (projected-quiet claims_by_id documents_by_id registry item (h item m)))
