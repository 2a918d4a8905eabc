-- ===== src/Tests/Validation.antt =====
-- The rules on stored records at the closure.
use logistics_situation_plat.Tests.Grading.{closure_grades}
use logistics_situation_plat.Grading.{compute_evidence_grade}
use logistics_situation_plat.Validation.Agreement.{
  projected_strength-covered, IsProjected, computed_confirmed-covered,
}
use logistics_situation_plat.Tests.Data.{
  next_day, documents, registry, claims, notice, closure, closure_event,
}
use logistics_situation_plat.Evidence.{
  is_fixture_document, project_event_evidence, projected, EventEvidence,
}
use logistics_situation_plat.Validation.{
  item_strength_a_requires_authority_coverage_problems,
  confirmed_requires_authority_coverage_problems,
}
use logistics_situation_plat.Model.{confirmed, Event}
use logistics_situation_plat.Base.{
  ◌==◌, contains, sym, lookup, subst, inr, inl, Memᴰ-cases, some, ◌≡◌, [], ◌∷◌, Memᴰ, refl,
}

closure_is_confirmed :
    (event : Event)
    → Memᴰ event (closure_event ∷ [])
    → event.evidence_grade ≡ some confirmed
    → (compute_evidence_grade event claims documents registry next_day).0 ≡ some confirmed
closure_is_confirmed event m h = elim (Memᴰ-cases m) [
  | inl e ↦ rw e closure_grades.0
  | inr n ↦ elim n [ ]
]

computed_confirmed-covered_example :
    confirmed_requires_authority_coverage_problems (closure_event ∷ []) claims documents ≡ []
computed_confirmed-covered_example =
    computed_confirmed-covered (closure_event ∷ []) claims documents registry next_day
      closure_is_confirmed

abbrev closure_evidence : EventEvidence
closure_evidence = projected closure notice "EVT-1" registry next_day

unfoldable all_validation : Unit {0}
unfolding project_event_evidence projected is_fixture_document lookup contains ◌==◌
all_validation = tt

closure-IsProjected :
    (item : EventEvidence)
    → Memᴰ item (closure_evidence ∷ [])
    → IsProjected claims documents registry item
unfolding all_validation
closure-IsProjected item m = elim (Memᴰ-cases m) [
  | inl e ↦ subst (IsProjected claims documents registry) (sym e) (record {
    claim = closure;
    document = notice;
    event_id = "EVT-1";
    now = next_day;
    projection = refl;
    rest = "20260411-0001";
    claim_id = refl;
    stored = refl;
    resolves_to = refl;
    real = refl;
  })
  | inr n ↦ elim n [ ]
]

projected_strength-covered_example :
    item_strength_a_requires_authority_coverage_problems (closure_evidence ∷ []) claims documents
    ≡ []
projected_strength-covered_example =
    projected_strength-covered (closure_evidence ∷ []) claims documents registry closure-IsProjected
