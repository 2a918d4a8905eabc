-- ===== src/Tests/Grading.antt =====
-- Runs of the event grading on the closure, and its theorems there.
use logistics_situation_plat.Grading.Caps.{
  compute_evidence_grade-stale, compute_evidence_grade-contradicted,
}
use logistics_situation_plat.Grading.Confirmed.{compute_evidence_grade-confirmed_iff, IsConfirmed}
use logistics_situation_plat.Grading.Monotone.{compute_evidence_grade_anti}
use logistics_situation_plat.Grading.Proposals.{
  compute_situation_state-active, compute_situation_state-uncertain_iff, HasStale,
}
use logistics_situation_plat.Grading.Eligibility.{eligible_claims-mem_iff, IsEligible}
use logistics_situation_plat.Evidence.{
  weaker_strength, reference_instant, freshness_state, scope_meets, authority_covers,
  is_strongest_type, near_a, base_strength, is_discovery_source, is_lead_or_structural, is_barred,
  full_strength, item_strength, is_fixture_document, strength_basis, source_entry, instant,
}
use logistics_situation_plat.Model.{SituationState, uncertain, active, reported, Time, confirmed}
use logistics_situation_plat.Tests.Data.{
  denied_event, weeks_later, next_day, registry, documents, claims, denial_claim, disputed_event,
  closure_event, closure,
}
use logistics_situation_plat.Grading.{
  extends_end, exceeds, is_approved_current, is_first_seen_recently, resolves, widens, active_since,
  later_rules, has_state, is_strong_enough, reporting_claims, reports, excluded_duplicates,
  independence_groups, independent_group_count, modal_assertion_group, core_set, corroborates,
  confirms, base_grade, cap_contradiction, clock_cap, capped_grade, is_gradable,
  has_capping_contradiction, source_of, is_eligible, eligible_claim, grade_rank,
  compute_situation_state, eligible_claims, compute_evidence_grade,
}
use logistics_situation_plat.Base.{
  contains, any_of, keep, distinct, most_common, all_of, truthy, lookup, collect, ◌≤◌, String, ◌≡◌,
  refl, ◌↔◌, ◌⊎◌, inl, true, false, some, [], ◌∷◌, Memᴰ, arith, ◌==◌, string_eq, option_eq, nat_eq,
}

unfoldable pub all_grading : Unit {0}
unfolding compute_evidence_grade eligible_claims eligible_claim is_eligible collect lookup source_of
    source_entry strength_basis is_fixture_document is_gradable all_of capped_grade clock_cap
    cap_contradiction base_grade confirms corroborates core_set modal_assertion_group most_common
    independent_group_count independence_groups excluded_duplicates distinct reports
    reporting_claims is_strong_enough keep has_state has_capping_contradiction item_strength
    full_strength is_barred is_lead_or_structural is_discovery_source base_strength near_a
    is_strongest_type authority_covers scope_meets freshness_state reference_instant instant
    weaker_strength any_of contains ◌==◌ compute_situation_state later_rules active_since widens
    resolves is_first_seen_recently is_approved_current exceeds extends_end
all_grading = tt

pub closure_grades :
    ((compute_evidence_grade closure_event claims documents registry next_day).0 ≡ some confirmed)
    × ((compute_evidence_grade disputed_event claims documents registry next_day).0 ≡ some reported)
    × ((compute_evidence_grade closure_event claims documents registry weeks_later).0
        ≡ some reported)
unfolding all_grading
closure_grades = (refl, refl, refl)

closure_is_eligible : eligible_claims closure_event claims documents registry ≡ closure ∷ []
unfolding all_grading
closure_is_eligible = refl

closure_state :
    ((compute_situation_state closure_event
        (closure ∷ [])
        documents
        registry
        (some confirmed)
        next_day).0
      ≡ some active)
    × ((compute_situation_state denied_event
          (denial_claim ∷ [])
          documents
          registry
          (some reported)
          next_day).0
        ≡ some SituationState.resolved)
unfolding all_grading
closure_state = (refl, refl)

compute_evidence_grade_anti_example :
    grade_rank (compute_evidence_grade closure_event claims documents registry weeks_later).0
    ≤ grade_rank (compute_evidence_grade closure_event claims documents registry next_day).0
compute_evidence_grade_anti_example =
    compute_evidence_grade_anti closure_event claims documents registry next_day weeks_later
      (omega arith)

compute_evidence_grade-confirmed_iff_example :
    ((compute_evidence_grade closure_event claims documents registry next_day).0 ≡ some confirmed)
    ↔ IsConfirmed closure_event claims documents registry next_day
compute_evidence_grade-confirmed_iff_example =
    compute_evidence_grade-confirmed_iff closure_event claims documents registry next_day

compute_evidence_grade-contradicted_example :
    grade_rank (compute_evidence_grade disputed_event claims documents registry next_day).0 ≤ 2
unfolding all_grading
compute_evidence_grade-contradicted_example =
    compute_evidence_grade-contradicted disputed_event claims documents registry next_day refl

compute_evidence_grade-stale_example :
    grade_rank (compute_evidence_grade closure_event claims documents registry weeks_later).0 ≤ 2
unfolding all_grading
compute_evidence_grade-stale_example =
    compute_evidence_grade-stale closure_event claims documents registry weeks_later closure
      (Memᴰ.head refl) (omega arith)

eligible_claims-mem_iff_example :
    Memᴰ closure (eligible_claims closure_event claims documents registry) ↔ (
      (claim_id : String) × Memᴰ claim_id closure_event.claim_ids
      × (lookup claim_id claims ≡ some closure)
      × IsEligible documents registry closure)
eligible_claims-mem_iff_example =
    eligible_claims-mem_iff closure_event claims documents registry closure

compute_situation_state-uncertain_iff_example :
    ((compute_situation_state closure_event
        (closure ∷ [])
        documents
        registry
        (some confirmed)
        weeks_later).0
      ≡ some uncertain)
    ↔ ((has_capping_contradiction closure_event ≡ true)
        ⊎ HasStale documents registry weeks_later (closure ∷ []))
compute_situation_state-uncertain_iff_example =
    compute_situation_state-uncertain_iff closure_event (closure ∷ []) documents registry
      (some confirmed) weeks_later

compute_situation_state-active_example :
    (3 ≤ grade_rank (some confirmed))
    × ((since : Time) × (instant closure_event.active_as_of ≡ some since))
    × (truthy closure_event.active_basis ≡ true)
    × (has_capping_contradiction closure_event ≡ false)
    × ¬ HasStale documents registry next_day (closure ∷ [])
compute_situation_state-active_example =
    compute_situation_state-active closure_event (closure ∷ []) documents registry (some confirmed)
      next_day (inl closure_state.0)
