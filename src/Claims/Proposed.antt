-- ===== src/Claims/Proposed.antt =====
-- analysis/grading.py and analysis/claims.py together: a RESOLVED that the grading proposes, at the gate
-- for RESOLVED events.
use logistics_situation_plat.Grading.Eligibility.{eligible_claims-mem_iff}
use logistics_situation_plat.Grading.Proposals.{compute_situation_state-resolved}
use logistics_situation_plat.Claims.Settlement.{resolved_situation_state_problems}
use logistics_situation_plat.Claims.Settled.{
  IsSettled, resolved_situation_state_problems-nil_iff, AreKnown,
}
use logistics_situation_plat.Grading.{eligible_claims, compute_situation_state, Documents, Claims}
use logistics_situation_plat.Model.{SituationState, Time, Grade, Registry, Event}
use logistics_situation_plat.Base.{sym, subst, inl, Memᴰ-cases, inr, [], ◌∷◌, some, ◌≡◌, Option}

-- If the grading proposes RESOLVED from the eligible claims of an event, and all claim ids of the event
-- resolve, then the event is settled: the gate finds no problem in it, whatever state is stored.
pub proposed_resolved-IsSettled :
    (event : Event) (claims_by_id : Claims) (documents : Documents) (registry : Registry)
    (grade : Option Grade) (now : Time)
    → (compute_situation_state event
        (eligible_claims event claims_by_id documents registry)
        documents
        registry
        grade
        now).0
      ≡ some SituationState.resolved
    → AreKnown claims_by_id event.claim_ids
    → resolved_situation_state_problems (event ∷ []) claims_by_id ≡ []
proposed_resolved-IsSettled event claims_by_id documents registry grade now h known =
    let (claim, m, kind, undisputed) =
      compute_situation_state-resolved event (eligible_claims event claims_by_id documents registry)
        documents registry grade now h in
    let (id, listed, found, eligible) =
      (eligible_claims-mem_iff event claims_by_id documents registry claim).0 m in
    let settled : IsSettled claims_by_id event.claim_ids = record {
      known = known;
      claim_id = id;
      listed = listed;
      claim = claim;
      resolves_to = found;
      resolving = inr (inr kind);
      undisputed = undisputed;
    } in
    (resolved_situation_state_problems-nil_iff (event ∷ []) claims_by_id).1 (λ each m' state.
      elim (Memᴰ-cases m') [
        | inl e ↦ subst (λ one. IsSettled claims_by_id one.claim_ids) (sym e) settled
        | inr none_left ↦ elim none_left [ ]
      ])
