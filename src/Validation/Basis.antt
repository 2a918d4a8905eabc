-- ===== src/Validation/Basis.antt =====
-- analysis/situation_validation.py, status_basis_required_problems, against compute_mode_situation; and
-- the order that is_status_change puts on two sides.
use logistics_situation_plat.Model.{Event}
use logistics_situation_plat.Validation.Rules.{requires_basis, status_basis_required_problems}
use logistics_situation_plat.Situations.{
  eligible_entries, Hit, SituationStatus, Entry, Inputs, compute_mode_situation, rule4_part,
  situation_status,
}
use logistics_situation_plat.Base.{
  problem_if-nil_iff, false, mem_map, is_empty, gather-nil_iff, ◌&&◌, [], ◌≡◌, map, List, arith,
  refl,
}

ruled-basis :
    (inputs : Inputs) (eligible : List Entry) (status : SituationStatus) (hits : List Hit)
    → situation_status inputs eligible ≡ (status, hits)
    → (requires_basis status && is_empty hits) ≡ false
unfolding situation_status rule4_part
ruled-basis inputs eligible status hits h = ground arith

-- Situations that are computed pass the rule that every status but the insufficient one has a basis.
pub computed_situation-based :
    (inputs : Inputs) (events : List (List Event))
    → status_basis_required_problems (map (compute_mode_situation inputs) events) ≡ []
unfolding status_basis_required_problems compute_mode_situation
computed_situation-based inputs events =
    (gather-nil_iff _ (map (compute_mode_situation inputs) events)).1 (λ situation m.
      let (each, n, e) = mem_map (compute_mode_situation inputs) events m in
      rw e
        ((problem_if-nil_iff _ _).1 (ruled-basis inputs (eligible_entries inputs each) _ _ refl)))
