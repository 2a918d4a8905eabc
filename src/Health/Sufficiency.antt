-- ===== src/Health/Sufficiency.antt =====
-- When the coverage of a registry is sufficient.
use logistics_situation_plat.Health.Evaluation.{SourceHealth}
use logistics_situation_plat.Health.Coverage.{
  required_source_gap, is_live, CapabilityCoverage, sufficient, insufficient_coverage,
  overall_status, is_insufficient, is_limited, CoverageStatus,
}
use logistics_situation_plat.Base.{
  any_of, any_of_mem, all_of, non_empty, Bool, true, false, not, ◌&&◌, List, [], ◌∷◌, Memᴰ, ◌≡◌,
  ◌↔◌, refl, arith,
}

abbrev pub is_sufficient : CoverageStatus → Bool
is_sufficient sufficient = true
is_sufficient _ = false

module _ (coverages : List CapabilityCoverage) (healths : List SourceHealth) where
  -- A source that is required for publication and is not live makes the whole registry's coverage
  -- insufficient, however many other sources are live.
  pub overall_status-required :
      (health : SourceHealth)
      → Memᴰ health healths
      → health.required_for_publication ≡ true
      → is_live health.status ≡ false
      → overall_status coverages healths ≡ insufficient_coverage
  unfolding overall_status required_source_gap
  overall_status-required health listed required down =
      rw
        (any_of_mem (λ health. health.required_for_publication && not (is_live health.status))
          healths listed (rw required (rw down refl)))
        refl

is_sufficient_when :
    (coverages : List CapabilityCoverage)
    → any_of (λ coverage. is_insufficient coverage.status) coverages ≡ false
    → any_of (λ coverage. is_limited coverage.status) coverages ≡ false
    → all_of (λ coverage. is_sufficient coverage.status) coverages ≡ true
unfolding any_of all_of
is_sufficient_when [] h h' = refl
is_sufficient_when (coverage ∷ rest) h h' = ground (arith, is_sufficient_when rest)

sufficient_none :
    (coverages : List CapabilityCoverage)
    → all_of (λ coverage. is_sufficient coverage.status) coverages ≡ true
    → (any_of (λ coverage. is_insufficient coverage.status) coverages ≡ false)
      × (any_of (λ coverage. is_limited coverage.status) coverages ≡ false)
unfolding any_of all_of
sufficient_none [] h = (refl, refl)
sufficient_none (coverage ∷ rest) h = ground (arith, sufficient_none rest)

-- Coverage is sufficient overall exactly when no required source is down, some capability is
-- tracked, and each tracked capability is itself sufficient.
pub overall_status-sufficient_iff :
    (coverages : List CapabilityCoverage) (healths : List SourceHealth)
    → (overall_status coverages healths ≡ sufficient) ↔ (
        (required_source_gap healths ≡ false)
        × (non_empty coverages ≡ true)
        × (all_of (λ coverage. is_sufficient coverage.status) coverages ≡ true))
unfolding overall_status
overall_status-sufficient_iff coverages healths = (
  λ h. ground (arith, is_sufficient_when coverages),
  λ p. ground (arith, sufficient_none coverages),
)
