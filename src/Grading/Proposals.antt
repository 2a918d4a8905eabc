-- ===== src/Grading/Proposals.antt =====
-- What a proposed situation state rests on.
use logistics_situation_plat.Evidence.{instant, freshness_state}
use logistics_situation_plat.Grading.Transitions.{
  is_strong_grade, resolves, active_since, later_rules, compute_situation_state,
}
use logistics_situation_plat.Grading.Grade.{grade_rank, has_state}
use logistics_situation_plat.Model.{
  contradiction_status_eq, claim_type_eq, developing, ContradictionStatus, active,
  freshness_state_eq, denial_or_correction, uncertain, unknown, SituationState, expired,
  freshness_state_code, Grade, stale, Time, Claim, FreshnessState, Registry, Event,
}
use logistics_situation_plat.Grading.Qualified.{has_capping_contradiction, doc_of, Documents}
use logistics_situation_plat.Base.{
  mem_keep, keep, ==_iff, List-cases, truthy, Bool-cases, any_of_mem, any_of-found, contains, ◌≤◌,
  ◌≡◌, refl, ◌≢◌, ◌↔◌, ◌⊎◌, inl, inr, true, false, Option, some, List, [], ◌∷◌, Memᴰ, arith, ◌==◌,
  string_eq, option_eq, nat_eq,
}

-- A claim of the list rests on a document that is stale, expired or of unknown freshness.
abbrev pub HasStale : Documents → Registry → Time → List Claim → Type 0
HasStale documents registry now claims =
    (claim : Claim) × Memᴰ claim claims
    × (2 ≤ freshness_state_code (freshness_state (doc_of documents claim) registry now))

stale_code :
    (s : FreshnessState)
    → (contains (stale ∷ expired ∷ unknown ∷ []) s ≡ true) ↔ (2 ≤ freshness_state_code s)
unfolding contains ◌==◌
stale_code s = ((λ h. ground arith), λ h. ground arith)

module _ (documents : Documents) (registry : Registry) (now : Time) (claims : List Claim) where
  HasStale-iff :
      (has_state documents registry now (stale ∷ expired ∷ unknown ∷ []) claims ≡ true)
      ↔ HasStale documents registry now claims
  unfolding has_state
  HasStale-iff = (
    (λ h. let (claim, m, c) = any_of-found _ claims h in (claim, m, (stale_code _).0 c)),
    λ (claim, m, c). any_of_mem _ claims m ((stale_code _).1 c),
  )

resolves-denial :
    (claim : Claim)
    → resolves claim ≡ true
    → (claim.claim_type ≡ some denial_or_correction)
      × (claim.contradiction_status ≢ some ContradictionStatus.unresolved)
unfolding resolves
resolves-denial claim h = (
  ground (arith, ==_iff claim.claim_type (some denial_or_correction)),
  ground (arith, ==_iff claim.contradiction_status (some ContradictionStatus.unresolved)),
)

strong_rank : (grade : Option Grade) → is_strong_grade grade ≡ true → 3 ≤ grade_rank grade
unfolding ◌==◌
strong_rank grade h = ground arith

module _ (event : Event) (claims : List Claim) (documents : Documents) (registry : Registry)
    (grade : Option Grade) (now : Time) where
  abbrev proposal : Option SituationState
  proposal = (compute_situation_state event claims documents registry grade now).0

  -- UNCERTAIN is proposed exactly when the event carries an unresolved existence or status-change
  -- contradiction or one of its claims rests on stale, expired or undatable evidence.
  pub compute_situation_state-uncertain_iff :
      (proposal ≡ some uncertain)
      ↔ ((has_capping_contradiction event ≡ true) ⊎ HasStale documents registry now claims)
  unfolding compute_situation_state later_rules
  compute_situation_state-uncertain_iff = (
    (λ h. elim (Bool-cases (has_capping_contradiction event)) [
      | inl e ↦ inl e
      | inr e ↦
          elim (Bool-cases
            (has_state documents registry now (stale ∷ expired ∷ unknown ∷ []) claims)) [
              | inl q ↦ inr ((HasStale-iff documents registry now claims).0 q)
              | inr q ↦ ground arith
            ]
    ]),
    elim [
      | inl e ↦ ground arith
      | inr s ↦ ground (arith, (HasStale-iff documents registry now claims).1 s)
    ],
  )

  abbrev IsActive : Type 0
  IsActive = (proposal ≡ some active) ⊎ (proposal ≡ some developing)

  active_needs_calm :
      IsActive
      → (has_capping_contradiction event ≡ false)
        × (has_state documents registry now (stale ∷ expired ∷ unknown ∷ []) claims ≡ false)
  unfolding compute_situation_state
  active_needs_calm h = ground arith

  active_needs_strong : IsActive → is_strong_grade grade ≡ true
  unfolding compute_situation_state later_rules
  active_needs_strong h = ground arith

  active_needs_since : IsActive → (since : Time) × (active_since event ≡ some since)
  unfolding compute_situation_state later_rules
  active_needs_since h = ground arith

  -- ACTIVE or DEVELOPING is proposed only for a grade of CONFIRMED or CORROBORATED, with a dated and
  -- reasoned confirmation of activity, no capping contradiction and no stale claim.
  pub compute_situation_state-active :
      IsActive
      → (3 ≤ grade_rank grade)
        × ((since : Time) × (instant event.active_as_of ≡ some since))
        × (truthy event.active_basis ≡ true)
        × (has_capping_contradiction event ≡ false)
        × ¬ HasStale documents registry now claims
  unfolding active_since
  compute_situation_state-active h =
      let calm = active_needs_calm h in
      let (since, e) = active_needs_since h in
      (
        strong_rank grade (active_needs_strong h),
        (since, ground arith),
        ground arith,
        calm.0,
        λ s. cc (calm.1, (HasStale-iff documents registry now claims).1 s),
      )

  -- RESOLVED is proposed only on a denial or correction that is not itself disputed.
  pub compute_situation_state-resolved :
      proposal ≡ some SituationState.resolved
      → (claim : Claim) × Memᴰ claim claims
        × (claim.claim_type ≡ some denial_or_correction)
        × (claim.contradiction_status ≢ some ContradictionStatus.unresolved)
  unfolding compute_situation_state later_rules
  compute_situation_state-resolved h = elim (List-cases (keep resolves claims)) [
    | inl e ↦ ground arith
    | inr (claim, rest, e) ↦
        let (m, r) = mem_keep resolves claims (rw e (Memᴰ.head refl)) in
        let (kind, undisputed) = resolves-denial claim r in (claim, m, kind, undisputed)
  ]
