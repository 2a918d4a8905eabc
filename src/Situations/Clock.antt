-- ===== src/Situations/Clock.antt =====
-- analysis/situations.py: which claims _event_freshness_state rests on.
use logistics_situation_plat.Model.{
  Claim, Event, FreshnessState, fresh, ageing, freshness_state_code, freshness_state_inj,
}
use logistics_situation_plat.Evidence.{freshness_state}
use logistics_situation_plat.Grading.{doc_of, eligible_claims}
use logistics_situation_plat.Situations.Gate.{
  Inputs, is_eligible_freshness, event_freshness_state, worst_state,
}
use logistics_situation_plat.Base.{
  ◌⊎◌, ◌↔◌, ◌≡◌, ◌≤◌, List, map, ap, sym, subst, true, ltb, Bool-cases, List-cases, non_empty,
  non_empty-mem, mem_map, map_mem, if◌then◌else◌, arith, refl, inl, inr, [], ◌∷◌, Memᴰ,
}

-- The freshness of the document behind a claim.
abbrev pub clock_of : Inputs → Claim → FreshnessState
clock_of inputs claim =
    freshness_state (doc_of inputs.documents_by_id claim) inputs.registry inputs.as_of

-- The freshness of an event: fresh or ageing, that of an eligible claim, and of no eligible claim worse.
pub record HasClock (inputs : Inputs) (event : Event) (freshness : FreshnessState) : Type 0 where
  pub usable : (freshness ≡ fresh) ⊎ (freshness ≡ ageing)
  pub claim : Claim
  pub eligible :
      Memᴰ claim (eligible_claims event inputs.claims_by_id inputs.documents_by_id inputs.registry)
  pub dated : clock_of inputs claim ≡ freshness
  pub worst :
      (other : Claim)
      → Memᴰ other
          (eligible_claims event inputs.claims_by_id inputs.documents_by_id inputs.registry)
      → freshness_state_code (clock_of inputs other) ≤ freshness_state_code freshness

worst_state-le :
    (worst : FreshnessState) (states : List FreshnessState)
    → freshness_state_code worst ≤ freshness_state_code (worst_state worst states)
unfolding worst_state
worst_state-le worst [] = omega arith
worst_state-le worst (state ∷ rest) = ground (
  arith,
  worst_state-le
      (if ltb (freshness_state_code worst) (freshness_state_code state) then state else worst) rest,
)

worst_state_mem :
    {state : FreshnessState} (worst : FreshnessState) (states : List FreshnessState)
    → Memᴰ state states
    → freshness_state_code state ≤ freshness_state_code (worst_state worst states)
unfolding worst_state
worst_state_mem worst [] m = elim m [ ]
worst_state_mem worst (state ∷ rest) (Memᴰ.head e) = ground (
  arith,
  ap freshness_state_code e,
  worst_state-le
      (if ltb (freshness_state_code worst) (freshness_state_code state) then state else worst) rest,
)
worst_state_mem worst (state ∷ rest) (Memᴰ.tail m) =
    worst_state_mem
      (if ltb (freshness_state_code worst) (freshness_state_code state) then state else worst) rest
      m

worst_state_found :
    (worst : FreshnessState) (states : List FreshnessState)
    → (worst_state worst states ≡ worst) ⊎ Memᴰ (worst_state worst states) states
unfolding worst_state
worst_state_found worst [] = inl refl
worst_state_found worst (state ∷ rest) =
    elim (Bool-cases (ltb (freshness_state_code worst) (freshness_state_code state))) [
      | inl e ↦ rw e (elim (worst_state_found state rest) [
        | inl q ↦ inr (Memᴰ.head q)
        | inr m ↦ inr (Memᴰ.tail m)
      ])
      | inr e ↦
          rw e (elim (worst_state_found worst rest) [ inl q ↦ inl q | inr m ↦ inr (Memᴰ.tail m) ])
    ]

usable_iff :
    (freshness : FreshnessState)
    → (is_eligible_freshness freshness ≡ true) ↔ ((freshness ≡ fresh) ⊎ (freshness ≡ ageing))
usable_iff freshness = ground arith

-- The worst state from `fresh` is `freshness` when some state is it and none is worse.
worst_state-is :
    (freshness : FreshnessState) (states : List FreshnessState)
    → Memᴰ freshness states
    → ((state : FreshnessState)
        → Memᴰ state states
        → freshness_state_code state ≤ freshness_state_code freshness)
    → worst_state fresh states ≡ freshness
worst_state-is freshness states m worst =
    freshness_state_inj (worst_state fresh states) freshness
      (elim (worst_state_found fresh states) [
        | inl e ↦ omega (arith, ap freshness_state_code e, worst_state_mem fresh states m)
        | inr k ↦ omega (arith, worst (worst_state fresh states) k, worst_state_mem fresh states m)
      ])

-- The worst state of some states, not none, is one of them.
worst_state-among :
    (states : List FreshnessState)
    → non_empty states ≡ true
    → Memᴰ (worst_state fresh states) states
worst_state-among states some_state = elim (worst_state_found fresh states) [
  | inr m ↦ m
  | inl e ↦
      let (state, m) = non_empty-mem states some_state in
      subst (λ each. Memᴰ each states)
        (freshness_state_inj state (worst_state fresh states)
          (omega (arith, ap freshness_state_code e, worst_state_mem fresh states m)))
        m
]

-- The freshness that an event has and may have at the gate, from its eligible claims.
pub event_freshness_state-HasClock_iff :
    (inputs : Inputs) (event : Event) (freshness : FreshnessState)
    → ((event_freshness_state inputs event ≡ freshness) × (is_eligible_freshness freshness ≡ true))
      ↔ HasClock inputs event freshness
unfolding event_freshness_state
event_freshness_state-HasClock_iff inputs event freshness =
    let claims = eligible_claims event inputs.claims_by_id inputs.documents_by_id inputs.registry in
    let clock = clock_of inputs in
    elim (List-cases claims) [
      | inl e ↦
          ((λ (h, usable). absurd (cc (rw e at h, usable))), λ c. elim (rw e at c.eligible) [ ])
      | inr (first, rest, e) ↦ (
        (λ (h, usable).
            let same : worst_state fresh (map clock claims) ≡ freshness = rw e (rw e at h) in
            let among =
              subst (λ each. Memᴰ each (map clock claims)) same
                (worst_state-among (map clock claims) (rw e refl)) in
            let (claim, eligible, dated) = mem_map clock claims among in
            record {
              usable = (usable_iff freshness).0 usable;
              claim = claim;
              eligible = eligible;
              dated = sym dated;
              worst = λ other m. omega (
                arith,
                ap freshness_state_code same,
                worst_state_mem fresh (map clock claims) (map_mem clock claims m),
              );
            }),
        λ c.
            let same =
              worst_state-is freshness (map clock claims)
                (subst (λ each. Memᴰ each (map clock claims)) c.dated
                  (map_mem clock claims c.eligible))
                (λ state m.
                  let (other, k, q) = mem_map clock claims m in
                  omega (arith, ap freshness_state_code q, c.worst other k)) in
            (rw e (rw e at same), (usable_iff freshness).1 c.usable),
      )
    ]
