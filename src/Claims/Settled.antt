-- ===== src/Claims/Settled.antt =====
-- analysis/claims.py: which RESOLVED events pass resolved_situation_state_problems.
use logistics_situation_plat.Claims.Settlement.{
  resolved_situation_state_problems, resolved_event_problems, settlement_problems,
  qualifying_problems, is_known_claim, is_undisputed_id, is_qualifying,
}
use logistics_situation_plat.Grading.{Claims}
use logistics_situation_plat.Model.{
  situation_state_eq, SituationState, contradiction_status_eq, ContradictionStatus,
  denial_or_correction, verified_fact, official_notice, Claim, Event,
}
use logistics_situation_plat.Base.{
  ◌∙◌, sym, some_inj, subst, ◌==◌, problem_if-nil_iff, gather-nil_iff, Bool-cases, append-nil_iff,
  ◌∷◌, [], refl, mem_keep, option_eq, List-cases, ==_iff, keep_mem, inr, mem-non_empty, inl,
  Option-cases, false, not, ◌≢◌, ◌↔◌, keep, lookup, true, non_empty, Memᴰ, ◌⊎◌, String, List, some,
  ◌≡◌, arith,
}

-- `RESOLVING_CLAIM_TYPES`
abbrev pub IsResolving : Claim → Type 0
IsResolving claim =
    (claim.claim_type ≡ some official_notice)
    ⊎ (claim.claim_type ≡ some verified_fact)
    ⊎ (claim.claim_type ≡ some denial_or_correction)

abbrev pub AreKnown : Claims → List String → Type 0
AreKnown claims_by_id claim_ids =
    (id : String) → Memᴰ id claim_ids → (claim : Claim) × (lookup id claims_by_id ≡ some claim)

-- All claim ids resolve, and one of them to a resolving claim that is not itself disputed.
pub record IsSettled (claims_by_id : Claims) (claim_ids : List String) : Type 0 where
  pub known : AreKnown claims_by_id claim_ids
  pub claim_id : String
  pub listed : Memᴰ claim_id claim_ids
  pub claim : Claim
  pub resolves_to : lookup claim_id claims_by_id ≡ some claim
  pub resolving : IsResolving claim
  pub undisputed : claim.contradiction_status ≢ some ContradictionStatus.unresolved

module _ (claims_by_id : Claims) where
  unknown_iff :
      (claim_ids : List String)
      → (non_empty (keep (λ id. not (is_known_claim claims_by_id id)) claim_ids) ≡ false)
        ↔ AreKnown claims_by_id claim_ids
  unknown_iff claim_ids = (
    (λ h id m. elim (Option-cases (lookup id claims_by_id)) [
      | inl e ↦ absurd (
          cc (
            h,
            mem-non_empty
                (keep_mem (λ id. not (is_known_claim claims_by_id id)) claim_ids m (rw e refl)),
          ))
      | inr (claim, e) ↦ (claim, e)
    ]),
    λ known. elim (List-cases (keep (λ id. not (is_known_claim claims_by_id id)) claim_ids)) [
      | inl e ↦ rw e refl
      | inr (id, rest, e) ↦
          let (m, n) =
            mem_keep (λ id. not (is_known_claim claims_by_id id)) claim_ids
              (rw e (Memᴰ.head refl)) in
          let (claim, q) = known id m in absurd (cc (rw q at n))
    ],
  )

  is_qualifying_iff :
      (id : String)
      → (is_qualifying claims_by_id id ≡ true)
        ↔ ((claim : Claim) × (lookup id claims_by_id ≡ some claim) × IsResolving claim)
  unfolding is_qualifying
  is_qualifying_iff id = ground arith

  is_undisputed_id_iff :
      (id : String)
      → (is_undisputed_id claims_by_id id ≡ true) ↔ (
          (claim : Claim) × (lookup id claims_by_id ≡ some claim)
          × (claim.contradiction_status ≢ some ContradictionStatus.unresolved))
  unfolding is_undisputed_id
  is_undisputed_id_iff id = elim (Option-cases (lookup id claims_by_id)) [
    | inl e ↦ ground arith
    | inr (claim, e) ↦
        ground (arith, ==_iff claim.contradiction_status (some ContradictionStatus.unresolved))
  ]

  qualifying-nil :
      (event_id : String) (qualifying : List String)
      → qualifying_problems claims_by_id event_id qualifying ≡ []
      → (id : String) × Memᴰ id qualifying × (is_undisputed_id claims_by_id id ≡ true)
  unfolding qualifying_problems
  qualifying-nil event_id [] h = ground arith
  qualifying-nil event_id (first ∷ rest) h =
      elim (List-cases (keep (is_undisputed_id claims_by_id) (first ∷ rest))) [
        | inl e ↦ absurd (cc (rw e at h))
        | inr (id, more, e) ↦
            let (m, q) =
              mem_keep (is_undisputed_id claims_by_id) (first ∷ rest) (rw e (Memᴰ.head refl)) in
            (id, m, q)
      ]

  nil-qualifying :
      {id : String} (event_id : String) (qualifying : List String)
      → Memᴰ id qualifying
      → is_undisputed_id claims_by_id id ≡ true
      → qualifying_problems claims_by_id event_id qualifying ≡ []
  unfolding qualifying_problems
  nil-qualifying event_id [] m h = elim m [ ]
  nil-qualifying event_id (first ∷ rest) m h =
      elim (List-cases (keep (is_undisputed_id claims_by_id) (first ∷ rest))) [
        | inl e ↦ elim (rw e at (keep_mem (is_undisputed_id claims_by_id) (first ∷ rest) m h)) [ ]
        | inr (other, more, e) ↦ rw e refl
      ]

  settlement-nil :
      (event_id : String) (claim_ids : List String)
      → settlement_problems claims_by_id event_id claim_ids ≡ []
      → IsSettled claims_by_id claim_ids
  unfolding settlement_problems
  settlement-nil event_id [] h = ground arith
  settlement-nil event_id (first ∷ rest) h =
      let claim_ids = first ∷ rest in
      let (known, qualifying) = (append-nil_iff _ _).0 h in
      let (id, m, undisputed) =
        qualifying-nil event_id (keep (is_qualifying claims_by_id) claim_ids) qualifying in
      let (listed, q) = mem_keep (is_qualifying claims_by_id) claim_ids m in
      let (claim, e, resolving) = (is_qualifying_iff id).0 q in
      let (claim', e', free) = (is_undisputed_id_iff id).0 undisputed in
      record {
        known = (unknown_iff claim_ids).0 ((problem_if-nil_iff _ _).0 known);
        claim_id = id;
        listed = listed;
        claim = claim;
        resolves_to = e;
        resolving = resolving;
        undisputed =
            subst (λ each. each.contradiction_status ≢ some ContradictionStatus.unresolved)
              (some_inj (sym e' ∙ e)) free;
      }

  nil-settlement :
      (event_id : String) (claim_ids : List String)
      → IsSettled claims_by_id claim_ids
      → settlement_problems claims_by_id event_id claim_ids ≡ []
  unfolding settlement_problems
  nil-settlement event_id [] s = elim s.listed [ ]
  nil-settlement event_id (first ∷ rest) s =
      let claim_ids = first ∷ rest in
      (append-nil_iff _ _).1 (
        (problem_if-nil_iff _ _).1 ((unknown_iff claim_ids).1 s.known),
        nil-qualifying event_id (keep (is_qualifying claims_by_id) claim_ids)
            (keep_mem (is_qualifying claims_by_id) claim_ids s.listed
              ((is_qualifying_iff s.claim_id).1 (s.claim, s.resolves_to, s.resolving)))
            ((is_undisputed_id_iff s.claim_id).1 (s.claim, s.resolves_to, s.undisputed)),
      )

  resolved_event-nil_iff :
      (event : Event)
      → (resolved_event_problems claims_by_id event ≡ []) ↔ (
          event.situation_state ≡ some SituationState.resolved
          → IsSettled claims_by_id event.claim_ids)
  unfolding resolved_event_problems
  resolved_event-nil_iff event =
      elim (Bool-cases (event.situation_state == some SituationState.resolved)) [
        | inl e ↦ rw e (
          (λ h q. settlement-nil event.event_id event.claim_ids h),
          λ s.
              nil-settlement event.event_id event.claim_ids
                (s ((==_iff event.situation_state (some SituationState.resolved)).0 e)),
        )
        | inr e ↦ rw e (
          (λ h q.
              absurd (cc (e, (==_iff event.situation_state (some SituationState.resolved)).1 q))),
          λ s. refl,
        )
      ]

-- The check finds no problem exactly when every RESOLVED event is settled: all its claim ids resolve,
-- and one of them resolves to an official notice, a verified fact or a denial that is not itself
-- recorded as unresolved.
pub resolved_situation_state_problems-nil_iff :
    (events : List Event) (claims_by_id : Claims)
    → (resolved_situation_state_problems events claims_by_id ≡ []) ↔ (
        (event : Event)
        → Memᴰ event events
        → event.situation_state ≡ some SituationState.resolved
        → IsSettled claims_by_id event.claim_ids)
unfolding resolved_situation_state_problems
resolved_situation_state_problems-nil_iff events claims_by_id = (
  (λ h event m.
      (resolved_event-nil_iff claims_by_id event).0
        ((gather-nil_iff (resolved_event_problems claims_by_id) events).0 h event m)),
  λ s.
      (gather-nil_iff (resolved_event_problems claims_by_id) events).1
        (λ event m. (resolved_event-nil_iff claims_by_id event).1 (s event m)),
)
