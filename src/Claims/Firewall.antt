-- ===== src/Claims/Firewall.antt =====
-- analysis/claims.py: which events pass the L3 firewall, and which claims have an independent
-- corroborator.
use logistics_situation_plat.Claims.Gates.{
  l3_firewall_problems, l3_firewall_event, is_structural, structural_facts, resolves_to_structural,
}
use logistics_situation_plat.Grading.{Claims}
use logistics_situation_plat.Model.{
  situation_state_eq, SituationState, evidence_layer_eq, uncertain, structural_research, Claim,
  Event,
}
use logistics_situation_plat.Base.{
  ◌∙◌, sym, List-cases, ◌||◌, ◌==◌, not, false, append-nil_iff, ◌&&◌, non_empty, Option, Bool, ◌∷◌,
  option_eq, Bool-cases, ==_iff, inr, all_of-intro, problem_if-nil_iff, inl, all_of_mem,
  gather-nil_iff, Option-cases, ◌⊎◌, ◌↔◌, none, [], true, ◌≢◌, some, all_of, ◌≡◌, Memᴰ, lookup,
  List, String, arith, refl,
}

-- A claim id that resolves to structural research.
abbrev pub IsStructuralId : Claims → String → Type 0
IsStructuralId claims_by_id id =
    (claim : Claim) × (lookup id claims_by_id ≡ some claim)
    × (claim.evidence_layer ≡ some structural_research)

-- No verified fact is structural research, and an event that rests on nothing else has no state or
-- is UNCERTAIN.
pub record IsWalledOff (claims_by_id : Claims) (event : Event) : Type 0 where
  pub facts : (id : String) → Memᴰ id event.verified_facts → ¬ IsStructuralId claims_by_id id
  pub state :
      event.claim_ids ≢ []
      → ((id : String) → Memᴰ id event.claim_ids → IsStructuralId claims_by_id id)
      → (event.situation_state ≡ none) ⊎ (event.situation_state ≡ some uncertain)

cons≢nil : {x : String} {xs : List String} → x ∷ xs ≢ []
cons≢nil h = ground arith

and_false : (a b : Bool) → (a && false && b) ≡ false
and_false a b = ground arith

module _ (claims_by_id : Claims) where
  resolves_to_structural_iff :
      (id : String)
      → (resolves_to_structural claims_by_id id ≡ true) ↔ IsStructuralId claims_by_id id
  unfolding resolves_to_structural
  resolves_to_structural_iff id = elim (Option-cases (lookup id claims_by_id)) [
    | inl e ↦ ground arith
    | inr (claim, e) ↦ ground (arith, ==_iff claim.evidence_layer (some structural_research))
  ]

  structural_facts-nil_iff :
      (event_id : String) (facts : List String)
      → (structural_facts claims_by_id event_id facts ≡ [])
        ↔ ((id : String) → Memᴰ id facts → ¬ IsStructuralId claims_by_id id)
  unfolding structural_facts
  structural_facts-nil_iff event_id facts = (
    (λ h id m (claim, e, layer).
        let quiet = (gather-nil_iff _ facts).0 h id m in
        cc (
          (problem_if-nil_iff _ _).0 (rw e at quiet),
          (==_iff claim.evidence_layer (some structural_research)).1 layer,
        )),
    λ free. (gather-nil_iff _ facts).1 (λ id m. elim (Option-cases (lookup id claims_by_id)) [
      | inl e ↦ rw e refl
      | inr (claim, e) ↦ rw e (
          (problem_if-nil_iff _ _).1 (elim (Bool-cases (is_structural claim)) [
            | inl q ↦
                absurd (
                  free id m
                    (claim, e, (==_iff claim.evidence_layer (some structural_research)).0 q))
            | inr q ↦ q
          ]))
    ]),
  )

  all_structural_iff :
      (claim_ids : List String)
      → (all_of (resolves_to_structural claims_by_id) claim_ids ≡ true)
        ↔ ((id : String) → Memᴰ id claim_ids → IsStructuralId claims_by_id id)
  all_structural_iff claim_ids = (
    (λ h id m.
        (resolves_to_structural_iff id).0
          (all_of_mem (resolves_to_structural claims_by_id) claim_ids h m)),
    λ h.
        all_of-intro (resolves_to_structural claims_by_id) claim_ids
          (λ id m. (resolves_to_structural_iff id).1 (h id m)),
  )

  calm_iff :
      (state : Option SituationState)
      → (not (state == none || state == some uncertain) ≡ false)
        ↔ ((state ≡ none) ⊎ (state ≡ some uncertain))
  calm_iff state = ground (arith, ==_iff state none, ==_iff state (some uncertain))

  state_rule_iff :
      (event : Event)
      → ((non_empty event.claim_ids
            && all_of (resolves_to_structural claims_by_id) event.claim_ids
            && not (event.situation_state == none || event.situation_state == some uncertain))
          ≡ false)
        ↔ (event.claim_ids ≢ []
            → ((id : String) → Memᴰ id event.claim_ids → IsStructuralId claims_by_id id)
            → (event.situation_state ≡ none) ⊎ (event.situation_state ≡ some uncertain))
  state_rule_iff event = elim (List-cases event.claim_ids) [
    | inl e ↦ rw e ((λ h some_ids all. absurd (some_ids refl)), λ h. refl)
    | inr (first, rest, e) ↦
        elim (Bool-cases (all_of (resolves_to_structural claims_by_id) event.claim_ids)) [
          | inl q ↦ (
            (λ h some_ids all. (calm_iff event.situation_state).0 (rw (e, rw e at q) at h)),
            λ h. rw q (
                rw e (
                  (calm_iff event.situation_state).1 (
                    h (λ empty. absurd (cons≢nil (sym e ∙ empty)))
                      ((all_structural_iff event.claim_ids).0 q)))),
          )
          | inr q ↦ (
            (λ h some_ids all. absurd (cc (q, (all_structural_iff event.claim_ids).1 all))),
            λ h. rw q (and_false (non_empty event.claim_ids) _),
          )
        ]
  ]

  l3_firewall_event-nil_iff :
      (event : Event) → (l3_firewall_event claims_by_id event ≡ []) ↔ IsWalledOff claims_by_id event
  unfolding l3_firewall_event
  l3_firewall_event-nil_iff event = (
    (λ h.
        let (facts, state) = (append-nil_iff _ _).0 h in
        record {
          facts = (structural_facts-nil_iff event.event_id event.verified_facts).0 facts;
          state = (state_rule_iff event).0 ((problem_if-nil_iff _ _).0 state);
        }),
    λ w. (append-nil_iff _ _).1 (
      (structural_facts-nil_iff event.event_id event.verified_facts).1 w.facts,
      (problem_if-nil_iff _ _).1 ((state_rule_iff event).1 w.state),
    ),
  )

-- The check finds no problem exactly when every event is walled off from structural research: none of
-- its verified facts resolves to it, and if it has claims and all of them resolve to it, the event has
-- no situation state or is UNCERTAIN.
pub l3_firewall_problems-nil_iff :
    (events : List Event) (claims_by_id : Claims)
    → (l3_firewall_problems events claims_by_id ≡ [])
      ↔ ((event : Event) → Memᴰ event events → IsWalledOff claims_by_id event)
unfolding l3_firewall_problems
l3_firewall_problems-nil_iff events claims_by_id = (
  (λ h event m.
      (l3_firewall_event-nil_iff claims_by_id event).0
        ((gather-nil_iff (l3_firewall_event claims_by_id) events).0 h event m)),
  λ w.
      (gather-nil_iff (l3_firewall_event claims_by_id) events).1
        (λ event m. (l3_firewall_event-nil_iff claims_by_id event).1 (w event m)),
)
