-- ===== src/Grading/Confirmed.antt =====
-- When an event is graded CONFIRMED (analysis/grading.py: compute_evidence_grade).
use logistics_situation_plat.Grading.Leads.{non_lead-gradable}
use logistics_situation_plat.Grading.Confirming.{
  IsConfirming, confirms-IsConfirming, IsConfirming-confirms,
}
use logistics_situation_plat.Grading.BaseRank.{base_grade-rank}
use logistics_situation_plat.Grading.Caps.{capped_grade-rank, has}
use logistics_situation_plat.Base.{
  ◌≢◌, option_eq, any_of_mem, ◌≢◌, any_of-found, Bool-cases, any_of-absent, not, ◌&&◌, any_of,
  false, List, ◌==◌, Bool, contains, refl, ap, inr, inl, Memᴰ-cases, ◌↔◌, [], ◌∷◌, some, arith,
  Memᴰ, true, ◌≡◌,
}
use logistics_situation_plat.Grading.Grade.{
  compute_evidence_grade, has_state, capped_grade, confirms,
}
use logistics_situation_plat.Evidence.{freshness_state}
use logistics_situation_plat.Model.{
  unknown, expired, stale, confirmed, ageing, FreshnessState, Event, claim_type_eq,
  freshness_state_eq, strength_eq, fresh, ClaimType, Claim, Time, Registry,
}
use logistics_situation_plat.Grading.Qualified.{
  eligible_claims, has_capping_contradiction, Claims, doc_of, Documents,
}

-- The conditions of grade CONFIRMED: no unresolved existence or status-change contradiction, an
-- eligible claim that confirms on its own, and no eligible claim with a document that is not fresh.
pub record IsConfirmed (event : Event) (claims : Claims) (documents : Documents)
    (registry : Registry) (now : Time) : Type 0 where
  pub uncontradicted : has_capping_contradiction event ≡ false
  pub claim : Claim
  pub eligible : Memᴰ claim (eligible_claims event claims documents registry)
  pub confirming : IsConfirming documents registry now claim
  pub all_fresh :
      (other : Claim)
      → Memᴰ other (eligible_claims event claims documents registry)
      → freshness_state (doc_of documents other) registry now ≡ fresh

not_fresh_cases :
    (s : FreshnessState)
    → contains (ageing ∷ []) s ≡ false
    → contains (stale ∷ []) s ≡ false
    → contains (expired ∷ unknown ∷ []) s ≡ false
    → s ≡ fresh
unfolding contains ◌==◌
not_fresh_cases s a b c = ground arith

fresh_in_none :
    (s : FreshnessState)
    → s ≡ fresh
    → (contains (ageing ∷ []) s ≡ false)
      × (contains (stale ∷ []) s ≡ false)
      × (contains (expired ∷ unknown ∷ []) s ≡ false)
unfolding contains ◌==◌
fresh_in_none s h = ground arith

module _ (documents : Documents) (registry : Registry) (now : Time) (capping : Bool)
    (claims : List Claim) where
  capped-confirmed :
      (capped_grade documents registry now capping claims).0 ≡ confirmed
      → (capping ≡ false)
        × (any_of (λ claim. confirms documents registry now claim && not capping) claims ≡ true)
        × (has documents registry now capping claims (ageing ∷ []) ≡ false)
        × (has documents registry now capping claims (stale ∷ []) ≡ false)
        × (has documents registry now capping claims (expired ∷ unknown ∷ []) ≡ false)
  capped-confirmed h = ground (
    arith,
    capped_grade-rank documents registry now capping claims,
    base_grade-rank documents registry now capping claims,
  )

  confirmed-capped :
      capping ≡ false
      → any_of (λ claim. confirms documents registry now claim && not capping) claims ≡ true
      → has documents registry now capping claims (ageing ∷ []) ≡ false
      → has documents registry now capping claims (stale ∷ []) ≡ false
      → has documents registry now capping claims (expired ∷ unknown ∷ []) ≡ false
      → (capped_grade documents registry now capping claims).0 ≡ confirmed
  confirmed-capped a b c d e = ground (
    arith,
    capped_grade-rank documents registry now capping claims,
    base_grade-rank documents registry now capping claims,
  )

  all_fresh_of_has :
      has documents registry now capping claims (ageing ∷ []) ≡ false
      → has documents registry now capping claims (stale ∷ []) ≡ false
      → has documents registry now capping claims (expired ∷ unknown ∷ []) ≡ false
      → (other : Claim) → Memᴰ other claims
      → freshness_state (doc_of documents other) registry now ≡ fresh
  unfolding has_state
  all_fresh_of_has a b c other m =
      not_fresh_cases _ (any_of-absent _ claims a m) (any_of-absent _ claims b m)
        (any_of-absent _ claims c m)

  has_none :
      (states : List FreshnessState)
      → contains states fresh ≡ false
      → ((other : Claim)
          → Memᴰ other claims
          → freshness_state (doc_of documents other) registry now ≡ fresh)
      → has documents registry now capping claims states ≡ false
  unfolding has_state
  has_none states out all = elim (Bool-cases (has documents registry now capping claims states)) [
    | inl e ↦
        let (claim, m, c) = any_of-found _ claims e in
        cc (out, c, ap (contains states) (all claim m))
    | inr e ↦ e
  ]

confirming-not_lead :
    (documents : Documents) (registry : Registry) (now : Time) (claim : Claim)
    → IsConfirming documents registry now claim
    → claim.claim_type ≢ some ClaimType.discovery_lead
confirming-not_lead documents registry now claim c e = elim (Memᴰ-cases c.strong_type) [
  | inl q ↦ cc
  | inr r ↦ elim (Memᴰ-cases r) [ inl q ↦ cc | inr q ↦ elim q [ ] ]
]

module _ (event : Event) (claims : Claims) (documents : Documents) (registry : Registry)
    (now : Time) where
  confirmed_sound :
      (compute_evidence_grade event claims documents registry now).0 ≡ some confirmed
      → IsConfirmed event claims documents registry now
  unfolding compute_evidence_grade
  confirmed_sound h =
      let eligible = eligible_claims event claims documents registry in
      let capping = has_capping_contradiction event in
      let (a, b, c, d, e) =
        capped-confirmed documents registry now capping eligible (ground arith) in
      let (claim, m, q) = any_of-found _ eligible b in
      record {
        uncontradicted = a;
        claim = claim;
        eligible = m;
        confirming = confirms-IsConfirming documents registry now claim (ground arith);
        all_fresh = all_fresh_of_has documents registry now capping eligible c d e;
      }

  confirmed_complete :
      IsConfirmed event claims documents registry now
      → (compute_evidence_grade event claims documents registry now).0 ≡ some confirmed
  unfolding compute_evidence_grade
  confirmed_complete h =
      let eligible = eligible_claims event claims documents registry in
      let capping = has_capping_contradiction event in
      let gradable =
        non_lead-gradable h.claim eligible h.eligible
          (confirming-not_lead documents registry now h.claim h.confirming) in
      rw gradable (
        ap some (
          confirmed-capped documents registry now capping eligible h.uncontradicted
            (any_of_mem _ eligible h.eligible (
              rw
                (
                  h.uncontradicted,
                  IsConfirming-confirms documents registry now h.claim h.confirming,
                )
                refl))
            (has_none documents registry now capping eligible (ageing ∷ [])
              (unfold contains ◌==◌ in refl) h.all_fresh)
            (has_none documents registry now capping eligible (stale ∷ [])
              (unfold contains ◌==◌ in refl) h.all_fresh)
            (has_none documents registry now capping eligible (expired ∷ unknown ∷ [])
              (unfold contains ◌==◌ in refl) h.all_fresh)))

  -- An event is graded CONFIRMED exactly when it is uncontradicted, has a confirming claim, and
  -- all its eligible claims rest on fresh documents.
  pub compute_evidence_grade-confirmed_iff :
      ((compute_evidence_grade event claims documents registry now).0 ≡ some confirmed)
      ↔ IsConfirmed event claims documents registry now
  compute_evidence_grade-confirmed_iff = (confirmed_sound, confirmed_complete)
