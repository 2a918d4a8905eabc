-- ===== src/Grading/Monotone.antt =====
-- analysis/grading.py: compute_evidence_grade at two times.
use logistics_situation_plat.Grading.BaseRank.{base_grade-rank}
use logistics_situation_plat.Evidence.{freshness_state}
use logistics_situation_plat.Grading.Caps.{has_of_claim, capped_grade-rank, has}
use logistics_situation_plat.Evidence.Clock.{freshness_state_mono, item_strength_mono}
use logistics_situation_plat.Base.{
  inr, inl, any_of-found, ◌⊎◌, [], ◌∷◌, Memᴰ, refl, any_of_mono, arith, any_of, true, some, not,
  ◌≡◌, ◌&&◌, contains, ◌==◌, List, Bool, ◌≤◌,
}
use logistics_situation_plat.Grading.Grade.{
  compute_evidence_grade, capped_grade, has_state, reporting_claims, core_set, reports, grade_rank,
  corroborates, is_strong_enough, confirms, base_grade,
}
use logistics_situation_plat.Model.{
  freshness_state_eq, unknown, Event, freshness_state_code, ageing, stale, expired, FreshnessState,
  Claim, Time, Registry,
}
use logistics_situation_plat.Grading.Qualified.{
  eligible_claims, has_capping_contradiction, Claims, doc_of, Documents,
}

module _ (documents : Documents) (registry : Registry) where
  -- The REPORTED rule does not read the clock.
  reports_same :
      (now later : Time) (claims : List Claim)
      → reports documents registry later claims ≡ reports documents registry now claims
  unfolding reports reporting_claims
  reports_same now later claims = refl

  module _ (now later : Time) (h : now ≤ later) where
    confirms_anti :
        (claim : Claim)
        → confirms documents registry later claim ≡ true
        → confirms documents registry now claim ≡ true
    unfolding confirms ◌==◌
    confirms_anti claim e = ground (
      arith,
      item_strength_mono claim (doc_of documents claim) registry now later h,
      freshness_state_mono (doc_of documents claim) registry now later h,
    )

    is_strong_enough_anti :
        (claim : Claim)
        → is_strong_enough documents registry later claim ≡ true
        → is_strong_enough documents registry now claim ≡ true
    unfolding is_strong_enough contains ◌==◌
    is_strong_enough_anti claim e =
        ground (arith, item_strength_mono claim (doc_of documents claim) registry now later h)

    corroborates_anti :
        (claims : List Claim)
        → corroborates documents registry later claims ≡ true
        → corroborates documents registry now claims ≡ true
    unfolding corroborates
    corroborates_anti claims e = ground (
      arith,
      any_of_mono (is_strong_enough documents registry later)
          (is_strong_enough documents registry now) (core_set claims)
          (λ claim _. is_strong_enough_anti claim),
    )

    finds_confirming_anti :
        (capping : Bool) (claims : List Claim)
        → any_of (λ claim. confirms documents registry later claim && not capping) claims ≡ true
        → any_of (λ claim. confirms documents registry now claim && not capping) claims ≡ true
    finds_confirming_anti capping claims =
        any_of_mono (λ claim. confirms documents registry later claim && not capping)
          (λ claim. confirms documents registry now claim && not capping) claims
          (λ claim _ e. ground (arith, confirms_anti claim))

    base_grade_anti :
        (capping : Bool) (claims : List Claim)
        → grade_rank (some (base_grade documents registry later capping claims).0)
          ≤ grade_rank (some (base_grade documents registry now capping claims).0)
    base_grade_anti capping claims = ground (
      arith,
      base_grade-rank documents registry now capping claims,
      base_grade-rank documents registry later capping claims,
      finds_confirming_anti capping claims,
      corroborates_anti claims,
      reports_same now later claims,
    )

-- A state that worsens stays in the class of its cap or moves to a stricter one.
old_stays :
    (s s' : FreshnessState)
    → freshness_state_code s ≤ freshness_state_code s'
    → contains (expired ∷ unknown ∷ []) s ≡ true
    → contains (expired ∷ unknown ∷ []) s' ≡ true
unfolding contains ◌==◌
old_stays s s' h e = ground arith

mid_stays :
    (s s' : FreshnessState)
    → freshness_state_code s ≤ freshness_state_code s'
    → contains (stale ∷ []) s ≡ true
    → (contains (stale ∷ []) s' ≡ true) ⊎ (contains (expired ∷ unknown ∷ []) s' ≡ true)
unfolding contains ◌==◌
mid_stays s s' h e = ground arith

young_stays :
    (s s' : FreshnessState)
    → freshness_state_code s ≤ freshness_state_code s'
    → contains (ageing ∷ []) s ≡ true
    → (contains (ageing ∷ []) s' ≡ true)
      ⊎ (contains (stale ∷ []) s' ≡ true)
      ⊎ (contains (expired ∷ unknown ∷ []) s' ≡ true)
unfolding contains ◌==◌
young_stays s s' h e = ground arith

module _ (documents : Documents) (registry : Registry) (now later : Time) (h : now ≤ later)
    (capping : Bool) (claims : List Claim) where
  abbrev before : List FreshnessState → Bool
  before = has documents registry now capping claims

  abbrev after : List FreshnessState → Bool
  after = has documents registry later capping claims

  -- A claim whose document is in one of the states now, and what its state is later.
  witness :
      (states : List FreshnessState)
      → before states ≡ true
      → (claim : Claim) × Memᴰ claim claims
        × (contains states (freshness_state (doc_of documents claim) registry now) ≡ true)
        × (freshness_state_code (freshness_state (doc_of documents claim) registry now)
            ≤ freshness_state_code (freshness_state (doc_of documents claim) registry later))
  unfolding has_state
  witness states e =
      let (claim, m, c) = any_of-found _ claims e in
      (claim, m, c, freshness_state_mono (doc_of documents claim) registry now later h)

  old_after : before (expired ∷ unknown ∷ []) ≡ true → after (expired ∷ unknown ∷ []) ≡ true
  old_after e =
      let (claim, m, c, le) = witness (expired ∷ unknown ∷ []) e in
      has_of_claim documents registry later capping claims (expired ∷ unknown ∷ []) claim m
        (old_stays _ _ le c)

  mid_after :
      before (stale ∷ []) ≡ true
      → (after (stale ∷ []) ≡ true) ⊎ (after (expired ∷ unknown ∷ []) ≡ true)
  mid_after e =
      let (claim, m, c, le) = witness (stale ∷ []) e in
      elim (mid_stays _ _ le c) [
        | inl k ↦ inl (has_of_claim documents registry later capping claims (stale ∷ []) claim m k)
        | inr k ↦ inr (
            has_of_claim documents registry later capping claims (expired ∷ unknown ∷ []) claim m k)
      ]

  young_after :
      before (ageing ∷ []) ≡ true
      → (after (ageing ∷ []) ≡ true)
        ⊎ (after (stale ∷ []) ≡ true)
        ⊎ (after (expired ∷ unknown ∷ []) ≡ true)
  young_after e =
      let (claim, m, c, le) = witness (ageing ∷ []) e in
      elim (young_stays _ _ le c) [
        | inl k ↦ inl (has_of_claim documents registry later capping claims (ageing ∷ []) claim m k)
        | inr (inl k) ↦
            inr (inl (has_of_claim documents registry later capping claims (stale ∷ []) claim m k))
        | inr (inr k) ↦ inr (
            inr (
              has_of_claim documents registry later capping claims (expired ∷ unknown ∷ []) claim m
                k))
      ]

  capped_grade_anti :
      grade_rank (some (capped_grade documents registry later capping claims).0)
      ≤ grade_rank (some (capped_grade documents registry now capping claims).0)
  capped_grade_anti = ground (
    arith,
    capped_grade-rank documents registry now capping claims,
    capped_grade-rank documents registry later capping claims,
    base_grade_anti documents registry now later h capping claims,
    old_after,
    mid_after,
    young_after,
  )

-- The evidence grade of an event never rises as time passes with the records unchanged: the two
-- clocks, on the item grades and on the event, only ever lower it.
pub compute_evidence_grade_anti :
    (event : Event) (claims : Claims) (documents : Documents) (registry : Registry)
    (now later : Time)
    → now ≤ later
    → grade_rank (compute_evidence_grade event claims documents registry later).0
      ≤ grade_rank (compute_evidence_grade event claims documents registry now).0
unfolding compute_evidence_grade
compute_evidence_grade_anti event claims documents registry now later h = ground (
  arith,
  capped_grade_anti documents registry now later h (has_capping_contradiction event)
      (eligible_claims event claims documents registry),
)
