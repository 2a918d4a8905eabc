-- ===== src/Grading/Caps.antt =====
-- The caps on an evidence grade, as bounds on its rank.
use logistics_situation_plat.Evidence.{freshness_state}
use Prim.Native.Nat.{min}
use logistics_situation_plat.Base.{
  inr, inl, any_of_mem, ◌⊎◌, true, contains, Memᴰ, ◌≤◌, if◌then◌else◌, ℕ, ◌≡◌, refl, some, Bool,
  List, [], ◌∷◌, arith, ◌==◌,
}
use logistics_situation_plat.Model.{
  freshness_state_code, Event, Time, Claim, Registry, Grade, grade_eq, FreshnessState,
  freshness_state_eq, ageing, stale, expired, unknown,
}
use logistics_situation_plat.Grading.Qualified.{
  doc_of, has_capping_contradiction, eligible_claims, Claims, Documents,
}
use logistics_situation_plat.Grading.Grade.{
  compute_evidence_grade, Basis, grade_rank, base_grade, has_state, clock_cap, cap_contradiction,
  capped_grade,
}

abbrev pub bounded : Bool → ℕ → ℕ → ℕ
bounded present cap rank = if present then min cap rank else rank

-- The rank that the caps leave of a base rank.
abbrev pub capped_rank : (capping old mid young : Bool) → ℕ → ℕ
capped_rank capping old mid young rank =
    bounded young 3 (bounded mid 2 (bounded old 2 (bounded capping 2 rank)))

clock_cap-rank :
    (present : Bool) (cap : Grade) (note : Basis) (graded : Grade × List Basis)
    → grade_rank (some (clock_cap present cap note graded).0)
      ≡ bounded present (grade_rank (some cap)) (grade_rank (some graded.0))
unfolding clock_cap
clock_cap-rank present cap note graded = ground arith

cap_contradiction-rank :
    (capping : Bool) (graded : Grade × List Basis)
    → grade_rank (some (cap_contradiction capping graded).0)
      ≡ bounded capping 2 (grade_rank (some graded.0))
unfolding cap_contradiction ◌==◌
cap_contradiction-rank capping graded = ground arith

module _ (documents : Documents) (registry : Registry) (now : Time) (capping : Bool)
    (claims : List Claim) where
  abbrev pub has : List FreshnessState → Bool
  has states = has_state documents registry now states claims

  pub capped_grade-rank :
      grade_rank (some (capped_grade documents registry now capping claims).0)
      ≡ capped_rank capping
          (has (expired ∷ unknown ∷ []))
          (has (stale ∷ []))
          (has (ageing ∷ []))
          (grade_rank (some (base_grade documents registry now capping claims).0))
  unfolding capped_grade
  capped_grade-rank =
      rw (clock_cap-rank, clock_cap-rank, clock_cap-rank, cap_contradiction-rank) refl

  pub has_of_claim :
      (states : List FreshnessState) (claim : Claim)
      → Memᴰ claim claims
      → contains states (freshness_state (doc_of documents claim) registry now) ≡ true
      → has states ≡ true
  unfolding has_state
  has_of_claim states claim m h = any_of_mem _ claims m h

code_two :
    (s : FreshnessState)
    → 2 ≤ freshness_state_code s
    → (contains (stale ∷ []) s ≡ true) ⊎ (contains (expired ∷ unknown ∷ []) s ≡ true)
unfolding contains ◌==◌
code_two s h = ground arith

code_one :
    (s : FreshnessState)
    → 1 ≤ freshness_state_code s
    → (contains (ageing ∷ []) s ≡ true) ⊎ (2 ≤ freshness_state_code s)
unfolding contains ◌==◌
code_one s h = ground arith

module _ (event : Event) (claims : Claims) (documents : Documents) (registry : Registry)
    (now : Time) where
  abbrev eligible : List Claim
  eligible = eligible_claims event claims documents registry

  -- An unresolved existence or status-change contradiction caps the grade at REPORTED.
  pub compute_evidence_grade-contradicted :
      has_capping_contradiction event ≡ true
      → grade_rank (compute_evidence_grade event claims documents registry now).0 ≤ 2
  unfolding compute_evidence_grade
  compute_evidence_grade-contradicted h =
      ground
        (arith, capped_grade-rank documents registry now (has_capping_contradiction event) eligible)

  -- One eligible claim whose document is stale, expired or of unknown freshness caps the grade at
  -- REPORTED, however fresh the other claims are.
  pub compute_evidence_grade-stale :
      (claim : Claim)
      → Memᴰ claim eligible
      → 2 ≤ freshness_state_code (freshness_state (doc_of documents claim) registry now)
      → grade_rank (compute_evidence_grade event claims documents registry now).0 ≤ 2
  unfolding compute_evidence_grade
  compute_evidence_grade-stale claim m h =
      elim (code_two (freshness_state (doc_of documents claim) registry now) h) [
        | inl e ↦ ground (
          arith,
          has_of_claim documents registry now (has_capping_contradiction event) eligible
              (stale ∷ []) claim m e,
          capped_grade-rank documents registry now (has_capping_contradiction event) eligible,
        )
        | inr e ↦ ground (
          arith,
          has_of_claim documents registry now (has_capping_contradiction event) eligible
              (expired ∷ unknown ∷ []) claim m e,
          capped_grade-rank documents registry now (has_capping_contradiction event) eligible,
        )
      ]
