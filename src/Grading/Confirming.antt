-- ===== src/Grading/Confirming.antt =====
-- What makes a claim confirm its event (analysis/grading.py: the filter of `confirming`).
use logistics_situation_plat.Base.{
  option_eq, none, refl, mem_contains, ap, contains_mem, inr, inl, Memᴰ-cases, ◌↔◌, [], ◌∷◌, some,
  ==_iff, arith, Memᴰ, true, Option, ◌≡◌,
}
use logistics_situation_plat.Grading.Grade.{type_in, confirms}
use logistics_situation_plat.Evidence.{authority_covers, freshness_state, item_strength}
use logistics_situation_plat.Model.{
  claim_type_eq, freshness_state_eq, strength_eq, official_notice, fresh, verified_fact, ClaimType,
  strength_a, Claim, Time, Registry,
}
use logistics_situation_plat.Grading.Qualified.{doc_of, Documents}

-- What the CONFIRMED rule asks of one claim: grade A, a confirming type, authority over the
-- assertion, and a fresh document.
pub record IsConfirming (documents : Documents) (registry : Registry) (now : Time) (claim : Claim)
    : Type 0 where
  pub graded_a : item_strength claim (doc_of documents claim) registry now ≡ strength_a
  pub strong_type : Memᴰ claim.claim_type (some verified_fact ∷ some official_notice ∷ [])
  pub covered : authority_covers claim (doc_of documents claim) ≡ true
  pub still_fresh : freshness_state (doc_of documents claim) registry now ≡ fresh

type_in_cases :
    (kind : Option ClaimType)
    → (type_in kind (verified_fact ∷ official_notice ∷ []) ≡ true)
      ↔ Memᴰ kind (some verified_fact ∷ some official_notice ∷ [])
type_in_cases none = (
  (λ e. cc),
  λ m. elim (Memᴰ-cases m) [
    | inl e ↦ cc
    | inr r ↦ elim (Memᴰ-cases r) [ inl e ↦ cc | inr q ↦ elim q [ ] ]
  ],
)
type_in_cases (some kind) = (
  (λ e. elim (Memᴰ-cases (contains_mem (verified_fact ∷ official_notice ∷ []) kind e)) [
    | inl q ↦ Memᴰ.head (ap some q)
    | inr r ↦ elim (Memᴰ-cases r) [ inl q ↦ Memᴰ.tail (Memᴰ.head (ap some q)) | inr q ↦ elim q [ ] ]
  ]),
  λ m. elim (Memᴰ-cases m) [
    | inl e ↦ mem_contains (verified_fact ∷ official_notice ∷ []) kind (Memᴰ.head (cc e))
    | inr r ↦ elim (Memᴰ-cases r) [
      | inl e ↦
          mem_contains (verified_fact ∷ official_notice ∷ []) kind (Memᴰ.tail (Memᴰ.head (cc e)))
      | inr q ↦ elim q [ ]
    ]
  ],
)

module _ (documents : Documents) (registry : Registry) (now : Time) (claim : Claim) where
  pub confirms-IsConfirming :
      confirms documents registry now claim ≡ true → IsConfirming documents registry now claim
  unfolding confirms
  confirms-IsConfirming h = record {
    graded_a =
        ground
          (arith, ==_iff (item_strength claim (doc_of documents claim) registry now) strength_a);
    strong_type = (type_in_cases claim.claim_type).0 (ground arith);
    covered = ground arith;
    still_fresh =
        ground (arith, ==_iff (freshness_state (doc_of documents claim) registry now) fresh);
  }

  pub IsConfirming-confirms :
      IsConfirming documents registry now claim → confirms documents registry now claim ≡ true
  unfolding confirms
  IsConfirming-confirms c =
      rw
        (
          (==_iff (item_strength claim (doc_of documents claim) registry now) strength_a).1
              c.graded_a,
          (type_in_cases claim.claim_type).1 c.strong_type,
          c.covered,
          (==_iff (freshness_state (doc_of documents claim) registry now) fresh).1 c.still_fresh,
        )
        refl
