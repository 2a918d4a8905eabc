-- ===== src/Base/Picking.antt =====
-- One element of a list apart from the others.
use mathlib.Core.Path.{◌≡◌, refl, ap, subst}
use mathlib.Core.Logic.{inl, inr}
use mathlib.Core.Bool.{Bool, true, false}
use mathlib.Core.List.{List, [], ◌∷◌, Memᴰ}
use native.Mathlib.Omega.{arith}
use logistics_situation_plat.Base.Tests.{Bool-cases}
use logistics_situation_plat.Base.Lists.{keep, keep-nil, Memᴰ-cases}

-- An element of a list, and the other elements.
pub data Picks {ℓ} {A : Type ℓ} : List A → A → List A → Type ℓ where
  here : {a : A} {rest : List A} → Picks (a ∷ rest) a rest
  there : {x a : A} {rest others : List A} → Picks rest a others → Picks (x ∷ rest) a (x ∷ others)

module _ {A : Type 0} (p : A → Bool) where
  pub keep-all_failed : (xs : List A) → ((a : A) → Memᴰ a xs → p a ≡ false) → keep p xs ≡ []
  unfolding keep
  keep-all_failed [] h = refl
  keep-all_failed (x ∷ xs) h =
      rw (h x (Memᴰ.head refl)) (keep-all_failed xs (λ a m. h a (Memᴰ.tail m)))

  cons_inj : {x a : A} {xs : List A} → x ∷ xs ≡ a ∷ [] → (x ≡ a) × (xs ≡ [])
  cons_inj h = (cc, cc)

  -- A comprehension has one element exactly when one element passes the test and no other does.
  pub keep-one :
      {a : A} (xs : List A)
      → keep p xs ≡ a ∷ []
      → (others : List A) × Picks xs a others
        × (p a ≡ true)
        × ((b : A) → Memᴰ b others → p b ≡ false)
  unfolding keep
  keep-one [] h = ground arith
  keep-one (x ∷ xs) h = elim (Bool-cases (p x)) [
    | inl e ↦
        let (same, empty) = cons_inj (rw e at h) in
        subst
          (λ each.
            (others : List A) × Picks (x ∷ xs) each others
            × (p each ≡ true)
            × ((b : A) → Memᴰ b others → p b ≡ false))
          same (xs, Picks.here, e, λ b m. keep-nil p xs empty m)
    | inr e ↦
        let (others, pick, pa, none_other) = keep-one xs (rw e at h) in
        (
          x ∷ others,
          Picks.there pick,
          pa,
          λ b m. elim (Memᴰ-cases m) [ inl q ↦ cc (ap p q) | inr n ↦ none_other b n ],
        )
  ]

  pub one-keep :
      {a : A} (xs : List A) {others : List A}
      → Picks xs a others
      → p a ≡ true
      → ((b : A) → Memᴰ b others → p b ≡ false)
      → keep p xs ≡ a ∷ []
  unfolding keep
  one-keep [] pick h none_other = elim pick [ ]
  one-keep (x ∷ xs) Picks.here h none_other = rw (h, keep-all_failed xs none_other) refl
  one-keep (x ∷ xs) (Picks.there pick) h none_other =
      rw (none_other x (Memᴰ.head refl)) (one-keep xs pick h (λ b m. none_other b (Memᴰ.tail m)))
