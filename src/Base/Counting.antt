-- ===== src/Base/Counting.antt =====
-- Counting with a dictionary, `counts[k] = counts.get(k, 0) + 1`, and the most common key by
-- `max(counts.items(), key=…)`: the first of the pairs with the largest count.
use Prim.Native.Nat.{ℕ, ◌+◌}
use mathlib.Core.Path.{◌≡◌, refl, sym, ap, ◌∙◌}
use mathlib.Core.Logic.{◌↔◌, inl, inr}
use mathlib.Core.Option.{Option, none, some}
use mathlib.Core.List.{List, [], ◌∷◌, Memᴰ}
use logistics_situation_plat.Base.Tests.{if◌then◌else◌, ltb, Option-cases}
use logistics_situation_plat.Base.Equality.{Eq, ◌==◌, string_eq}
use logistics_situation_plat.Base.Lists.{Memᴰ-cases}

-- `[f(x) for x in xs if f(x) is kept]`
unfoldable pub collect {ℓ κ} : {A : Type ℓ} {B : Type κ} → (A → Option B) → List A → List B
collect f [] = []
collect f (x ∷ xs) = elim (f x) [ none ↦ collect f xs | some y ↦ y ∷ collect f xs ]

module _ {K : Type 0} ⦃e : Eq K⦄ where
  unfoldable pub bump : K → List (K × ℕ) → List (K × ℕ)
  bump k [] = (k, 1) ∷ []
  bump k ((j, n) ∷ m) = if j == k then (j, n + 1) ∷ m else (j, n) ∷ bump k m

  unfoldable pub tally : List (K × ℕ) → List K → List (K × ℕ)
  tally counts [] = counts
  tally counts (k ∷ ks) = tally (bump k counts) ks

  unfoldable pub first_max : K × ℕ → List (K × ℕ) → K × ℕ
  first_max best [] = best
  first_max best (pair ∷ rest) = first_max (if ltb best.1 pair.1 then pair else best) rest

  unfoldable pub most_common : List K → Option K
  unfolding tally bump first_max
  most_common ks = elim (tally [] ks) [ [] ↦ none | pair ∷ rest ↦ some (first_max pair rest).0 ]

nil_of_no_mem {ℓ} : {A : Type ℓ} (xs : List A) → ((a : A) → ¬ Memᴰ a xs) → xs ≡ []
nil_of_no_mem [] h = refl
nil_of_no_mem (x ∷ xs) h = absurd (h x (Memᴰ.head refl))

module _ {ℓ κ} {A : Type ℓ} {B : Type κ} (f : A → Option B) where
  -- `collect` holds exactly the values that `f` keeps.
  pub mem_collect :
      {b : B} (xs : List A) → Memᴰ b (collect f xs) → (a : A) × Memᴰ a xs × (f a ≡ some b)
  unfolding collect
  mem_collect [] m = elim m [ ]
  mem_collect {b} (x ∷ xs) m = elim (Option-cases (f x)) [
    | inl e ↦ let (a, k, q) = mem_collect xs (rw (e, collect) at m) in (a, Memᴰ.tail k, q)
    | inr (y, e) ↦ elim (Memᴰ-cases (rw (e, collect) at m)) [
      | inl h ↦ (x, Memᴰ.head refl, e ∙ ap some (sym h))
      | inr r ↦ let (a, k, q) = mem_collect xs r in (a, Memᴰ.tail k, q)
    ]
  ]

  pub collect_mem : {b : B} (xs : List A) (a : A) → Memᴰ a xs → f a ≡ some b → Memᴰ b (collect f xs)
  unfolding collect
  collect_mem [] a m q = elim m [ ]
  collect_mem {b} (x ∷ xs) a m q = elim (Memᴰ-cases m) [
    | inl h ↦ rw (sym (ap f h) ∙ q, collect) (Memᴰ.head refl)
    | inr r ↦ elim (Option-cases (f x)) [
      | inl e ↦ rw (e, collect) (collect_mem xs a r q)
      | inr (y, e) ↦ rw (e, collect) (Memᴰ.tail (collect_mem xs a r q))
    ]
  ]

  pub collect-nil_iff : (xs : List A) → (collect f xs ≡ []) ↔ ((a : A) → Memᴰ a xs → f a ≡ none)
  collect-nil_iff xs = (
    (λ h a m. elim (Option-cases (f a)) [
      | inl e ↦ e
      | inr (y, e) ↦ elim (rw h at (collect_mem xs a m e)) [ ]
    ]),
    λ h. nil_of_no_mem (collect f xs) (λ b m. let (a, k, q) = mem_collect xs m in cc (h a k, q)),
  )
