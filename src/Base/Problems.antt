-- ===== src/Base/Problems.antt =====
-- Lists of problems, as the gates return them: none means that the gate is passed.
use mathlib.Core.Path.{◌≡◌, refl}
use mathlib.Core.Logic.{◌↔◌, inl, inr}
use mathlib.Core.Bool.{Bool, true, false}
use mathlib.Core.List.{List, [], ◌∷◌, ◌++◌, Memᴰ}
use native.Mathlib.Omega.{arith}
use logistics_situation_plat.Base.Lists.{Memᴰ-cases}

module _ {P : Type 0} where
  -- `if test: problems.append(problem)`
  abbrev pub problem_if : Bool → P → List P
  problem_if true problem = problem ∷ []
  problem_if false problem = []

  pub problem_if-nil_iff :
      (test : Bool) (problem : P) → (problem_if test problem ≡ []) ↔ (test ≡ false)
  problem_if-nil_iff test problem = ground arith

  pub append-nil_iff : (xs ys : List P) → (xs ++ ys ≡ []) ↔ ((xs ≡ []) × (ys ≡ []))
  append-nil_iff [] ys = ((λ h. (refl, h)), λ h. h.1)
  append-nil_iff (x ∷ xs) ys = ground arith

module _ {A P : Type 0} (f : A → List P) where
  -- The problems of each element in turn.
  unfoldable pub gather : List A → List P
  gather [] = []
  gather (x ∷ xs) = f x ++ gather xs

  pub gather-nil_iff : (xs : List A) → (gather xs ≡ []) ↔ ((a : A) → Memᴰ a xs → f a ≡ [])
  unfolding gather
  gather-nil_iff [] = ((λ h a m. elim m [ ]), λ h. refl)
  gather-nil_iff (x ∷ xs) = (
    (λ h a m.
        let (here, there) = (append-nil_iff (f x) (gather xs)).0 h in
        elim (Memᴰ-cases m) [ inl e ↦ rw e here | inr m' ↦ (gather-nil_iff xs).0 there a m' ]),
    λ h.
        (append-nil_iff (f x) (gather xs)).1
          (h x (Memᴰ.head refl), (gather-nil_iff xs).1 (λ a m. h a (Memᴰ.tail m))),
  )
