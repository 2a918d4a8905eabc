-- ===== src/Base/Lists.antt =====
-- What the code does with lists: `any`, `all` and comprehensions with a condition.
use Prim.Native.Nat.{◌≤◌, ◌<◌, ℕ, suc}
use mathlib.Core.Path.{◌≡◌, refl, ap}
use mathlib.Core.Logic.{◌⊎◌, inl, inr}
use mathlib.Core.Bool.{Bool, true, false, ◌&&◌, ◌||◌}
use mathlib.Core.List.{map, ◌++◌, List, [], ◌∷◌, Memᴰ}
use native.Mathlib.Omega.{arith}
use logistics_situation_plat.Base.Tests.{if◌then◌else◌, Bool-cases}

module _ {ℓ} {A : Type ℓ} where
  abbrev pub length : List A → ℕ
  length [] = 0
  length (x ∷ xs) = suc (length xs)

  -- `not xs`
  abbrev pub is_empty : List A → Bool
  is_empty [] = true
  is_empty (x ∷ xs) = false

  -- `bool(xs)`
  abbrev pub non_empty : List A → Bool
  non_empty [] = false
  non_empty (x ∷ xs) = true

  -- `any(p(x) for x in xs)`
  unfoldable pub any_of : (A → Bool) → List A → Bool
  any_of p [] = false
  any_of p (x ∷ xs) = p x || any_of p xs

  -- `all(p(x) for x in xs)`
  unfoldable pub all_of : (A → Bool) → List A → Bool
  all_of p [] = true
  all_of p (x ∷ xs) = p x && all_of p xs

  -- `[x for x in xs if p(x)]`
  unfoldable pub keep : (A → Bool) → List A → List A
  keep p [] = []
  keep p (x ∷ xs) = let rest = keep p xs in if p x then x ∷ rest else rest

  pub any_of-found :
      (p : A → Bool) (xs : List A) → any_of p xs ≡ true → (a : A) × Memᴰ a xs × (p a ≡ true)
  unfolding any_of
  any_of-found p [] h = cc
  any_of-found p (x ∷ xs) h = elim (Bool-cases (p x)) [
    | inl e ↦ (x, Memᴰ.head refl, e)
    | inr e ↦ let (a, m, pa) = any_of-found p xs (rw e at h) in (a, Memᴰ.tail m, pa)
  ]

  pub any_of_mem :
      (p : A → Bool) {a : A} (xs : List A) → Memᴰ a xs → p a ≡ true → any_of p xs ≡ true
  unfolding any_of
  any_of_mem p [] m h = elim m [ ]
  any_of_mem p (x ∷ xs) (Memᴰ.head e) h = rw (← e) (rw h)
  any_of_mem p (x ∷ xs) (Memᴰ.tail m) h = ground (arith, any_of_mem p xs m h)

  pub any_of-absent :
      (p : A → Bool) {a : A} (xs : List A) → any_of p xs ≡ false → Memᴰ a xs → p a ≡ false
  any_of-absent p {a} xs h m = elim (Bool-cases (p a)) [
    | inl e ↦ cc (any_of_mem p xs m e)
    | inr e ↦ e
  ]

  pub all_of_mem :
      (p : A → Bool) {a : A} (xs : List A) → all_of p xs ≡ true → Memᴰ a xs → p a ≡ true
  unfolding all_of
  all_of_mem p [] h m = elim m [ ]
  all_of_mem p (x ∷ xs) h (Memᴰ.head e) = rw e (ground arith)
  all_of_mem p (x ∷ xs) h (Memᴰ.tail m) = all_of_mem p xs (ground arith) m

  pub all_of-intro :
      (p : A → Bool) (xs : List A) → ((a : A) → Memᴰ a xs → p a ≡ true) → all_of p xs ≡ true
  unfolding all_of
  all_of-intro p [] h = refl
  all_of-intro p (x ∷ xs) h =
      rw (h x (Memᴰ.head refl)) (all_of-intro p xs (λ a m. h a (Memᴰ.tail m)))

  pub any_of_mono :
      (p q : A → Bool) (xs : List A)
      → ((a : A) → Memᴰ a xs → p a ≡ true → q a ≡ true)
      → any_of p xs ≡ true
      → any_of q xs ≡ true
  any_of_mono p q xs h e = let (a, m, pa) = any_of-found p xs e in any_of_mem q xs m (h a m pa)

  pub non_empty-keep : (p : A → Bool) (xs : List A) → non_empty (keep p xs) ≡ any_of p xs
  unfolding keep any_of
  non_empty-keep p [] = refl
  non_empty-keep p (x ∷ xs) = ground (arith, non_empty-keep p xs)

  pub Memᴰ-cases : {a x : A} {xs : List A} → Memᴰ a (x ∷ xs) → (a ≡ x) ⊎ Memᴰ a xs
  Memᴰ-cases (Memᴰ.head e) = inl e
  Memᴰ-cases (Memᴰ.tail m) = inr m

  -- A comprehension holds exactly the elements that pass its test.
  pub mem_keep :
      (p : A → Bool) {a : A} (xs : List A) → Memᴰ a (keep p xs) → Memᴰ a xs × (p a ≡ true)
  unfolding keep
  mem_keep p [] m = elim m [ ]
  mem_keep p {a} (x ∷ xs) m = elim (Bool-cases (p x)) [
    | inl e ↦ elim (Memᴰ-cases (rw e at m)) [
      | inl q ↦ (Memᴰ.head q, rw q e)
      | inr m' ↦ let (k, pa) = mem_keep p xs m' in (Memᴰ.tail k, pa)
    ]
    | inr e ↦ let (k, pa) = mem_keep p xs (rw e at m) in (Memᴰ.tail k, pa)
  ]

  pub keep_mem : (p : A → Bool) {a : A} (xs : List A) → Memᴰ a xs → p a ≡ true → Memᴰ a (keep p xs)
  unfolding keep
  keep_mem p [] m h = elim m [ ]
  keep_mem p {a} (x ∷ xs) m h = elim (Bool-cases (p x)) [
    | inl e ↦
        rw e (elim (Memᴰ-cases m) [ inl q ↦ Memᴰ.head q | inr m' ↦ Memᴰ.tail (keep_mem p xs m' h) ])
    | inr e ↦ rw e (elim (Memᴰ-cases m) [ inl q ↦ cc (ap p q) | inr m' ↦ keep_mem p xs m' h ])
  ]

  -- The first element that passes a test.
  pub keep-nil : (p : A → Bool) {a : A} (xs : List A) → keep p xs ≡ [] → Memᴰ a xs → p a ≡ false
  keep-nil p {a} xs h m = elim (Bool-cases (p a)) [
    | inl e ↦ elim (rw h at (keep_mem p xs m e)) [ ]
    | inr e ↦ e
  ]

  pub List-cases : (xs : List A) → (xs ≡ []) ⊎ ((x : A) × (rest : List A) × (xs ≡ x ∷ rest))
  List-cases [] = inl refl
  List-cases (x ∷ xs) = inr (x, xs, refl)

  pub non_empty-mem : (xs : List A) → non_empty xs ≡ true → (a : A) × Memᴰ a xs
  non_empty-mem [] h = cc
  non_empty-mem (x ∷ xs) h = (x, Memᴰ.head refl)

  pub mem-non_empty : {a : A} {xs : List A} → Memᴰ a xs → non_empty xs ≡ true
  mem-non_empty (Memᴰ.head e) = refl
  mem-non_empty (Memᴰ.tail m) = refl

module _ {A B : Type 0} (f : A → B) where
  pub mem_map : {b : B} (xs : List A) → Memᴰ b (map f xs) → (a : A) × Memᴰ a xs × (b ≡ f a)
  mem_map [] m = elim m [ ]
  mem_map (x ∷ xs) (Memᴰ.head e) = (x, Memᴰ.head refl, e)
  mem_map (x ∷ xs) (Memᴰ.tail m) = let (a, k, e) = mem_map xs m in (a, Memᴰ.tail k, e)

  pub map_mem : {a : A} (xs : List A) → Memᴰ a xs → Memᴰ (f a) (map f xs)
  map_mem [] m = elim m [ ]
  map_mem (x ∷ xs) (Memᴰ.head e) = Memᴰ.head (ap f e)
  map_mem (x ∷ xs) (Memᴰ.tail m) = Memᴰ.tail (map_mem xs m)

pub append-cases : {A : Type 0} {a : A} (xs ys : List A) → Memᴰ a (xs ++ ys) → Memᴰ a xs ⊎ Memᴰ a ys
append-cases [] ys m = inr m
append-cases (x ∷ xs) ys (Memᴰ.head e) = inl (Memᴰ.head e)
append-cases (x ∷ xs) ys (Memᴰ.tail m) = elim (append-cases xs ys m) [
  | inl k ↦ inl (Memᴰ.tail k)
  | inr k ↦ inr k
]

module _ {A : Type 0} (p q : A → Bool) where
  -- A test that passes no more than another keeps no more elements.
  pub length-keep_mono :
      (xs : List A) → ((a : A) → q a ≡ true → p a ≡ true) → length (keep q xs) ≤ length (keep p xs)
  unfolding keep
  length-keep_mono [] h = omega arith
  length-keep_mono (x ∷ xs) h = ground (arith, h x, length-keep_mono xs h)

  -- It keeps fewer if it drops one of them.
  pub length-keep_strict :
      {a : A} (xs : List A)
      → ((a : A) → q a ≡ true → p a ≡ true)
      → Memᴰ a xs
      → p a ≡ true
      → q a ≡ false
      → length (keep q xs) < length (keep p xs)
  unfolding keep
  length-keep_strict [] h m kept dropped = elim m [ ]
  length-keep_strict (x ∷ xs) h (Memᴰ.head e) kept dropped =
      let kept' : p x ≡ true = rw (← e) kept in
      let dropped' : q x ≡ false = rw (← e) dropped in ground (arith, length-keep_mono xs h)
  length-keep_strict (x ∷ xs) h (Memᴰ.tail m) kept dropped =
      ground (arith, h x, length-keep_strict xs h m kept dropped)

pub length-keep-le : {A : Type 0} (p : A → Bool) (xs : List A) → length (keep p xs) ≤ length xs
unfolding keep
length-keep-le p [] = omega arith
length-keep-le p (x ∷ xs) = ground (arith, length-keep-le p xs)
