-- ===== src/Base/Sets.antt =====
-- What the code does with sets and dictionaries: `in`, set intersection, `len(set(…))`, `.get(key)`.
use Prim.Native.String.{String}
use mathlib.Core.Path.{sym, ap, ◌≡◌, refl}
use mathlib.Core.Logic.{inl, inr, ◌≢◌}
use mathlib.Core.Bool.{Bool, true, false, not, ◌||◌}
use mathlib.Core.Option.{Option, none, some}
use mathlib.Core.List.{◌++◌, List, [], ◌∷◌, Memᴰ}
use native.Mathlib.Omega.{arith}
use logistics_situation_plat.Base.Tests.{some_inj, Bool-cases, if◌then◌else◌, Bool-cases}
use logistics_situation_plat.Base.Equality.{Eq, ◌==◌, ==_iff, string_eq}
use logistics_situation_plat.Base.Lists.{any_of, Memᴰ-cases}

module _ {A : Type 0} ⦃e : Eq A⦄ where
  -- `x in xs`
  unfoldable pub contains : List A → A → Bool
  contains [] a = false
  contains (x ∷ xs) a = a == x || contains xs a

  pub contains_mem : (xs : List A) (a : A) → contains xs a ≡ true → Memᴰ a xs
  unfolding contains
  contains_mem [] a h = cc
  contains_mem (x ∷ xs) a h = elim (Bool-cases (a == x)) [
    | inl q ↦ Memᴰ.head ((==_iff a x).0 q)
    | inr q ↦ Memᴰ.tail (contains_mem xs a (rw q at h))
  ]

  pub mem_contains : (xs : List A) (a : A) → Memᴰ a xs → contains xs a ≡ true
  unfolding contains
  mem_contains [] a m = elim m [ ]
  mem_contains (x ∷ xs) a m = elim (Memᴰ-cases m) [
    | inl q ↦ rw ((==_iff a x).1 q) refl
    | inr m' ↦ ground (arith, mem_contains xs a m')
  ]

  pub contains-append :
      (xs ys : List A) (a : A) → contains (xs ++ ys) a ≡ (contains xs a || contains ys a)
  unfolding contains
  contains-append [] ys a = refl
  contains-append (x ∷ xs) ys a = ground (arith, contains-append xs ys a)

  -- `bool(set(xs) & set(ys))`
  abbrev pub meets : List A → List A → Bool
  meets xs ys = any_of (contains ys) xs

  -- `set(xs)`, and `len` of it by `length`
  unfoldable pub distinct : List A → List A
  distinct [] = []
  distinct (x ∷ xs) = let rest = distinct xs in if contains rest x then rest else x ∷ rest

  pub mem_distinct : {a : A} (xs : List A) → Memᴰ a (distinct xs) → Memᴰ a xs
  unfolding distinct
  mem_distinct [] m = elim m [ ]
  mem_distinct (x ∷ xs) m = elim (Bool-cases (contains (distinct xs) x)) [
    | inl q ↦ Memᴰ.tail (mem_distinct xs (rw q at m))
    | inr q ↦ elim (Memᴰ-cases (rw q at m)) [
      | inl h ↦ Memᴰ.head h
      | inr m' ↦ Memᴰ.tail (mem_distinct xs m')
    ]
  ]

  pub distinct_mem : {a : A} (xs : List A) → Memᴰ a xs → Memᴰ a (distinct xs)
  unfolding distinct
  distinct_mem [] m = elim m [ ]
  distinct_mem (x ∷ xs) m = elim (Bool-cases (contains (distinct xs) x)) [
    | inl q ↦ rw q (elim (Memᴰ-cases m) [
      | inl h ↦ rw h (contains_mem (distinct xs) x q)
      | inr m' ↦ distinct_mem xs m'
    ])
    | inr q ↦
        rw q (elim (Memᴰ-cases m) [ inl h ↦ Memᴰ.head h | inr m' ↦ Memᴰ.tail (distinct_mem xs m') ])
  ]

-- `if value:` for an optional text: absent, null and "" are all false.
abbrev pub truthy : Option String → Bool
truthy none = false
truthy (some s) = not (s == "")

pub truthy-some :
    (wanted : Option String)
    → truthy wanted ≡ true
    → (text : String) × (wanted ≡ some text) × (text ≢ "")
truthy-some (some text) h = (text, refl, ground (arith, ==_iff text ""))
truthy-some none h = ground arith

pub some-truthy : (text : String) → text ≢ "" → truthy (some text) ≡ true
some-truthy text h = ground (arith, ==_iff text "")

-- A dictionary in insertion order, and `.get(key)`, where the key itself may be null.
module _ {ℓ} {V : Type ℓ} where
  unfoldable pub lookup : String → List (String × V) → Option V
  lookup k [] = none
  lookup k ((j, v) ∷ m) = if j == k then some v else lookup k m

  abbrev pub lookup? : Option String → List (String × V) → Option V
  lookup? none m = none
  lookup? (some k) m = lookup k m

abbrev pub or_else {ℓ} : {A : Type ℓ} → Option A → A → A
or_else none d = d
or_else (some a) d = a

-- A value that a dictionary gives is one of its entries.
pub lookup-mem :
    {V : Type 0} (k : String) (m : List (String × V)) {v : V}
    → lookup k m ≡ some v
    → (j : String) × Memᴰ (j, v) m
unfolding lookup
lookup-mem k [] h = ground arith
lookup-mem k ((j, w) ∷ m) {v} h = elim (Bool-cases (j == k)) [
  | inl e ↦ (j, Memᴰ.head (ap (λ u. (j, u)) (sym (some_inj (rw e at h)))))
  | inr e ↦ let (i, n) = lookup-mem k m (rw e at h) in (i, Memᴰ.tail n)
]
