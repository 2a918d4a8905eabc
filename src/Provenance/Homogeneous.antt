-- ===== src/Provenance/Homogeneous.antt =====
-- analysis/provenance.py: which series pass series_homogeneity_problems.
use logistics_situation_plat.Model.{publication_use_eq, Registry}
use logistics_situation_plat.Provenance.Series.{
  lane_field, geography_field, unit_field, publication_use_field, source_field,
  record_publication_use, series_homogeneity_problems, SeriesField, disagreement,
}
use logistics_situation_plat.Provenance.Records.{record_source_id, Record}
use logistics_situation_plat.Base.{
  string_eq, append-nil_iff, leb→le, leb, ap, some_inj, mem_distinct, mem_collect, subst,
  collect_mem, mem_contains, distinct_mem, List-cases, sym, problem_if-nil_iff, inr, ◌∙◌, collect,
  contains, inl, ◌↔◌, Bool-cases, Memᴰ-cases, [], some, ◌∷◌, false, Option, Memᴰ, length, ◌≡◌,
  distinct, List, ◌≤◌, ltb, Eq, ℕ, arith, refl,
}

not_ltb : (n : ℕ) → ltb 1 n ≡ false → n ≤ 1
not_ltb n h = ground arith

le_ltb : (n : ℕ) → n ≤ 1 → ltb 1 n ≡ false
le_ltb n h = ground arith

module _ {A : Type 0} where
  singles : (xs : List A) → length xs ≤ 1 → (a b : A) → Memᴰ a xs → Memᴰ b xs → a ≡ b
  singles [] h a b m n = elim m [ ]
  singles (x ∷ []) h a b m n = elim (Memᴰ-cases m) [
    | inl p ↦ elim (Memᴰ-cases n) [ inl q ↦ p ∙ sym q | inr k ↦ elim k [ ] ]
    | inr k ↦ elim k [ ]
  ]
  singles (x ∷ (y ∷ xs)) h a b m n = absurd (omega arith)

  -- Any two records that have a value have the same one.
  abbrev pub Agree : (Record → Option A) → List Record → Type 0
  Agree value records =
      (one other : Record) (a b : A)
      → Memᴰ one records
      → Memᴰ other records
      → value one ≡ some a
      → value other ≡ some b
      → a ≡ b

module _ {A : Type 0} ⦃e : Eq A⦄ where
  agreeing_distinct :
      (xs : List A) → ((a b : A) → Memᴰ a xs → Memᴰ b xs → a ≡ b) → length (distinct xs) ≤ 1
  unfolding distinct
  agreeing_distinct [] same = omega arith
  agreeing_distinct (x ∷ xs) same =
      let rest = agreeing_distinct xs (λ a b m n. same a b (Memᴰ.tail m) (Memᴰ.tail n)) in
      elim (Bool-cases (contains (distinct xs) x)) [
        | inl q ↦ rw q rest
        | inr q ↦ elim (List-cases (distinct xs)) [
          | inl empty ↦ rw (q, empty) (omega arith)
          | inr (y, ys, k) ↦
              let m : Memᴰ y (distinct xs) = rw k (Memᴰ.head refl) in
              absurd (
                cc (
                  q,
                  mem_contains (distinct xs) x (
                      subst (λ each. Memᴰ each (distinct xs))
                        (same y x (Memᴰ.tail (mem_distinct xs m)) (Memᴰ.head refl)) m),
                ))
        ]
      ]

  disagreement-nil_iff :
      (field : SeriesField) (value : Record → Option A) (records : List Record)
      → (disagreement field value records ≡ []) ↔ Agree value records
  unfolding disagreement
  disagreement-nil_iff field value records = (
    (λ h one other a b m n p q.
        singles (distinct (collect value records)) (not_ltb _ ((problem_if-nil_iff _ _).0 h)) a b
          (distinct_mem _ (collect_mem value records one m p))
          (distinct_mem _ (collect_mem value records other n q))),
    λ same. (problem_if-nil_iff _ _).1 (
        le_ltb _ (
          agreeing_distinct (collect value records) (λ a b m n.
            let (one, k, p) = mem_collect value records m in
            let (other, l, q) = mem_collect value records n in same one other a b k l p q))),
  )

-- The records agree on the five fields that a derived series depends on.
pub record IsHomogeneous (registry : Option Registry) (records : List Record) : Type 0 where
  pub sources : Agree record_source_id records
  pub uses : Agree (record_publication_use registry) records
  pub units : Agree (λ item. item.unit) records
  pub geographies : Agree (λ item. item.country_id) records
  pub lanes : Agree (λ item. item.lane_id) records

few-Agree :
    {A : Type 0} (value : Record → Option A) (records : List Record)
    → length records ≤ 1
    → Agree value records
few-Agree value records few one other a b m n p q =
    some_inj (sym p ∙ ap value (singles records few one other m n) ∙ q)

-- The check finds no problem exactly when any two records that record a source, a publication use, a
-- unit, a country or a lane record the same one.
pub series_homogeneity_problems-nil_iff :
    (registry : Option Registry) (records : List Record)
    → (series_homogeneity_problems registry records ≡ []) ↔ IsHomogeneous registry records
unfolding series_homogeneity_problems
series_homogeneity_problems-nil_iff registry records = elim (Bool-cases (leb (length records) 1)) [
  | inl e ↦
      let few = leb→le (length records) 1 e in
      (
        (λ h. record {
          sources = few-Agree record_source_id records few;
          uses = few-Agree (record_publication_use registry) records few;
          units = few-Agree (λ item. item.unit) records few;
          geographies = few-Agree (λ item. item.country_id) records few;
          lanes = few-Agree (λ item. item.lane_id) records few;
        }),
        λ h. rw e refl,
      )
  | inr e ↦ rw e (
    (λ h.
        let (h1, lanes) = (append-nil_iff _ _).0 h in
        let (h2, geographies) = (append-nil_iff _ _).0 h1 in
        let (h3, units) = (append-nil_iff _ _).0 h2 in
        let (sources, uses) = (append-nil_iff _ _).0 h3 in
        record {
          sources = (disagreement-nil_iff source_field record_source_id records).0 sources;
          uses =
              (disagreement-nil_iff publication_use_field (record_publication_use registry)
                  records).0
                uses;
          units = (disagreement-nil_iff unit_field (λ item. item.unit) records).0 units;
          geographies =
              (disagreement-nil_iff geography_field (λ item. item.country_id) records).0
                geographies;
          lanes = (disagreement-nil_iff lane_field (λ item. item.lane_id) records).0 lanes;
        }),
    λ h. (append-nil_iff _ _).1 (
      (append-nil_iff _ _).1 (
        (append-nil_iff _ _).1 (
          (append-nil_iff _ _).1 (
            (disagreement-nil_iff source_field record_source_id records).1 h.sources,
            (disagreement-nil_iff publication_use_field (record_publication_use registry) records).1
                h.uses,
          ),
          (disagreement-nil_iff unit_field (λ item. item.unit) records).1 h.units,
        ),
        (disagreement-nil_iff geography_field (λ item. item.country_id) records).1 h.geographies,
      ),
      (disagreement-nil_iff lane_field (λ item. item.lane_id) records).1 h.lanes,
    ),
  )
]
