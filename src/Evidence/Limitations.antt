-- ===== src/Evidence/Limitations.antt =====
-- analysis/claim_evidence_adapter.py: which limitations _merged_known_limitations keeps.
use logistics_situation_plat.Evidence.Projection.{merge_items, merged_known_limitations}
use logistics_situation_plat.Model.{Document, Claim}
use logistics_situation_plat.Base.{
  Memᴰ, Memᴰ-cases, List, String, ◌++◌, ◌⊎◌, ◌↔◌, ◌≡◌, Bool-cases, contains, contains_mem, [], ◌∷◌,
  inl, inr, string_eq,
}

snoc_cases : {a x : String} (xs : List String) → Memᴰ a (xs ++ x ∷ []) → Memᴰ a xs ⊎ (a ≡ x)
snoc_cases [] m = elim (Memᴰ-cases m) [ inl e ↦ inr e | inr r ↦ elim r [ ] ]
snoc_cases (y ∷ ys) m = elim (Memᴰ-cases m) [
  | inl e ↦ inl (Memᴰ.head e)
  | inr r ↦ elim (snoc_cases ys r) [ inl k ↦ inl (Memᴰ.tail k) | inr e ↦ inr e ]
]

append_mem : {a : String} (xs ys : List String) → Memᴰ a xs → Memᴰ a (xs ++ ys)
append_mem [] ys m = elim m [ ]
append_mem (x ∷ xs) ys m = elim (Memᴰ-cases m) [
  | inl e ↦ Memᴰ.head e
  | inr r ↦ Memᴰ.tail (append_mem xs ys r)
]

mem_snoc : {a x : String} (xs : List String) → a ≡ x → Memᴰ a (xs ++ x ∷ [])
mem_snoc [] e = Memᴰ.head e
mem_snoc (y ∷ ys) e = Memᴰ.tail (mem_snoc ys e)

merge_items_sound :
    {a : String} (items merged : List String)
    → Memᴰ a (merge_items merged items)
    → Memᴰ a merged ⊎ Memᴰ a items
unfolding merge_items
merge_items_sound [] merged m = inl m
merge_items_sound (item ∷ rest) merged m = elim (Bool-cases (contains merged item)) [
  | inl q ↦ elim (merge_items_sound rest merged (rw q at m)) [
    | inl k ↦ inl k
    | inr r ↦ inr (Memᴰ.tail r)
  ]
  | inr q ↦ elim (merge_items_sound rest (merged ++ item ∷ []) (rw q at m)) [
    | inl k ↦ elim (snoc_cases merged k) [ inl o ↦ inl o | inr e ↦ inr (Memᴰ.head e) ]
    | inr r ↦ inr (Memᴰ.tail r)
  ]
]

merge_items_keeps :
    {a : String} (items merged : List String) → Memᴰ a merged → Memᴰ a (merge_items merged items)
unfolding merge_items
merge_items_keeps [] merged m = m
merge_items_keeps (item ∷ rest) merged m = elim (Bool-cases (contains merged item)) [
  | inl q ↦ rw q (merge_items_keeps rest merged m)
  | inr q ↦ rw q (merge_items_keeps rest (merged ++ item ∷ []) (append_mem merged (item ∷ []) m))
]

merge_items_adds :
    {a : String} (items merged : List String) → Memᴰ a items → Memᴰ a (merge_items merged items)
unfolding merge_items
merge_items_adds [] merged m = elim m [ ]
merge_items_adds {a} (item ∷ rest) merged m = elim (Bool-cases (contains merged item)) [
  | inl q ↦ rw q (elim (Memᴰ-cases m) [
    | inl e ↦ merge_items_keeps rest merged (rw e (contains_mem merged item q))
    | inr r ↦ merge_items_adds rest merged r
  ])
  | inr q ↦ rw q (elim (Memᴰ-cases m) [
    | inl e ↦ merge_items_keeps rest (merged ++ item ∷ []) (mem_snoc merged e)
    | inr r ↦ merge_items_adds rest (merged ++ item ∷ []) r
  ])
]

-- The merged limitations are exactly the document's and the claim's: none is lost, none is invented.
pub merged_known_limitations-mem :
    (document : Document) (claim : Claim) (item : String)
    → Memᴰ item (merged_known_limitations document claim)
      ↔ (Memᴰ item document.known_limitations ⊎ Memᴰ item claim.known_limitations)
unfolding merged_known_limitations
merged_known_limitations-mem document claim item = (
  merge_items_sound claim.known_limitations document.known_limitations,
  elim [
    | inl m ↦ merge_items_keeps claim.known_limitations document.known_limitations m
    | inr m ↦ merge_items_adds claim.known_limitations document.known_limitations m
  ],
)
