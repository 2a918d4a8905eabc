-- ===== src/Attachment/Rules.antt =====
-- analysis/attachment.py: when decide_attachment attaches, seeds or leaves a claim.
use logistics_situation_plat.Attachment.Gate.{
  predicate_family_eq, event_window, windows_overlap, claim_window, modal_predicate_class,
  predicate_class_family, same_family, PredicateFamily, Window, gate_matches, shares_geography,
}
use logistics_situation_plat.Grading.{Claims}
use logistics_situation_plat.Model.{Time, Claim, Event}
use logistics_situation_plat.Base.{
  leb, option_eq, leb→le, or_else, none, and_true, string_eq, inr, ◌∙◌, inl, ==_iff, mem_contains,
  contains_mem, Bool-cases, sym, contains, ◌≤◌, ◌||◌, ◌↔◌, any_of_mem, any_of-found, some, false,
  true, ◌⊎◌, ◌≡◌, meets, Memᴰ, Bool, Option, String, List, arith, refl,
}

-- Neither window begins after the other ends; a window with no end ends where it begins.
pub record Overlap (left right : Window) : Type 0 where
  pub left_start : Time
  pub right_start : Time
  pub from_left : left.0 ≡ some left_start
  pub from_right : right.0 ≡ some right_start
  pub left_first : left_start ≤ or_else right.1 right_start
  pub right_first : right_start ≤ or_else left.1 left_start

-- What S2 to S4 ask of a claim and an event.
pub record PassesGate (claim : Claim) (event : Event) (claims_by_id : Claims) : Type 0 where
  pub place : String
  pub shared :
      (Memᴰ place claim.node_ids × Memᴰ place event.node_ids)
      ⊎ (Memᴰ place claim.chokepoint_ids × Memᴰ place event.chokepoint_ids)
  pub family : PredicateFamily
  pub of_claim : predicate_class_family claim.predicate_class ≡ some family
  pub of_event : predicate_class_family (modal_predicate_class event claims_by_id) ≡ some family
  pub overlap : Overlap (claim_window claim) (event_window event)

meets-found : (xs ys : List String) → meets xs ys ≡ true → (id : String) × Memᴰ id xs × Memᴰ id ys
meets-found xs ys h =
    let (id, m, c) = any_of-found (contains ys) xs h in (id, m, contains_mem ys id c)

found-meets : {id : String} (xs ys : List String) → Memᴰ id xs → Memᴰ id ys → meets xs ys ≡ true
found-meets {id} xs ys m n = any_of_mem (contains ys) xs m (mem_contains ys id n)

same_family_iff :
    (one other : Option PredicateFamily)
    → (same_family one other ≡ true)
      ↔ ((family : PredicateFamily) × (one ≡ some family) × (other ≡ some family))
same_family_iff none other = ((λ h. ground arith), λ (family, e, e'). ground arith)
same_family_iff (some family) other = (
  (λ h. (family, refl, sym ((==_iff (some family) other).0 h))),
  λ (each, e, e'). (==_iff (some family) other).1 (e ∙ sym e'),
)

windows_overlap_iff :
    (left right : Window) → (windows_overlap left right ≡ true) ↔ Overlap left right
unfolding windows_overlap
windows_overlap_iff (none, left_end) right = ((λ h. ground arith), λ o. ground (arith, o.from_left))
windows_overlap_iff (some a, left_end) (none, right_end) =
    ((λ h. ground arith), λ o. ground (arith, o.from_right))
windows_overlap_iff (some a, left_end) (some c, right_end) = (
  (λ h. record {
    left_start = a;
    right_start = c;
    from_left = refl;
    from_right = refl;
    left_first = leb→le a (or_else right_end c) ((and_true _ _).0 h).0;
    right_first = leb→le c (or_else left_end a) ((and_true _ _).0 h).1;
  }),
  λ o.
      (and_true (leb a (or_else right_end c)) (leb c (or_else left_end a))).1
        (ground arith, ground arith),
)

or_right : {a b : Bool} → a ≡ false → a || b ≡ true → b ≡ true
or_right e h = ground arith

or_left_true : {a : Bool} (b : Bool) → a ≡ true → a || b ≡ true
or_left_true b e = ground arith

or_right_true : (a : Bool) {b : Bool} → b ≡ true → a || b ≡ true
or_right_true a e = ground arith

module _ (claim : Claim) (event : Event) where
  shares_geography_iff : (shares_geography claim event ≡ true) ↔ (
      (place : String) × ((Memᴰ place claim.node_ids × Memᴰ place event.node_ids)
        ⊎ (Memᴰ place claim.chokepoint_ids × Memᴰ place event.chokepoint_ids)))
  shares_geography_iff = (
    (λ h. elim (Bool-cases (meets claim.node_ids event.node_ids)) [
      | inl e ↦ let (id, m, n) = meets-found claim.node_ids event.node_ids e in (id, inl (m, n))
      | inr e ↦
          let (id, m, n) = meets-found claim.chokepoint_ids event.chokepoint_ids (or_right e h) in
          (id, inr (m, n))
    ]),
    λ (id, shared). elim shared [
      | inl (m, n) ↦ or_left_true _ (found-meets claim.node_ids event.node_ids m n)
      | inr (m, n) ↦ or_right_true _ (found-meets claim.chokepoint_ids event.chokepoint_ids m n)
    ],
  )

  gate_matches-PassesGate :
      (claims_by_id : Claims)
      → gate_matches claim event claims_by_id ≡ true
      → PassesGate claim event claims_by_id
  unfolding gate_matches
  gate_matches-PassesGate claims_by_id h =
      let (h1, windows) = (and_true _ _).0 h in
      let (geography, families) = (and_true (shares_geography claim event) _).0 h1 in
      let (place, shared) = shares_geography_iff.0 geography in
      let (family, of_claim, of_event) = (same_family_iff _ _).0 families in
      record {
        place = place;
        shared = shared;
        family = family;
        of_claim = of_claim;
        of_event = of_event;
        overlap = (windows_overlap_iff _ _).0 windows;
      }

  PassesGate-gate_matches :
      (claims_by_id : Claims)
      → PassesGate claim event claims_by_id
      → gate_matches claim event claims_by_id ≡ true
  unfolding gate_matches
  PassesGate-gate_matches claims_by_id g = (and_true _ _).1 (
    (and_true _ _).1 (
      shares_geography_iff.1 (g.place, g.shared),
      (same_family_iff _ _).1 (g.family, g.of_claim, g.of_event),
    ),
    (windows_overlap_iff _ _).1 g.overlap,
  )

-- The gate lets a claim and an event through exactly when they share a node or a chokepoint, the
-- claim's predicate class and the commonest one of the event's claims are of one family (which a
-- structural finding has not), and their time windows overlap.
pub gate_matches-PassesGate_iff :
    (claim : Claim) (event : Event) (claims_by_id : Claims)
    → (gate_matches claim event claims_by_id ≡ true) ↔ PassesGate claim event claims_by_id
gate_matches-PassesGate_iff claim event claims_by_id = (
  gate_matches-PassesGate claim event claims_by_id,
  PassesGate-gate_matches claim event claims_by_id,
)
