-- ===== src/Acquisition/Unique.antt =====
-- analysis/provenance.py: which manifests pass output_manifest_problems.
use logistics_situation_plat.Acquisition.Hashes.{IsHexRun, is_sha256-IsHexRun_iff}
use logistics_situation_plat.Acquisition.Refinement.{new_cons, new_parts}
use logistics_situation_plat.Acquisition.Sound.{map-nil}
use logistics_situation_plat.Acquisition.Governing.{is_new}
use logistics_situation_plat.Model.{ManifestEntry}
use logistics_situation_plat.Acquisition.Manifest.{
  malformed_hash, output_manifest_problems, has_sha256, repeated_record, entry_loop, SeenEntries,
}
use logistics_situation_plat.Base.{
  none, some, Option, some_inj, refl, if◌then◌else◌, problem_if, problem_if-nil_iff, Memᴰ-cases,
  Option-cases, subst, sym, ◌↔◌, ◌∙◌, not, ==_iff, ap, false, inr, Bool, ◌++◌, ◌≢◌, ◌==◌, inl,
  Bool-cases, true, append-nil_iff, string_eq, distinct_mem, Memᴰ, ◌∷◌, [], ◌≡◌, distinct,
  is_present, map, contains, String, lookup, List, arith, refl,
}

abbrev keys : SeenEntries → List String
keys seen = map (λ pair. pair.0) seen

abbrev ids : List ManifestEntry → List String
ids entries = map (λ entry. entry.record_id) entries

differs : (a b : String) → (a == b) ≡ false → (b == a) ≡ false
differs a b h = elim (Bool-cases (b == a)) [
  | inl e ↦ absurd (cc (h, (==_iff a b).1 (sym ((==_iff b a).0 e))))
  | inr e ↦ e
]

nil≢cons : {a : String} {xs : List String} → a ∷ xs ≢ []
nil≢cons h = ground arith

keys-append :
    (seen : SeenEntries) (id : String) (entry : ManifestEntry)
    → keys (seen ++ (id, entry) ∷ []) ≡ keys seen ++ id ∷ []
keys-append [] id entry = refl
keys-append ((other, first) ∷ seen) id entry = ap (λ rest. other ∷ rest) (keys-append seen id entry)

seen_iff :
    (id : String) (seen : SeenEntries) → is_present (lookup id seen) ≡ contains (keys seen) id
unfolding lookup contains
seen_iff id [] = refl
seen_iff id ((other, entry) ∷ seen) = elim (Bool-cases (other == id)) [
  | inl e ↦ rw e (rw ((==_iff id other).1 (sym ((==_iff other id).0 e))) refl)
  | inr e ↦ rw e (rw (differs other id e) (seen_iff id seen))
]

must_hold : {b : Bool} → not b ≡ false → b ≡ true
must_hold h = ground arith

distinct-nil : (texts : List String) → distinct texts ≡ [] → texts ≡ []
distinct-nil [] h = refl
distinct-nil (text ∷ texts) h = elim (rw h at (distinct_mem (text ∷ texts) (Memᴰ.head refl))) [ ]

-- One round of the loop: its two groups of problems, and the rounds after it.
round_nil :
    (seen : SeenEntries) (duplicates : List String) (entry : ManifestEntry)
    (rest : List ManifestEntry)
    → entry_loop seen duplicates (entry ∷ rest) ≡ []
    → (problem_if (not (has_sha256 entry.content_sha256)) (malformed_hash entry.record_id) ≡ [])
      × (entry_loop
            (if is_present (lookup entry.record_id seen)
              then seen
              else seen ++ (entry.record_id, entry) ∷ [])
            (if is_present (lookup entry.record_id seen)
              then entry.record_id ∷ duplicates
              else duplicates)
            rest
          ≡ [])
unfolding entry_loop
round_nil seen duplicates entry rest h =
    let (problems, later) = (append-nil_iff _ _).0 h in (((append-nil_iff _ _).0 problems).0, later)

loop-no_repeat :
    (seen : SeenEntries) (duplicates : List String) (entries : List ManifestEntry)
    → entry_loop seen duplicates entries ≡ []
    → duplicates ≡ []
unfolding entry_loop
loop-no_repeat seen duplicates [] h = distinct-nil duplicates (map-nil repeated_record _ h)
loop-no_repeat seen duplicates (entry ∷ rest) h =
    let (malformed, later) = round_nil seen duplicates entry rest h in
    elim (Bool-cases (is_present (lookup entry.record_id seen))) [
      | inl e ↦ absurd (nil≢cons (loop-no_repeat _ _ rest (rw e at later)))
      | inr e ↦ loop-no_repeat _ _ rest (rw e at later)
    ]

loop-new :
    (seen : SeenEntries) (entries : List ManifestEntry)
    → entry_loop seen [] entries ≡ []
    → ((entry : ManifestEntry) → Memᴰ entry entries → has_sha256 entry.content_sha256 ≡ true)
      × (is_new (keys seen) (ids entries) ≡ true)
unfolding entry_loop is_new
loop-new seen [] h = ((λ entry m. elim m [ ]), refl)
loop-new seen (entry ∷ rest) h =
    let (malformed, later) = round_nil seen [] entry rest h in
    elim (Bool-cases (is_present (lookup entry.record_id seen))) [
      | inl e ↦ absurd (nil≢cons (loop-no_repeat _ _ rest (rw e at later)))
      | inr e ↦
          let (valid, new) =
            loop-new (seen ++ (entry.record_id, entry) ∷ []) rest (rw e at later) in
          (
            (λ each m. elim (Memᴰ-cases m) [
              | inl q ↦ rw q (must_hold ((problem_if-nil_iff _ _).0 malformed))
              | inr n ↦ valid each n
            ]),
            new_cons (keys seen) (ids rest) entry.record_id
                (sym (seen_iff entry.record_id seen) ∙ e)
                (subst (λ each. is_new each (ids rest) ≡ true)
                  (keys-append seen entry.record_id entry) new),
          )
    ]

new-loop :
    (seen : SeenEntries) (entries : List ManifestEntry)
    → ((entry : ManifestEntry) → Memᴰ entry entries → has_sha256 entry.content_sha256 ≡ true)
    → is_new (keys seen) (ids entries) ≡ true
    → entry_loop seen [] entries ≡ []
unfolding entry_loop distinct
new-loop seen [] valid new = refl
new-loop seen (entry ∷ rest) valid new =
    let (fresh, new_rest) = new_parts (keys seen) (ids rest) entry.record_id new in
    let unseen = seen_iff entry.record_id seen ∙ fresh in
    let later =
      new-loop (seen ++ (entry.record_id, entry) ∷ []) rest (λ each m. valid each (Memᴰ.tail m))
        (subst (λ each. is_new each (ids rest) ≡ true)
          (sym (keys-append seen entry.record_id entry)) new_rest) in
    elim (Option-cases (lookup entry.record_id seen)) [
      | inl e ↦ rw (e, valid entry (Memᴰ.head refl)) later
      | inr (first, e) ↦ absurd (cc (rw e at unseen))
    ]

has_sha256_iff :
    (hash : Option String)
    → (has_sha256 hash ≡ true) ↔ ((text : String) × (hash ≡ some text) × IsHexRun 64 text)
has_sha256_iff none = ((λ h. ground arith), λ (text, e, run). ground arith)
has_sha256_iff (some text) = (
  (λ h. (text, refl, (is_sha256-IsHexRun_iff text).0 h)),
  λ (other, e, run). (is_sha256-IsHexRun_iff text).1 (subst (IsHexRun 64) (sym (some_inj e)) run),
)

-- A manifest has no problem exactly when no record id comes twice, whether or not its entries agree,
-- and every entry has a content hash of 64 hexadecimal digits, or of those and one line feed.
pub output_manifest_problems-nil_iff :
    (entries : List ManifestEntry)
    → (output_manifest_problems entries ≡ []) ↔ (
        ((entry : ManifestEntry)
          → Memᴰ entry entries
          → (text : String) × (entry.content_sha256 ≡ some text) × IsHexRun 64 text)
        × (is_new [] (map (λ entry. entry.record_id) entries) ≡ true))
unfolding output_manifest_problems
output_manifest_problems-nil_iff entries = (
  (λ h.
      let (valid, new) = loop-new [] entries h in
      ((λ entry m. (has_sha256_iff entry.content_sha256).0 (valid entry m)), new)),
  λ (valid, new).
      new-loop [] entries (λ entry m. (has_sha256_iff entry.content_sha256).1 (valid entry m)) new,
)
