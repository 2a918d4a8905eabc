-- ===== src/Claims/Corroborated.antt =====
-- analysis/claims.py: which claims pass corroboration_independence_problems.
use mathlib.Core.List.{append_assoc}
use logistics_situation_plat.Claims.Gates.{
  corroboration_independence_problems, corroboration_loop, ClaimProblem, corroboration_of,
  is_independent_corroborator, origin_url,
}
use logistics_situation_plat.Grading.{Documents}
use logistics_situation_plat.Model.{
  Document, corroboration_status_eq, corroborated_independent, Claim,
}
use logistics_situation_plat.Base.{
  ◌⊎◌, Picks, sym, append-nil_iff, subst, non_empty, problem_if, ◌∷◌, is_empty, ◌++◌, if◌then◌else◌,
  mem-non_empty, Bool, mem_contains, any_of_mem, contains_mem, contains, Bool-cases, any_of-found,
  inr, [], and_true, meets, inl, List, Option-cases, string_eq, option_eq, ==_iff, ◌↔◌, true, some,
  ◌≡◌, ◌&&◌, lookup?, none, ◌==◌, ◌≢◌, not, Memᴰ, String, Option, arith, refl,
}

-- The address that the document of a claim traces to: its originator's, or its own where it names none.
pub record TracesTo (documents_by_id : Documents) (document_id : Option String) (url : String)
    : Type 0 where
  pub document : Document
  pub found : lookup? document_id documents_by_id ≡ some document
  pub origin :
      (document.originator_document_url ≡ some url) × (url ≢ "")
      ⊎ ((text : String) → document.originator_document_url ≡ some text → text ≡ "")
        × (document.canonical_url ≡ some url)

-- Another claim on a shared event, of another independence group, whose document does not trace to
-- an address that the document of this one traces to.
pub record IsIndependent (documents_by_id : Documents) (claim other : Claim) : Type 0 where
  pub event_id : String
  pub on_other : Memᴰ event_id other.event_ids
  pub on_this : Memᴰ event_id claim.event_ids
  pub other_group : other.independence_group ≢ claim.independence_group
  pub other_origin :
      (url : String)
      → TracesTo documents_by_id claim.document_id url
      → ¬ TracesTo documents_by_id other.document_id url

document_origin :
    (document : Document) (url : String)
    → (origin_url (some document) ≡ some url) ↔ (
        (document.originator_document_url ≡ some url) × (url ≢ "")
        ⊎ ((text : String) → document.originator_document_url ≡ some text → text ≡ "")
          × (document.canonical_url ≡ some url))
unfolding origin_url
document_origin document url = elim (Option-cases document.originator_document_url) [
  | inl e ↦ rw e (
    (λ h. inr ((λ text e'. ground arith), h)),
    elim [ inl (e', n) ↦ ground arith | inr (n, h) ↦ h ],
  )
  | inr (text, e) ↦ elim (Bool-cases (text == "")) [
    | inl q ↦
        rw (e, q)
          (
            (λ h. inr ((λ other e'. ground (arith, ==_iff text "")), h)),
            elim [ inl (e', n) ↦ ground (arith, ==_iff text "") | inr (n, h) ↦ h ],
          )
    | inr q ↦
        rw (e, q)
          (
            (λ h. inl (h, ground (arith, ==_iff text ""))),
            elim [ inl (h, n) ↦ h | inr (n, h) ↦ ground (arith, n text refl, ==_iff text "") ],
          )
  ]
]

origin_url-found :
    (wanted : Option Document) (url : String)
    → origin_url wanted ≡ some url
    → (document : Document) × (wanted ≡ some document)
unfolding origin_url
origin_url-found none url h = ground arith
origin_url-found (some document) url h = (document, refl)

origin_url-TracesTo_iff :
    (documents_by_id : Documents) (document_id : Option String) (url : String)
    → (origin_url (lookup? document_id documents_by_id) ≡ some url)
      ↔ TracesTo documents_by_id document_id url
origin_url-TracesTo_iff documents_by_id document_id url = (
  (λ h.
      let (document, e) = origin_url-found (lookup? document_id documents_by_id) url h in
      record {
        document = document;
        found = e;
        origin = (document_origin document url).0 (rw e at h);
      }),
  λ t. rw t.found ((document_origin t.document url).1 t.origin),
)

other_groups : (a b : Option String) → a ≢ b → not (a == b) ≡ true
other_groups a b h = ground (arith, ==_iff a b)

cluster_rule_iff :
    (ids : List String) (found : Bool) (p q : ClaimProblem)
    → ((if is_empty ids then p ∷ [] else problem_if (not found) q) ≡ [])
      ↔ ((non_empty ids ≡ true) × (found ≡ true))
cluster_rule_iff ids found p q = ground arith

origin_rule_iff :
    (this other : Option String)
    → (not (not (this == none) && other == this) ≡ true)
      ↔ ((url : String) → this ≡ some url → other ≢ some url)
origin_rule_iff this other = elim (Option-cases this) [
  | inl e ↦ ((λ h url e'. ground arith), λ h. rw ((==_iff this none).1 e) refl)
  | inr (url, e) ↦ (
    (λ h url e'. ground (arith, ==_iff this none, ==_iff other this)),
    λ h. ground (arith, h url e, ==_iff this none, ==_iff other this),
  )
]

meets_iff : (xs ys : List String) → (meets xs ys ≡ true) ↔ ((id : String) × Memᴰ id xs × Memᴰ id ys)
meets_iff xs ys = (
  (λ h. let (id, m, c) = any_of-found (contains ys) xs h in (id, m, contains_mem ys id c)),
  λ (id, m, n). any_of_mem (contains ys) xs m (mem_contains ys id n),
)

module _ (documents_by_id : Documents) where
  independence_iff :
      (claim other : Claim)
      → (is_independent_corroborator documents_by_id claim other ≡ true)
        ↔ IsIndependent documents_by_id claim other
  unfolding is_independent_corroborator
  independence_iff claim other = (
    (λ h.
        let (h1, origin) = (and_true _ _).0 h in
        let (meeting, group) = (and_true (meets other.event_ids claim.event_ids) _).0 h1 in
        let (id, m, n) = (meets_iff other.event_ids claim.event_ids).0 meeting in
        record {
          event_id = id;
          on_other = m;
          on_this = n;
          other_group = ground (arith, ==_iff other.independence_group claim.independence_group);
          other_origin = λ url this that.
              (origin_rule_iff _ _).0 origin url
                ((origin_url-TracesTo_iff documents_by_id claim.document_id url).1 this)
                ((origin_url-TracesTo_iff documents_by_id other.document_id url).1 that);
        }),
    λ i. (and_true _ _).1 (
      (and_true _ _).1 (
        (meets_iff other.event_ids claim.event_ids).1 (i.event_id, i.on_other, i.on_this),
        other_groups other.independence_group claim.independence_group i.other_group,
      ),
      (origin_rule_iff _ _).1 (λ url this that.
          i.other_origin url
            ((origin_url-TracesTo_iff documents_by_id claim.document_id url).0 this)
            ((origin_url-TracesTo_iff documents_by_id other.document_id url).0 that)),
    ),
  )

  -- What a claim that says it is independently corroborated needs among the others.
  abbrev pub IsCorroborated : List Claim → Claim → Type 0
  IsCorroborated others claim =
      claim.corroboration_status ≡ some corroborated_independent
      → (other : Claim) × Memᴰ other others × IsIndependent documents_by_id claim other

  corroboration_of-nil_iff :
      (others : List Claim) (claim : Claim)
      → (corroboration_of documents_by_id others claim ≡ []) ↔ IsCorroborated others claim
  unfolding corroboration_of
  corroboration_of-nil_iff others claim =
      elim (Bool-cases (claim.corroboration_status == some corroborated_independent)) [
        | inl e ↦ rw e (
          (λ h status.
              let (some_ids, found) = (cluster_rule_iff claim.event_ids _ _ _).0 h in
              let (other, m, i) =
                any_of-found (is_independent_corroborator documents_by_id claim) others found in
              (other, m, (independence_iff claim other).0 i)),
          λ h.
              let (other, m, i) =
                h ((==_iff claim.corroboration_status (some corroborated_independent)).0 e) in
              (cluster_rule_iff claim.event_ids _ _ _).1 (
                mem-non_empty i.on_this,
                any_of_mem (is_independent_corroborator documents_by_id claim) others m
                    ((independence_iff claim other).1 i),
              ),
        )
        | inr e ↦ rw e (
          (λ h status. absurd (
              cc
                (e, (==_iff claim.corroboration_status (some corroborated_independent)).1 status))),
          λ h. refl,
        )
      ]

  -- The claim of the round goes to the end of the earlier ones.
  moved_iff :
      (before : List Claim) (first claim : Claim) (others : List Claim)
      → IsCorroborated ((before ++ first ∷ []) ++ others) claim
        ↔ IsCorroborated (before ++ first ∷ others) claim
  moved_iff before first claim others =
      let same = append_assoc before (first ∷ []) others in
      (
        subst (λ each. IsCorroborated each claim) same,
        subst (λ each. IsCorroborated each claim) (sym same),
      )

  loop_at :
      {claim : Claim} {others : List Claim} (before claims : List Claim)
      → corroboration_loop documents_by_id before claims ≡ []
      → Picks claims claim others
      → IsCorroborated (before ++ others) claim
  unfolding corroboration_loop
  loop_at before [] h pick = elim pick [ ]
  loop_at before (first ∷ rest) h Picks.here =
      (corroboration_of-nil_iff (before ++ rest) first).0 ((append-nil_iff _ _).0 h).0
  loop_at before (first ∷ rest) h (Picks.there {others} pick) =
      (moved_iff before first _ others).0
        (loop_at (before ++ first ∷ []) rest ((append-nil_iff _ _).0 h).1 pick)

  loop_from :
      (before claims : List Claim)
      → ((claim : Claim) (others : List Claim)
          → Picks claims claim others
          → IsCorroborated (before ++ others) claim)
      → corroboration_loop documents_by_id before claims ≡ []
  unfolding corroboration_loop
  loop_from before [] h = refl
  loop_from before (first ∷ rest) h = (append-nil_iff _ _).1 (
    (corroboration_of-nil_iff (before ++ rest) first).1 (h first rest Picks.here),
    loop_from (before ++ first ∷ []) rest (λ claim others pick.
        (moved_iff before first claim others).1 (h claim (first ∷ others) (Picks.there pick))),
  )

-- The check finds no problem exactly when every claim that says it is independently corroborated has an
-- independent corroborator among the other claims: one on a shared event, of another independence
-- group, whose document does not trace to an address that the claim's own document traces to. A
-- document traces to its originator's address, or to its own where it names no originator.
pub corroboration_independence_problems-nil_iff :
    (claims : List Claim) (documents_by_id : Documents)
    → (corroboration_independence_problems claims documents_by_id ≡ []) ↔ (
        (claim : Claim) (others : List Claim)
        → Picks claims claim others
        → IsCorroborated documents_by_id others claim)
unfolding corroboration_independence_problems
corroboration_independence_problems-nil_iff claims documents_by_id = (
  (λ h claim others pick. loop_at documents_by_id [] claims h pick),
  loop_from documents_by_id [] claims,
)
