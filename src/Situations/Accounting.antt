-- ===== src/Situations/Accounting.antt =====
-- Where the events of a situation go, and what its confidence rests on.
use logistics_situation_plat.Situations.Admission.{mem_eligible_entries, eligible_entries_mem}
use logistics_situation_plat.Grading.{independent_group_count}
use logistics_situation_plat.Situations.Confidence.{
  stepped_confidence, status_eq, low_confidence, insufficient_current_evidence, claims_of,
  stepped_by_groups, noted_if, coverage_basis, Level, high_confidence, Reduction, SituationStatus,
  confidence_of,
}
use logistics_situation_plat.Situations.Situation.{
  exclusion_of, entries_with, eligible_entries, composition_of, excluded_events, hit_ids,
  compute_mode_situation, entry_ids, situation_status, rule4_hits, rule4_part,
}
use logistics_situation_plat.Model.{FreshnessState, Event, Impact}
use logistics_situation_plat.Situations.Gate.{gate0, Exclusion, Inputs}
use logistics_situation_plat.Situations.Rules.{
  rule4_event_hits, rule4_round, Entry, Hit, rule1_hit, rule2_hit, rule3_hit, watched_part,
  drifted_part,
}
use logistics_situation_plat.Base.{
  ◌==◌, ◌≢◌, Bool-cases, is_empty, refl, [], ◌∷◌, if◌then◌else◌, true, false, not, keep_mem,
  contains_mem, ap, contains, ◌∙◌, mem_distinct, collect_mem, ok, string_eq, ◌≤◌, ◌⊎◌, leb, String,
  map, ◌&&◌, inr, mem_collect, Bool, distinct_mem, non_empty, collect, inl, ℕ, Bool-cases, Option,
  ◌∷◌, Result-cases, mem_map, map_mem, append-cases, Memᴰ, List, some, ◌≡◌, arith,
}

-- The event of an eligible entry.
abbrev IsFrom : List Entry → Hit → Type 0
IsFrom eligible hit = (entry : Entry) × Memᴰ entry eligible × (hit.0 ≡ entry.event)

rule1_event : (entry : Entry) (hit : Hit) → rule1_hit entry ≡ some hit → hit.0 ≡ entry.event
unfolding rule1_hit
rule1_event entry hit h = ground arith

rule2_event :
    (inputs : Inputs) (entry : Entry) (hit : Hit)
    → rule2_hit inputs entry ≡ some hit
    → hit.0 ≡ entry.event
unfolding rule2_hit
rule2_event inputs entry hit h = ground arith

rule3_event : (entry : Entry) (hit : Hit) → rule3_hit entry ≡ some hit → hit.0 ≡ entry.event
unfolding rule3_hit watched_part drifted_part
rule3_event entry hit h = ground arith

rule4_round-event :
    (event : Event) (impact : Impact) (hit : Hit)
    → rule4_round event impact ≡ some hit
    → hit.0 ≡ event
rule4_round-event event impact hit h = ground arith

mem_unless :
    {A : Type 0} {a : A} (test : Bool) (xs : List A) → Memᴰ a (if test then [] else xs) → Memᴰ a xs
mem_unless true xs m = elim m [ ]
mem_unless false xs m = m

rule4_event : (event : Event) (hit : Hit) → Memᴰ hit (rule4_event_hits event) → hit.0 ≡ event
unfolding rule4_event_hits
rule4_event event hit m =
    let (impact, k, q) = mem_collect (rule4_round event) event.impact_assessments (
      mem_unless (not event.negative_operational_evidence)
        (collect (rule4_round event) event.impact_assessments) m) in
    rule4_round-event event impact hit q

IsFrom-tail :
    (entry : Entry) (rest : List Entry) (hit : Hit) → IsFrom rest hit → IsFrom (entry ∷ rest) hit
IsFrom-tail entry rest hit (other, m, e) = (other, Memᴰ.tail m, e)

rule4-IsFrom :
    (eligible : List Entry) (hit : Hit) → Memᴰ hit (rule4_hits eligible) → IsFrom eligible hit
unfolding rule4_hits
rule4-IsFrom [] hit m = elim m [ ]
rule4-IsFrom (entry ∷ rest) hit m =
    elim (append-cases (rule4_event_hits entry.event) (rule4_hits rest) m) [
      | inl k ↦ (entry, Memᴰ.head refl, rule4_event entry.event hit k)
      | inr k ↦ IsFrom-tail entry rest hit (rule4-IsFrom rest hit k)
    ]

collected-IsFrom :
    (test : Entry → Option Hit) (eligible : List Entry) (hit : Hit)
    → ((entry : Entry) (hit : Hit) → test entry ≡ some hit → hit.0 ≡ entry.event)
    → Memᴰ hit (collect test eligible)
    → IsFrom eligible hit
collected-IsFrom test eligible hit same m =
    let (entry, k, e) = mem_collect test eligible m in (entry, k, same entry hit e)

last-IsFrom :
    (inputs : Inputs) (eligible : List Entry) (hit : Hit)
    → Memᴰ hit (rule4_part inputs eligible).1
    → IsFrom eligible hit
unfolding rule4_part
last-IsFrom inputs eligible hit m =
    elim (Bool-cases (
      non_empty (rule4_hits eligible) && leb 1 (coverage_basis inputs).qualifying_document_count)) [
        | inl e ↦ rule4-IsFrom eligible hit (rw e at m)
        | inr e ↦ elim (rw e at m) [ ]
      ]

-- Whatever contributes to the status is an eligible event.
hits-IsFrom :
    (inputs : Inputs) (eligible : List Entry) (hit : Hit)
    → Memᴰ hit (situation_status inputs eligible).1
    → IsFrom eligible hit
unfolding situation_status
hits-IsFrom inputs eligible hit m = elim (Bool-cases (non_empty (collect rule1_hit eligible))) [
  | inl e ↦ collected-IsFrom rule1_hit eligible hit rule1_event (rw e at m)
  | inr e ↦ elim (Bool-cases (non_empty (collect (rule2_hit inputs) eligible))) [
    | inl e' ↦
        collected-IsFrom (rule2_hit inputs) eligible hit (rule2_event inputs) (rw (e, e') at m)
    | inr e' ↦ elim (Bool-cases (non_empty (collect rule3_hit eligible))) [
      | inl e'' ↦ collected-IsFrom rule3_hit eligible hit rule3_event (rw (e, e', e'') at m)
      | inr e'' ↦ last-IsFrom inputs eligible hit (rw (e, e', e'') at m)
    ]
  ]
]

entry_id_mem :
    (eligible : List Entry) {entry : Entry}
    → Memᴰ entry eligible
    → Memᴰ entry.event.event_id (entry_ids eligible)
unfolding entry_ids
entry_id_mem eligible m =
    distinct_mem (map (λ entry. entry.event.event_id) eligible)
      (map_mem (λ entry. entry.event.event_id) eligible m)

module _ (inputs : Inputs) (events : List Event) where
  -- Every event that contributes to a situation is one of the events given, and passed Gate 0.
  pub compute_mode_situation-contributing :
      (id : String)
      → Memᴰ id (compute_mode_situation inputs events).contributing_event_ids
      → (event : Event) × (freshness : FreshnessState) × Memᴰ event events
        × (id ≡ event.event_id)
        × (gate0 inputs event ≡ ok freshness)
  unfolding compute_mode_situation hit_ids
  compute_mode_situation-contributing id m =
      let eligible = eligible_entries inputs events in
      let hits = (situation_status inputs eligible).1 in
      let (hit, k, e) =
        mem_map (λ hit. hit.0.event_id) hits (mem_distinct (map (λ hit. hit.0.event_id) hits) m) in
      let (entry, from, same) = hits-IsFrom inputs eligible hit k in
      let (listed, graded, passed) = eligible_entries_mem inputs events entry from in
      (entry.event, entry.freshness, listed, e ∙ ap (λ event. event.event_id) same, passed)

  -- No event is dropped: each is excluded with a reason, or contributes, or is on the watch list.
  pub compute_mode_situation-accounted :
      (event : Event)
      → Memᴰ event events
      → let situation = compute_mode_situation inputs events in
        ((exclusion : Exclusion) × Memᴰ (event.event_id, exclusion) situation.excluded_event_ids)
        ⊎ Memᴰ event.event_id situation.contributing_event_ids
        ⊎ Memᴰ event.event_id situation.watch_event_ids
  unfolding compute_mode_situation excluded_events
  compute_mode_situation-accounted event listed = elim (Result-cases (gate0 inputs event)) [
    | inr (exclusion, e) ↦ inl (
      exclusion,
      collect_mem (λ event. exclusion_of event (gate0 inputs event)) events event listed
          (rw e refl),
    )
    | inl (freshness, e) ↦
        let entry = mem_eligible_entries inputs events event freshness listed e in
        let ids = hit_ids (situation_status inputs (eligible_entries inputs events)).1 in
        elim (Bool-cases (contains ids event.event_id)) [
          | inl q ↦ inr (inl (contains_mem ids event.event_id q))
          | inr q ↦ inr (
              inr (
                keep_mem (λ id. not (contains ids id)) (entry_ids (eligible_entries inputs events))
                  (entry_id_mem (eligible_entries inputs events) entry) (rw q refl)))
        ]
  ]

high_after_groups :
    (count : ℕ) (noted : Bool) (reduction : Reduction) (start : Level × List Reduction)
    → (noted_if noted reduction (stepped_by_groups count start)).0 ≡ high_confidence
    → 2 ≤ count
high_after_groups count noted reduction start h = ground arith

low≢high : low_confidence ≢ high_confidence
low≢high h = ground arith

stepped_groups :
    (inputs : Inputs) (status : SituationStatus) (contributing : List Entry)
    → (stepped_confidence inputs status contributing).0 ≡ high_confidence
    → 2 ≤ independent_group_count (claims_of inputs contributing) inputs.documents_by_id
unfolding stepped_confidence
stepped_groups inputs status contributing h = high_after_groups _ _ _ _ h

confidence_groups :
    (inputs : Inputs) (status : SituationStatus) (eligible contributing : List Entry)
    → (confidence_of inputs status eligible contributing).0 ≡ high_confidence
    → 2 ≤ independent_group_count (claims_of inputs contributing) inputs.documents_by_id
unfolding confidence_of
confidence_groups inputs status eligible contributing h =
    elim (Bool-cases (status == insufficient_current_evidence && is_empty eligible)) [
      | inl e ↦ elim (low≢high (rw e at h)) [ ]
      | inr e ↦ stepped_groups inputs status contributing (rw e at h)
    ]

-- A situation has high confidence only if at least two independent groups of origin stand behind
-- the contributing events: a single origin never gives more than medium.
pub compute_mode_situation-high_confidence :
    (inputs : Inputs) (events : List Event)
    → (compute_mode_situation inputs events).confidence ≡ high_confidence
    → 2 ≤ (compute_mode_situation inputs events).evidence_composition.group_count
unfolding compute_mode_situation composition_of
compute_mode_situation-high_confidence inputs events h =
    let eligible = eligible_entries inputs events in
    let (status, hits) = situation_status inputs eligible in
    confidence_groups inputs status eligible (entries_with (hit_ids hits) eligible) h
