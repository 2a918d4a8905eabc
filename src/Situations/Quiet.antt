-- ===== src/Situations/Quiet.antt =====
-- What stands behind a situation that reports no material impact.
use logistics_situation_plat.Evidence.{freshness_state}
use logistics_situation_plat.Model.{
  Document, Source, Registry, fresh, ageing, current_evidence, current_publication, dataset_eq,
  evidence_layer_eq, impact_status_eq, Event, Impact, FreshnessState, no_material,
}
use logistics_situation_plat.Situations.Gate.{is_eligible_freshness, Inputs, gate0}
use logistics_situation_plat.Situations.Rules.{Entry, Hit, rule4_event_hits, rule4_round}
use logistics_situation_plat.Situations.Confidence.{
  qualifies_as_coverage, candidate_source_ids, coverage_basis, no_material_impact_detected,
}
use logistics_situation_plat.Situations.Situation.{
  compute_mode_situation, situation_status, eligible_entries, rule4_hits, rule4_part,
}
use logistics_situation_plat.Situations.Admission.{eligible_entries_mem}
use logistics_situation_plat.Base.{
  ◌⊎◌, none, string_eq, contains, contains_mem, mem_contains, mem_map, mem_keep, ==_iff, ◌==◌,
  or_iff, length, ap, subst, String, Option, option_eq, ==_iff, truthy, non_empty, non_empty-mem,
  mem_collect, append-cases, leb, leb→le, and_true, ◌≤◌, Memᴰ, Bool, true, false, not, ◌&&◌, List,
  [], ◌∷◌, some, ◌≡◌, refl, inl, inr, arith, ok, if◌then◌else◌,
}

-- An impact that was assessed to have no material effect, on a stated basis.
abbrev pub IsCleared : Event → Impact → Type 0
IsCleared event impact =
    (event.negative_operational_evidence ≡ true)
    × Memᴰ impact event.impact_assessments
    × (impact.status ≡ some no_material)
    × (truthy impact.no_material_basis ≡ true)

-- A current, fresh or ageing document of a source that may stand behind public claims, on the
-- geography of the situation or on its country.
pub record IsCovering (inputs : Inputs) (document : Document) : Type 0 where
  pub document_id : String
  pub stored : Memᴰ (document_id, document) inputs.documents_by_id
  pub source : Source
  pub registered : Memᴰ source inputs.registry
  pub of_source : document.source_id ≡ some source.id
  pub public : source.enabled_for_public_claims ≡ true
  pub layer : source.governance_layer ≡ some current_evidence
  pub current : document.dataset ≡ some current_publication
  pub clock :
      (freshness_state document inputs.registry inputs.as_of ≡ fresh)
      ⊎ (freshness_state document inputs.registry inputs.as_of ≡ ageing)
  pub located :
      Memᴰ inputs.geography_id document.geographies ⊎ Memᴰ inputs.country_code document.geographies

candidate_source_ids-found :
    (registry : Registry) (wanted : Option String)
    → (elim wanted [
      | none ↦ false
      | some source_id ↦ contains (candidate_source_ids registry) source_id
    ])
      ≡ true
    → (source : Source) × Memᴰ source registry
      × (wanted ≡ some source.id)
      × (source.enabled_for_public_claims ≡ true)
      × (source.governance_layer ≡ some current_evidence)
unfolding candidate_source_ids
candidate_source_ids-found registry none h = ground arith
candidate_source_ids-found registry (some source_id) h =
    let m = contains_mem (candidate_source_ids registry) source_id h in
    let (source, k, e) = mem_map (λ source. source.id) _ m in
    let (registered, tested) = mem_keep _ registry k in
    let (public, layer) =
      (and_true source.enabled_for_public_claims
          (source.governance_layer == some current_evidence)).0
        tested in
    (
      source,
      registered,
      ap some e,
      public,
      (==_iff source.governance_layer (some current_evidence)).0 layer,
    )

qualifies_as_coverage-IsCovering :
    (inputs : Inputs) (document_id : String) (document : Document)
    → Memᴰ (document_id, document) inputs.documents_by_id
    → qualifies_as_coverage inputs document ≡ true
    → IsCovering inputs document
unfolding qualifies_as_coverage
qualifies_as_coverage-IsCovering inputs document_id document stored h =
    let (h1, geography) = (and_true _ _).0 h in
    let (h2, clock) = (and_true _ _).0 h1 in
    let (h3, dataset) = (and_true _ _).0 h2 in
    let (source, registered, of_source, public, layer) =
      candidate_source_ids-found inputs.registry document.source_id h3 in
    record {
      document_id = document_id;
      stored = stored;
      source = source;
      registered = registered;
      of_source = of_source;
      public = public;
      layer = layer;
      current = (==_iff document.dataset (some current_publication)).0 dataset;
      clock = usable (freshness_state document inputs.registry inputs.as_of) clock;
      located =
          (or_iff (contains document.geographies inputs.geography_id)
              (contains document.geographies inputs.country_code)
              (contains_mem document.geographies _, mem_contains document.geographies _)
              (contains_mem document.geographies _, mem_contains document.geographies _)).0
            geography;
    }
  where
    usable :
        (clock : FreshnessState)
        → is_eligible_freshness clock ≡ true
        → (clock ≡ fresh) ⊎ (clock ≡ ageing)
    usable clock h = ground arith

some_left : {A : Type 0} (xs : List A) → 1 ≤ length xs → non_empty xs ≡ true
some_left [] h = ground arith
some_left (x ∷ xs) h = refl

covered-IsCovering :
    (inputs : Inputs)
    → 1 ≤ (coverage_basis inputs).qualifying_document_count
    → (document : Document) × IsCovering inputs document
unfolding coverage_basis
covered-IsCovering inputs h =
    let (document, m) = non_empty-mem _ (some_left _ h) in
    let (k, qualifies) = mem_keep (qualifies_as_coverage inputs) _ m in
    let ((document_id, each), stored, e) = mem_map (λ entry. entry.1) inputs.documents_by_id k in
    (
      each,
      qualifies_as_coverage-IsCovering inputs document_id each stored
          (subst (λ other. qualifies_as_coverage inputs other ≡ true) e qualifies),
    )

unless_nil :
    {A : Type 0} {a : A} (flag : Bool) {xs : List A}
    → Memᴰ a (if not flag then [] else xs)
    → (flag ≡ true) × Memᴰ a xs
unless_nil true m = (refl, m)
unless_nil false m = elim m [ ]

cleared_round :
    (event : Event) (impact : Impact) (hit : Hit)
    → rule4_round event impact ≡ some hit
    → (impact.status ≡ some no_material) × (truthy impact.no_material_basis ≡ true)
cleared_round event impact hit h = ground (arith, ==_iff impact.status (some no_material))

IsCleared-hit :
    (event : Event) (hit : Hit)
    → Memᴰ hit (rule4_event_hits event)
    → (impact : Impact) × IsCleared event impact
unfolding rule4_event_hits
IsCleared-hit event hit m =
    let (noted, k) = unless_nil event.negative_operational_evidence m in
    let (impact, among, e) = mem_collect (rule4_round event) event.impact_assessments k in
    let (status, basis) = cleared_round event impact hit e in
    let cleared : IsCleared event impact = (noted, among, status, basis) in (impact, cleared)

IsCleared-entry :
    (eligible : List Entry) (hit : Hit)
    → Memᴰ hit (rule4_hits eligible)
    → (entry : Entry) × (impact : Impact) × Memᴰ entry eligible × IsCleared entry.event impact
unfolding rule4_hits
IsCleared-entry [] hit m = elim m [ ]
IsCleared-entry (entry ∷ rest) hit m =
    elim (append-cases (rule4_event_hits entry.event) (rule4_hits rest) m) [
      | inl k ↦
          let (impact, c) = IsCleared-hit entry.event hit k in (entry, impact, Memᴰ.head refl, c)
      | inr k ↦
          let (other, impact, among, c) = IsCleared-entry rest hit k in
          (other, impact, Memᴰ.tail among, c)
    ]

rule4_status :
    (inputs : Inputs) (eligible : List Entry)
    → (situation_status inputs eligible).0 ≡ no_material_impact_detected
    → (non_empty (rule4_hits eligible) && leb 1 (coverage_basis inputs).qualifying_document_count)
      ≡ true
unfolding situation_status rule4_part
rule4_status inputs eligible h = ground arith

-- A situation reports no material impact only on a finding and with coverage: some event that
-- passed Gate 0 carries negative operational evidence and an impact assessed to no material effect
-- on a stated basis, and at least one stored document covers the situation: current, fresh or ageing,
-- of a registered source of the current-evidence layer that is enabled for public claims, on the
-- situation's geography or country. The reported count of such documents is then not 0.
pub compute_mode_situation-no_material :
    (inputs : Inputs) (events : List Event)
    → (compute_mode_situation inputs events).status ≡ no_material_impact_detected
    → (1 ≤ (compute_mode_situation inputs events).coverage.qualifying_document_count)
      × ((document : Document) × IsCovering inputs document)
      × ((event : Event) × (impact : Impact) × (freshness : FreshnessState) × Memᴰ event events
          × (gate0 inputs event ≡ ok freshness)
          × IsCleared event impact)
unfolding compute_mode_situation
compute_mode_situation-no_material inputs events h =
    let eligible = eligible_entries inputs events in
    let (some_hit, covered) =
      (and_true (non_empty (rule4_hits eligible))
          (leb 1 (coverage_basis inputs).qualifying_document_count)).0
        (rule4_status inputs eligible h) in
    let (hit, m) = non_empty-mem (rule4_hits eligible) some_hit in
    let (entry, impact, among, cleared) = IsCleared-entry eligible hit m in
    let (listed, graded, passed) = eligible_entries_mem inputs events entry among in
    let counted = leb→le 1 (coverage_basis inputs).qualifying_document_count covered in
    (
      counted,
      covered-IsCovering inputs counted,
      (entry.event, impact, entry.freshness, listed, passed, cleared),
    )
