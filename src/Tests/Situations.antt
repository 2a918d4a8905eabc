-- ===== src/Tests/Situations.antt =====
-- Runs of the situation of a mode on the closure, and its theorems there.
use logistics_situation_plat.Situations.Admission.{gate0-ok_iff, IsAdmitted}
use logistics_situation_plat.Situations.Status.{
  compute_mode_situation-IsDisruption_iff, IsDisruption,
}
use logistics_situation_plat.Situations.Accounting.{
  compute_mode_situation-contributing, compute_mode_situation-accounted,
  compute_mode_situation-high_confidence,
}
use logistics_situation_plat.Situations.Quiet.{
  compute_mode_situation-no_material, IsCleared, IsCovering,
}
use logistics_situation_plat.Situations.{
  Exclusion, gate0, situation_state_eligible, event_freshness_state, worst_state, has_thailand_link,
  compute_mode_situation, eligible_entries, excluded_events, situation_status, rule1_hit, rule2_hit,
  rule3_hit, watched_part, drifted_part, rule4_hits, rule4_event_hits, rule4_part,
  would_reach_rule1_or_rule3, reaches, stripped, is_unassessed, material_area,
  worst_impact_status_severity, worst_from, hit_ids, entry_ids, entries_with, confidence_of,
  stepped_confidence, claims_of, claim_sources, has_unknown_cadence, last_source, coverage_basis,
  qualifies_as_coverage, candidate_source_ids, composition_of, high_confidence,
  confirmed_disruption, no_material_impact_detected,
}
use logistics_situation_plat.Model.{Document, Event, Impact, FreshnessState, fresh}
use logistics_situation_plat.Tests.Grading.{all_grading}
use logistics_situation_plat.Tests.Current.{all_current}
use logistics_situation_plat.Tests.Data.{closure_event, calm_event, twice_reported, inputs}
use logistics_situation_plat.Base.{
  ok, ◌≤◌, ◌≡◌, refl, ◌↔◌, ◌⊎◌, Memᴰ, [], ◌∷◌, string_eq, option_eq, nat_eq,
}

all_situations : Unit {0}
unfolding all_grading all_current gate0 situation_state_eligible event_freshness_state worst_state
    has_thailand_link compute_mode_situation eligible_entries excluded_events situation_status
    rule1_hit rule2_hit rule3_hit watched_part drifted_part rule4_hits rule4_event_hits rule4_part
    would_reach_rule1_or_rule3 reaches stripped is_unassessed material_area
    worst_impact_status_severity worst_from hit_ids entry_ids entries_with confidence_of
    stepped_confidence claims_of claim_sources has_unknown_cadence last_source coverage_basis
    qualifies_as_coverage candidate_source_ids composition_of
all_situations = tt

situation_runs :
    ((compute_mode_situation inputs (closure_event ∷ [])).status ≡ confirmed_disruption)
    × ((compute_mode_situation inputs (closure_event ∷ [])).contributing_event_ids ≡ "EVT-1" ∷ [])
    × ((compute_mode_situation inputs (calm_event ∷ [])).status ≡ no_material_impact_detected)
    × ((compute_mode_situation inputs (twice_reported ∷ [])).confidence ≡ high_confidence)
unfolding all_situations
situation_runs = (refl, refl, refl, refl)

gate0-ok_iff_example :
    (gate0 inputs closure_event ≡ ok fresh) ↔ IsAdmitted inputs closure_event fresh
gate0-ok_iff_example = gate0-ok_iff inputs closure_event fresh

compute_mode_situation-IsDisruption_iff_example :
    ((compute_mode_situation inputs (closure_event ∷ [])).status ≡ confirmed_disruption) ↔ (
      (event : Event) × (impact : Impact) × Memᴰ event (closure_event ∷ [])
      × IsDisruption inputs event impact)
compute_mode_situation-IsDisruption_iff_example =
    compute_mode_situation-IsDisruption_iff inputs (closure_event ∷ [])

first_id : Memᴰ "EVT-1" (compute_mode_situation inputs (closure_event ∷ [])).contributing_event_ids
first_id = rw situation_runs.1 (Memᴰ.head refl)

compute_mode_situation-contributing_example :
    (event : Event) × (freshness : FreshnessState) × Memᴰ event (closure_event ∷ [])
    × ("EVT-1" ≡ event.event_id)
    × (gate0 inputs event ≡ ok freshness)
compute_mode_situation-contributing_example =
    compute_mode_situation-contributing inputs (closure_event ∷ []) "EVT-1" first_id

compute_mode_situation-accounted_example :
    let situation = compute_mode_situation inputs (closure_event ∷ []) in
    ((exclusion : Exclusion) × Memᴰ
        (closure_event.event_id, exclusion)
        situation.excluded_event_ids)
    ⊎ Memᴰ closure_event.event_id situation.contributing_event_ids
    ⊎ Memᴰ closure_event.event_id situation.watch_event_ids
compute_mode_situation-accounted_example =
    compute_mode_situation-accounted inputs (closure_event ∷ []) closure_event (Memᴰ.head refl)

compute_mode_situation-high_confidence_example :
    2 ≤ (compute_mode_situation inputs (twice_reported ∷ [])).evidence_composition.group_count
compute_mode_situation-high_confidence_example =
    compute_mode_situation-high_confidence inputs (twice_reported ∷ []) situation_runs.3

compute_mode_situation-no_material_example :
    (1 ≤ (compute_mode_situation inputs (calm_event ∷ [])).coverage.qualifying_document_count)
    × ((document : Document) × IsCovering inputs document)
    × ((event : Event) × (impact : Impact) × (freshness : FreshnessState) × Memᴰ event
          (calm_event ∷ [])
        × (gate0 inputs event ≡ ok freshness)
        × IsCleared event impact)
compute_mode_situation-no_material_example =
    compute_mode_situation-no_material inputs (calm_event ∷ []) situation_runs.2
