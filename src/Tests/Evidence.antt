-- ===== src/Tests/Evidence.antt =====
-- Runs of the item grading on the closure notice, and its theorems there.
use logistics_situation_plat.Evidence.TopGrade.{item_strength-IsTop_iff, IsTop}
use logistics_situation_plat.Evidence.Clock.{item_strength_mono}
use logistics_situation_plat.Evidence.Traceability.{
  project_event_evidence-ok_iff, IsTraceable, IsTraced,
}
use logistics_situation_plat.Tests.Data.{
  weeks_later, next_day, news_notice, registry, closure, notice,
}
use logistics_situation_plat.Model.{strength_c, strength_d, strength_a, strength_code}
use logistics_situation_plat.Evidence.{
  EventEvidence, ProjectionError, weaker_strength, instant, reference_instant, scope_meets,
  authority_covers, document_disagrees, strength_basis, event_not_attached, is_strongest_type,
  near_a, base_strength, is_lead_or_structural, date_only, is_barred, source_entry, freshness_state,
  evidence_id_of, full_strength, is_discovery_source, is_fixture_document, projected,
  project_event_evidence, item_strength,
}
use logistics_situation_plat.Base.{
  raise, ok, any_of, contains, ◌≤◌, ◌≡◌, refl, ◌↔◌, true, false, some, arith, ◌==◌, string_eq,
  option_eq, nat_eq,
}

closure_grade :
    (item_strength closure notice registry next_day ≡ strength_a)
    × (item_strength closure notice registry weeks_later ≡ strength_c)
    × (item_strength closure news_notice registry next_day ≡ strength_d)
unfolding item_strength full_strength is_barred is_lead_or_structural is_discovery_source
    source_entry base_strength near_a is_strongest_type strength_basis authority_covers scope_meets
    freshness_state reference_instant instant weaker_strength is_fixture_document any_of contains
    ◌==◌
closure_grade = (refl, refl, refl)

projection_runs :
    (project_event_evidence closure notice "EVT-1" registry next_day
      ≡ ok (projected closure notice "EVT-1" registry next_day))
    × (project_event_evidence closure notice "EVT-9" registry next_day ≡ raise event_not_attached)
    × (project_event_evidence closure news_notice "EVT-1" registry next_day
        ≡ raise document_disagrees)
unfolding project_event_evidence contains ◌==◌
projection_runs = (refl, refl, refl)

projected_fields :
    ((projected closure notice "EVT-1" registry next_day).evidence_id ≡ "EVD-20260411-0001")
    × ((projected closure notice "EVT-1" registry next_day).publication_date ≡ some "2026-04-11")
unfolding projected evidence_id_of date_only ◌==◌
projected_fields = (refl, refl)

notice_real : (is_fixture_document notice ≡ false) × (is_fixture_document news_notice ≡ false)
unfolding is_fixture_document ◌==◌
notice_real = (refl, refl)

item_strength_mono_example :
    strength_code (item_strength closure notice registry next_day)
    ≤ strength_code (item_strength closure notice registry weeks_later)
item_strength_mono_example =
    item_strength_mono closure notice registry next_day weeks_later (omega arith)

item_strength-IsTop_iff_example :
    (item_strength closure notice registry next_day ≡ strength_a)
    ↔ IsTop closure notice registry next_day
item_strength-IsTop_iff_example =
    item_strength-IsTop_iff closure notice registry next_day notice_real.0

project_event_evidence-ok_iff_example :
    (((item : EventEvidence) × (project_event_evidence closure notice "EVT-1" registry next_day
          ≡ ok item)
        × IsTraced closure notice "EVT-1" registry next_day item)
      ↔ IsTraceable closure notice "EVT-1")
    × (((error : ProjectionError) × (project_event_evidence closure notice "EVT-1" registry next_day
            ≡ raise error))
        ↔ (¬ IsTraceable closure notice "EVT-1"))
project_event_evidence-ok_iff_example =
    project_event_evidence-ok_iff closure notice "EVT-1" registry next_day

news_is_discovery : is_discovery_source (source_entry registry news_notice.source_id) ≡ true
unfolding is_discovery_source source_entry any_of contains ◌==◌
news_is_discovery = refl
