-- ===== src/Tests/Current.antt =====
-- Runs of the publication and activity decisions on the closure, and their theorems there.
use logistics_situation_plat.Provenance.Publishable.{
  qualifies_for_current_publication-eligible_iff, IsPublishable,
}
use logistics_situation_plat.Provenance.Uses.{use_rank, qualifies_for_current_publication_weaker}
use logistics_situation_plat.Activity.Window.{is_active_at_iff, is_active_at-between, IsActive}
use logistics_situation_plat.Provenance.{
  qualifies_for_current_publication, publication_check, record_dataset, check_origin, find_source,
  is_enabled_or_manual, has_compatible_role, record_family, record_label, publish_bounded_claim,
  publish_link_only, use_not_permitted,
}
use logistics_situation_plat.Activity.{
  is_active_at, activity_check, has_ended, as_date, supporting, bears_claim,
  external_driver_admission, evaluate_transmission_chain, event_domain_direction, relevant_events,
  adverse_evidence, negative_evidence, impact_evidence, is_adverse, is_negative,
  has_negative_operational_evidence,
}
use logistics_situation_plat.Model.{day}
use logistics_situation_plat.Evidence.{instant}
use logistics_situation_plat.Tests.Data.{
  closure_event, registry, next_day, weeks_later, items, closure_record,
}
use logistics_situation_plat.Base.{
  ◌*◌, contains, any_of, all_of, keep, distinct, lookup, collect, ◌≡◌, refl, ◌↔◌, true, false, none,
  some, arith, ◌==◌, string_eq, option_eq, nat_eq,
}

unfoldable pub all_current : Unit {0}
unfolding qualifies_for_current_publication publication_check record_dataset check_origin
    find_source is_enabled_or_manual has_compatible_role record_family record_label is_active_at
    activity_check has_ended as_date supporting bears_claim external_driver_admission
    evaluate_transmission_chain event_domain_direction relevant_events adverse_evidence
    negative_evidence impact_evidence is_adverse is_negative has_negative_operational_evidence
    instant contains any_of all_of keep distinct lookup collect ◌==◌
all_current = tt

pub closure_publication :
    ((qualifies_for_current_publication closure_record
        (some registry)
        (some publish_bounded_claim)).eligible
      ≡ true)
    × ((qualifies_for_current_publication closure_record (some registry) none).reason
        ≡ some use_not_permitted)
unfolding all_current
closure_publication = (refl, refl)

closure_activity :
    ((is_active_at closure_event items next_day (some registry) 90).is_active ≡ true)
    × ((is_active_at closure_event items (200 * day) (some registry) 90).is_active ≡ false)
unfolding all_current
closure_activity = (refl, refl)

weeks_activity : (is_active_at closure_event items weeks_later (some registry) 90).is_active ≡ true
unfolding all_current
weeks_activity = refl

qualifies_for_current_publication-eligible_iff_example :
    ((qualifies_for_current_publication closure_record
        (some registry)
        (some publish_bounded_claim)).eligible
      ≡ true)
    ↔ IsPublishable closure_record (some registry) publish_bounded_claim
qualifies_for_current_publication-eligible_iff_example =
    qualifies_for_current_publication-eligible_iff closure_record (some registry)
      publish_bounded_claim

qualifies_for_current_publication_weaker_example :
    (qualifies_for_current_publication closure_record
      (some registry)
      (some publish_link_only)).eligible
    ≡ true
unfolding all_current use_rank
qualifies_for_current_publication_weaker_example =
    qualifies_for_current_publication_weaker closure_record (some registry) publish_bounded_claim
      publish_link_only (omega arith) closure_publication.0

is_active_at_iff_example :
    ((is_active_at closure_event items next_day (some registry) 90).is_active ≡ true)
    ↔ IsActive closure_event items next_day (some registry) 90
is_active_at_iff_example = is_active_at_iff closure_event items next_day (some registry) 90

is_active_at-between_example :
    (is_active_at closure_event items (103 * day) (some registry) 90).is_active ≡ true
is_active_at-between_example =
    is_active_at-between closure_event items (some registry) 90 next_day (103 * day) weeks_later
      (omega arith) (omega arith) closure_activity.0 weeks_activity
