-- ===== src/Activity/Direction.antt =====
-- analysis/events.py: has_negative_operational_evidence, event_domain_direction.
use logistics_situation_plat.Model.{
  event_class_eq, severity_eq, area_eq, impact_status_eq, Event, EventClass, Impact, Area, Severity,
  no_material, observed, potential,
}
use logistics_situation_plat.Base.{
  string_eq, option_eq, any_of, all_of, keep, contains, distinct, is_empty, non_empty, String, Bool,
  false, not, ◌&&◌, ◌||◌, List, [], ◌∷◌, ◌++◌, map, some, ◌==◌, if◌then◌else◌,
}

-- The directions that an event-driven domain can have.
pub data Direction : Type 0 where
  insufficient deteriorating steady : Direction

abbrev pub is_material_status : Impact → Bool
is_material_status impact = impact.status == some observed || impact.status == some potential

-- An adverse impact on one of the areas.
unfoldable pub is_adverse : List Area → Impact → Bool
is_adverse areas impact =
    contains areas impact.area
    && is_material_status impact
    && not (impact.severity == Severity.no_severity)

-- A finding of no material effect in one of the areas.
unfoldable pub is_negative : List Area → Impact → Bool
is_negative areas impact = contains areas impact.area && impact.status == some no_material

unfoldable pub has_negative_operational_evidence : Event → List Area → Bool
has_negative_operational_evidence event areas =
    if not event.negative_operational_evidence
    then false
    else any_of (is_negative areas) event.impact_assessments

-- The evidence ids of the impacts that pass a test, event by event.
unfoldable pub impact_evidence : (Impact → Bool) → List Impact → List String
impact_evidence test [] = []
impact_evidence test (impact ∷ rest) =
    if test impact
    then impact.evidence_ids ++ impact_evidence test rest
    else impact_evidence test rest

unfoldable pub adverse_evidence : List Area → List Event → List String
adverse_evidence areas [] = []
adverse_evidence areas (event ∷ rest) =
    impact_evidence (is_adverse areas) event.impact_assessments ++ adverse_evidence areas rest

unfoldable pub negative_evidence : List Area → List Event → List String
negative_evidence areas [] = []
negative_evidence areas (event ∷ rest) =
    if has_negative_operational_evidence event areas
    then impact_evidence (is_negative areas) event.impact_assessments
      ++ negative_evidence areas rest
    else negative_evidence areas rest

-- The direction, the ids of the lane's events, and the evidence; the ids are sets that the code
-- sorts, and stand here in their first order.
pub record DomainReading : Type 0 where
  pub direction : Direction
  pub event_ids : List String
  pub evidence_ids : List String

unfoldable pub relevant_events : String → List Event → List Event
relevant_events lane_id events = keep (λ event. contains event.lane_relevance lane_id) events

unfoldable pub event_domain_direction : String → List Event → List Area → DomainReading
event_domain_direction lane_id events areas =
    let relevant = relevant_events lane_id events in
    let event_ids = distinct (map (λ event. event.event_id) relevant) in
    let adverse = adverse_evidence areas relevant in
    let negative = negative_evidence areas relevant in
    if is_empty relevant
    then record { direction = insufficient; event_ids = []; evidence_ids = [] }
    else (if all_of (λ event. event.event_class == some EventClass.discovery_lead) relevant
        then record { direction = insufficient; event_ids = event_ids; evidence_ids = [] }
        else (if non_empty adverse
            then record {
              direction = deteriorating;
              event_ids = event_ids;
              evidence_ids = distinct adverse;
            }
            else (if non_empty negative
                then record {
                  direction = steady;
                  event_ids = event_ids;
                  evidence_ids = distinct negative;
                }
                else record {
                  direction = insufficient;
                  event_ids = event_ids;
                  evidence_ids = [];
                })))
