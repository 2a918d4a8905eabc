-- ===== src/Acquisition/Review.antt =====
-- analysis/provenance.py: acquisition_binding_problems.
use logistics_situation_plat.Provenance.{record_source_id, provenance_of, record_origin, Record}
use logistics_situation_plat.Acquisition.Binding.{
  bound_record_id, resolve_live_record_binding, Binding, RunsBySource, BindingFault,
}
use logistics_situation_plat.Model.{
  Stamp, ReviewEvent, Time, origin_eq, live_retrieved, human_reviewed_manual,
}
use logistics_situation_plat.Base.{
  given, ltb, truthy, not, contains, lookup, require, false, or_else, Bool, Result, String, ◌>>=◌,
  ◌>>◌, string_eq, option_eq, Option, none, some, List, [], ◌∷◌, ok, raise, if◌then◌else◌, ◌==◌,
}

-- Why a record has no acquisition behind it. The last one is the exception of parse_timestamp on a
-- review time that is no timestamp.
pub data AcquisitionFault : Type 0 where
  unbound : BindingFault → AcquisitionFault
  cites_no_event unknown_event event_of_other_source unreviewed : AcquisitionFault
  unrelated_record unconfirmed_content reviewed_after_as_of : AcquisitionFault
  malformed_review_time : AcquisitionFault

-- `manual_events_by_source`, and the events of a source in it.
abbrev pub EventsBySource : Type 0
EventsBySource = List (String × List ReviewEvent)

unfoldable pub events_of : EventsBySource → Option String → List ReviewEvent
events_of by_source source_id = or_else (lookup (or_else source_id "") by_source) []

unfoldable pub find_event : Option String → List ReviewEvent → Option ReviewEvent
find_event wanted [] = none
find_event wanted (event ∷ rest) =
    if event.event_id == wanted then some event else find_event wanted rest

abbrev pub is_related : Option String → List String → Bool
is_related none related = false
is_related (some id) related = contains related id

-- The last test: only a review time that is there is compared with an as-of time that is given.
unfoldable pub check_reviewed_at : Option Time → Option Stamp → Result AcquisitionFault (Unit {0})
check_reviewed_at none reviewed_at = ok tt
check_reviewed_at (some as_of) none = ok tt
check_reviewed_at (some as_of) (some stamp) =
    if stamp.text == "" then ok tt else elim stamp.parsed [
      | none ↦ raise malformed_review_time
      | some at ↦ require (not (ltb as_of at)) reviewed_after_as_of
    ]

-- The branch of a manually reviewed record.
unfoldable pub review_check :
    EventsBySource → Option Time → Record → Result AcquisitionFault (Unit {0})
review_check by_source as_of item = do
  require (truthy (provenance_of item).manual_review_event_id) cites_no_event
  event ←
      given
        (find_event (provenance_of item).manual_review_event_id
          (events_of by_source (record_source_id item)))
        unknown_event
  require (event.source_id == record_source_id item) event_of_other_source
  require event.is_reviewed unreviewed
  require (is_related (bound_record_id item) event.related_record_ids) unrelated_record
  require event.bounded_content_confirmed unconfirmed_content
  check_reviewed_at as_of event.reviewed_at

abbrev pub binding_check : Result BindingFault Binding → Result AcquisitionFault (Unit {0})
binding_check (ok binding) = ok tt
binding_check (raise fault) = raise (unbound fault)

-- No problem at all for an origin that claims no acquisition.
unfoldable pub acquisition_binding_problems :
    RunsBySource → EventsBySource → Option Time → Record → Result AcquisitionFault (Unit {0})
acquisition_binding_problems runs events as_of item = elim (record_origin item) [
  | some live_retrieved ↦ binding_check (resolve_live_record_binding runs as_of item)
  | some human_reviewed_manual ↦ review_check events as_of item
  | _ ↦ ok tt
]
