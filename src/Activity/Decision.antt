-- ===== src/Activity/Decision.antt =====
-- analysis/events.py: is_active_at, event_qualifies_for_current_publication, active_events.
use logistics_situation_plat.Model.{
  dataset_eq, Event, Time, day, Registry, LifecycleStatus, DateStamp, current_publication,
  reported_event, verified_event, operational_impact_observed, monitoring,
}
use logistics_situation_plat.Evidence.{instant}
use logistics_situation_plat.Provenance.{
  Record, qualifies_for_current_publication, publish_bounded_claim,
}
use logistics_situation_plat.Base.{
  option_eq, ok, raise, Result, require, ◌>>=◌, ◌>>◌, truthy, any_of, keep, collect, lookup, ltb, ℕ,
  ◌+◌, ◌*◌, ◌/◌, String, Bool, true, false, not, List, Option, none, some, ◌==◌, if◌then◌else◌,
}

-- `evidence_by_id`
abbrev pub Items : Type 0
Items = List (String × Record)

-- `ACTIVE_LIFECYCLE_STATUSES`
abbrev pub is_active_status : Option LifecycleStatus → Bool
is_active_status (some reported_event) = true
is_active_status (some verified_event) = true
is_active_status (some operational_impact_observed) = true
is_active_status (some monitoring) = true
is_active_status _ = false

abbrev pub active_confirmation_window_days : ℕ
active_confirmation_window_days = 90

-- `_as_date`
unfoldable pub as_date : Option DateStamp → Option ℕ
as_date none = none
as_date (some date) = date.day_number

-- `end_date is not None and end_date < cutoff.date()`: days and instants count from one midnight.
unfoldable pub has_ended : Event → Time → Bool
has_ended event cutoff = elim (as_date event.event_end_date) [
  | none ↦ false
  | some end_day ↦ ltb end_day (cutoff / day)
]

unfoldable pub supporting : Event → Items → List Record
supporting event evidence_by_id = collect (λ eid. lookup eid evidence_by_id) event.evidence_ids

unfoldable pub bears_claim : Option Registry → Record → Bool
bears_claim registry item =
    (qualifies_for_current_publication item registry (some publish_bounded_claim)).eligible

-- Why an event does not count as active, in the order of the tests.
pub data Inactivity : Type 0 where
  foreign_dataset inactive_status recorded_closure ended no_qualified_evidence : Inactivity
  unconfirmed_activity confirmed_too_long_ago confirmed_after_cutoff : Inactivity

abbrev pub confirmed_at : Option Time → Result Inactivity Time
confirmed_at none = raise unconfirmed_activity
confirmed_at (some instant) = ok instant

-- The confirmation is no older than the window, and no later than the cutoff.
unfoldable pub activity_check : Event → Items → Time → Option Registry → ℕ → Result Inactivity Time
activity_check event evidence_by_id cutoff registry window_days = do
  require (event.dataset == some current_publication) foreign_dataset
  require (is_active_status event.lifecycle_status) inactive_status
  require (not (truthy event.closure_basis)) recorded_closure
  require (not (has_ended event cutoff)) ended
  require (any_of (bears_claim registry) (supporting event evidence_by_id)) no_qualified_evidence
  confirmed ← confirmed_at (instant event.active_as_of)
  require (truthy event.active_basis) unconfirmed_activity
  require (not (ltb (confirmed + window_days * day) cutoff)) confirmed_too_long_ago
  require (not (ltb cutoff confirmed)) confirmed_after_cutoff
  ok confirmed

pub record ActivityDecision : Type 0 where
  pub is_active : Bool
  pub reason : Option Inactivity

abbrev pub activity_decided : Result Inactivity Time → ActivityDecision
activity_decided (ok confirmed) = record { is_active = true; reason = none }
activity_decided (raise cause) = record { is_active = false; reason = some cause }

unfoldable pub is_active_at : Event → Items → Time → Option Registry → ℕ → ActivityDecision
is_active_at event evidence_by_id cutoff registry window_days =
    activity_decided (activity_check event evidence_by_id cutoff registry window_days)

unfoldable pub event_qualifies_for_current_publication : Event → Items → Option Registry → Bool
event_qualifies_for_current_publication event evidence_by_id registry =
    if not (event.dataset == some current_publication)
    then false
    else any_of (bears_claim registry) (supporting event evidence_by_id)

unfoldable pub active_events : List Event → Items → Time → Option Registry → List Event
active_events events evidence_by_id cutoff registry =
    keep
      (λ event.
        (is_active_at event evidence_by_id cutoff registry
          active_confirmation_window_days).is_active)
      events
