-- ===== src/Activity/Conditions.antt =====
-- analysis/events.py: what the tests of is_active_at say of an event and its evidence.
use logistics_situation_plat.Provenance.{Record, publish_bounded_claim}
use logistics_situation_plat.Base.{
  ◌≡◌, ◌⊎◌, ◌↔◌, ◌≤◌, ◌/◌, Memᴰ, String, Option, lookup, any_of, any_of-found, any_of_mem,
  mem_collect, collect_mem, some_inj, ==_iff, Option-cases, not, truthy, ℕ, arith, refl, none, some,
  inl, inr, string_eq, option_eq, true,
}
use logistics_situation_plat.Provenance.Publishable.{
  IsPublishable, qualifies_for_current_publication-eligible_iff,
}
use logistics_situation_plat.Activity.Decision.{
  is_active_status, has_ended, supporting, bears_claim, as_date, Items,
}
use logistics_situation_plat.Model.{
  Event, Time, day, DateStamp, LifecycleStatus, Registry, reported_event, verified_event,
  operational_impact_observed, monitoring,
}

-- `ACTIVE_LIFECYCLE_STATUSES`, as the statuses that are in it.
abbrev pub IsRunning : Option LifecycleStatus → Type 0
IsRunning status =
    (status ≡ some reported_event)
    ⊎ (status ≡ some verified_event)
    ⊎ (status ≡ some operational_impact_observed)
    ⊎ (status ≡ some monitoring)

-- A text that is absent or empty.
abbrev pub IsBlank : Option String → Type 0
IsBlank wanted = (text : String) → wanted ≡ some text → text ≡ ""

-- The day on which the event ended, where one is recorded, is not before the day of the cutoff.
abbrev pub HasNotEnded : Event → Time → Type 0
HasNotEnded event cutoff =
    (date : DateStamp) (end_day : ℕ)
    → event.event_end_date ≡ some date
    → date.day_number ≡ some end_day
    → cutoff / day ≤ end_day

-- A record among the evidence of the event that may stand behind a bounded claim.
pub record HasSupport (event : Event) (evidence_by_id : Items) (registry : Option Registry)
    : Type 0 where
  pub evidence_id : String
  pub listed : Memᴰ evidence_id event.evidence_ids
  pub item : Record
  pub found : lookup evidence_id evidence_by_id ≡ some item
  pub publishable : IsPublishable item registry publish_bounded_claim

pub is_active_status-IsRunning_iff :
    (status : Option LifecycleStatus) → (is_active_status status ≡ true) ↔ IsRunning status
is_active_status-IsRunning_iff status = ground arith

pub truthy-IsBlank_iff : (wanted : Option String) → (not (truthy wanted) ≡ true) ↔ IsBlank wanted
truthy-IsBlank_iff none = ((λ h text e. ground arith), λ h. refl)
truthy-IsBlank_iff (some given_text) = (
  (λ h text e. ground (arith, ==_iff given_text "", some_inj e)),
  λ h. ground (arith, h given_text refl, ==_iff given_text ""),
)

pub has_ended_iff :
    (event : Event) (cutoff : Time)
    → (not (has_ended event cutoff) ≡ true) ↔ HasNotEnded event cutoff
unfolding has_ended as_date
has_ended_iff event cutoff = elim (Option-cases event.event_end_date) [
  | inl e ↦ rw e ((λ h date end_day e' d. ground arith), λ h. refl)
  | inr (date, e) ↦ elim (Option-cases date.day_number) [
    | inl d ↦ rw (e, d) ((λ h other end_day e' d'. ground arith), λ h. refl)
    | inr (end_day, d) ↦
        rw (e, d)
          (
            (λ h other last e' d'. ground arith),
            λ h. let le = h _ end_day refl refl in ground arith,
          )
  ]
]

pub supported_iff :
    (event : Event) (evidence_by_id : Items) (registry : Option Registry)
    → (any_of (bears_claim registry) (supporting event evidence_by_id) ≡ true)
      ↔ HasSupport event evidence_by_id registry
unfolding supporting bears_claim
supported_iff event evidence_by_id registry = (
  (λ h.
      let (item, m, bears) =
        any_of-found (bears_claim registry) (supporting event evidence_by_id) h in
      let (evidence_id, listed, found) =
        mem_collect (λ eid. lookup eid evidence_by_id) event.evidence_ids m in
      record {
        evidence_id = evidence_id;
        listed = listed;
        item = item;
        found = found;
        publishable =
            (qualifies_for_current_publication-eligible_iff item registry publish_bounded_claim).0
              bears;
      }),
  λ s.
      any_of_mem (bears_claim registry) (supporting event evidence_by_id)
        (collect_mem (λ eid. lookup eid evidence_by_id) event.evidence_ids s.evidence_id s.listed
          s.found)
        ((qualifies_for_current_publication-eligible_iff s.item registry publish_bounded_claim).1
          s.publishable),
)
