-- ===== src/Situations/Admission.antt =====
-- Which events a situation counts as eligible.
use logistics_situation_plat.Grading.{is_capping, has_capping_contradiction}
use logistics_situation_plat.Situations.Links.{IsLinked, has_thailand_link-IsLinked_iff}
use logistics_situation_plat.Situations.Clock.{HasClock, event_freshness_state-HasClock_iff}
use logistics_situation_plat.Activity.Window.{IsActive, is_active_at_iff}
use logistics_situation_plat.Model.{
  contradiction_type_eq, resolution_status_eq, Conflict, ResolutionStatus, existence, status_change,
  SituationState, emerging, active, developing, stable, easing, uncertain, situation_state_eq,
  Grade, Event, FreshnessState,
}
use logistics_situation_plat.Activity.{is_active_at, active_confirmation_window_days}
use logistics_situation_plat.Situations.Gate.{
  is_eligible_state, Inputs, Exclusion, gate0, situation_state_eligible, is_eligible_freshness,
  event_freshness_state, has_thailand_link, state_not_eligible, not_fresh_enough, no_thailand_link,
  not_active,
}
use logistics_situation_plat.Situations.Rules.{Entry}
use logistics_situation_plat.Situations.Situation.{eligible_entries, entry_of, grade_of}
use logistics_situation_plat.Base.{
  or_iff, and_iff, ◌⊎◌, any_of-found, any_of_mem, ==_iff, option_eq, ok_inj, subst, some_inj, sym,
  ap, ap, Result, ok, raise, require-ok, mem_collect, collect_mem, Memᴰ, true, List, Option, some,
  ◌≡◌, ◌↔◌, refl, arith,
}

-- An entry of `conflicting_evidence` on the existence or a change of status that nobody resolved.
pub record IsOpenConflict (entry : Conflict) : Type 0 where
  pub unresolved : entry.resolution_status ≡ some ResolutionStatus.unresolved
  pub about :
      (entry.contradiction_type ≡ some existence) ⊎ (entry.contradiction_type ≡ some status_change)

-- `_SITUATION_STATE_ELIGIBLE`, as the states that are in it.
abbrev pub IsCounted : Option SituationState → Type 0
IsCounted state =
    (state ≡ some emerging)
    ⊎ (state ≡ some active)
    ⊎ (state ≡ some developing)
    ⊎ (state ≡ some stable)
    ⊎ (state ≡ some easing)

-- The situation state of the event is one of the five, or UNCERTAIN over an open conflict.
abbrev pub HasState : Event → Type 0
HasState event =
    IsCounted event.situation_state
    ⊎ (event.situation_state ≡ some uncertain)
      × ((entry : Conflict) × Memᴰ entry event.conflicting_evidence × IsOpenConflict entry)

-- What Gate 0 asks of an event.
pub record IsAdmitted (inputs : Inputs) (event : Event) (freshness : FreshnessState) : Type 0 where
  pub running :
      IsActive event inputs.evidence_by_id inputs.as_of
        (some inputs.registry)
        active_confirmation_window_days
  pub has_state : HasState event
  pub clock : HasClock inputs event freshness
  pub linked : IsLinked inputs.country_code inputs.lanes event

capping_iff : (entry : Conflict) → (is_capping entry ≡ true) ↔ IsOpenConflict entry
capping_iff entry = (
  (λ h. record {
    unresolved = ground (arith, ==_iff entry.resolution_status (some ResolutionStatus.unresolved));
    about = ground (
      arith,
      ==_iff entry.contradiction_type (some existence),
      ==_iff entry.contradiction_type (some status_change),
    );
  }),
  λ c. ground (
    arith,
    c.unresolved,
    c.about,
    ==_iff entry.resolution_status (some ResolutionStatus.unresolved),
    ==_iff entry.contradiction_type (some existence),
    ==_iff entry.contradiction_type (some status_change),
  ),
)

has_capping_contradiction-IsOpenConflict_iff :
    (event : Event)
    → (has_capping_contradiction event ≡ true)
      ↔ ((entry : Conflict) × Memᴰ entry event.conflicting_evidence × IsOpenConflict entry)
unfolding has_capping_contradiction
has_capping_contradiction-IsOpenConflict_iff event = (
  (λ h.
      let (entry, m, c) = any_of-found is_capping event.conflicting_evidence h in
      (entry, m, (capping_iff entry).0 c)),
  λ (entry, m, c). any_of_mem is_capping event.conflicting_evidence m ((capping_iff entry).1 c),
)

is_eligible_state-IsCounted_iff :
    (state : Option SituationState) → (is_eligible_state state ≡ true) ↔ IsCounted state
is_eligible_state-IsCounted_iff state = ground arith

situation_state_eligible_iff :
    (event : Event) → (situation_state_eligible event ≡ true) ↔ HasState event
unfolding situation_state_eligible
situation_state_eligible_iff event =
    or_iff _ _ (is_eligible_state-IsCounted_iff event.situation_state) (
      and_iff _ _ (==_iff event.situation_state (some uncertain))
        (has_capping_contradiction-IsOpenConflict_iff event))

-- Gate 0 lets an event through with a freshness exactly when the event is active; its situation state
-- is one of the five that count, or UNCERTAIN over an unresolved conflict on its existence or a change
-- of its status; that freshness is fresh or ageing, the freshness of an eligible claim's document, and
-- no other eligible claim's is worse; and the event names the country, a node or a chokepoint on a
-- lane of the country, or a lane of the country.
pub gate0-ok_iff :
    (inputs : Inputs) (event : Event) (freshness : FreshnessState)
    → (gate0 inputs event ≡ ok freshness) ↔ IsAdmitted inputs event freshness
unfolding gate0
gate0-ok_iff inputs event freshness = (
  λ h.
      let activity =
        is_active_at event inputs.evidence_by_id inputs.as_of (some inputs.registry)
          active_confirmation_window_days in
      let clock = event_freshness_state inputs event in
      let (is_active, h1) = require-ok activity.is_active (not_active activity.reason) h in
      let (has_state, h2) = require-ok (situation_state_eligible event) state_not_eligible h1 in
      let (has_clock, h3) = require-ok (is_eligible_freshness clock) (not_fresh_enough clock) h2 in
      let (has_link, h4) =
        require-ok (has_thailand_link inputs.country_code inputs.lanes event)
          (no_thailand_link clock) h3 in
      record {
        running = (is_active_at_iff event inputs.evidence_by_id inputs.as_of _ _).0 is_active;
        has_state = (situation_state_eligible_iff event).0 has_state;
        clock =
            (event_freshness_state-HasClock_iff inputs event freshness).0
              (ok_inj h4, subst (λ each. is_eligible_freshness each ≡ true) (ok_inj h4) has_clock);
        linked = (has_thailand_link-IsLinked_iff inputs.country_code inputs.lanes event).0 has_link;
      },
  λ p.
      let (same, usable) = (event_freshness_state-HasClock_iff inputs event freshness).1 p.clock in
      let running = (is_active_at_iff event inputs.evidence_by_id inputs.as_of _ _).1 p.running in
      let has_state = (situation_state_eligible_iff event).1 p.has_state in
      let has_link =
        (has_thailand_link-IsLinked_iff inputs.country_code inputs.lanes event).1 p.linked in
      rw running (rw has_state (rw same (rw usable (rw has_link refl)))),
)

entry_of-some :
    (event : Event) (grade : Option Grade) (passed : Result Exclusion FreshnessState)
    (entry : Entry)
    → entry_of event grade passed ≡ some entry
    → (entry.event ≡ event) × (entry.grade ≡ grade) × (passed ≡ ok entry.freshness)
entry_of-some event grade (ok freshness) entry h =
    let e = some_inj h in
    (
      sym (ap (λ part. part.event) e),
      sym (ap (λ part. part.grade) e),
      ap (λ part. ok part.freshness) e,
    )
entry_of-some event grade (raise exclusion) entry h = ground arith

-- The eligible entries are the events that pass Gate 0, with their grade and freshness.
pub eligible_entries_mem :
    (inputs : Inputs) (events : List Event) (entry : Entry)
    → Memᴰ entry (eligible_entries inputs events)
    → Memᴰ entry.event events
      × (entry.grade ≡ grade_of inputs entry.event)
      × (gate0 inputs entry.event ≡ ok entry.freshness)
unfolding eligible_entries
eligible_entries_mem inputs events entry m =
    let (event, listed, e) =
      mem_collect (λ event. entry_of event (grade_of inputs event) (gate0 inputs event)) events m in
    let (same, graded, passed) =
      entry_of-some event (grade_of inputs event) (gate0 inputs event) entry e in
    (rw same listed, rw same graded, rw same passed)

pub mem_eligible_entries :
    (inputs : Inputs) (events : List Event) (event : Event) (freshness : FreshnessState)
    → Memᴰ event events
    → gate0 inputs event ≡ ok freshness
    → Memᴰ
        (record { event = event; grade = grade_of inputs event; freshness = freshness })
        (eligible_entries inputs events)
unfolding eligible_entries
mem_eligible_entries inputs events event freshness m e =
    collect_mem (λ event. entry_of event (grade_of inputs event) (gate0 inputs event)) events event
      m (rw e refl)
