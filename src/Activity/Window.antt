-- ===== src/Activity/Window.antt =====
-- analysis/events.py: the conditions of an active event, and for how long it stays active.
use logistics_situation_plat.Activity.Conditions.{
  IsRunning, IsBlank, HasNotEnded, HasSupport, is_active_status-IsRunning_iff, truthy-IsBlank_iff,
  has_ended_iff, supported_iff,
}
use logistics_situation_plat.Activity.Decision.{
  activity_check, Items, is_active_status, has_ended, supporting, bears_claim, is_active_at,
  activity_decided, foreign_dataset, inactive_status, recorded_closure, ended,
  no_qualified_evidence, unconfirmed_activity, confirmed_too_long_ago, confirmed_after_cutoff,
  confirmed_at, Inactivity,
}
use logistics_situation_plat.Model.{dataset_eq, Event, Time, day, Registry, current_publication}
use logistics_situation_plat.Evidence.{instant}
use logistics_situation_plat.Base.{
  ◌≢◌, String, string_eq, some-truthy, truthy-some, ◌≢◌, String, string_eq, some-truthy,
  truthy-some, option_eq, ==_iff, ok, raise, Result, require-ok, bind-ok, truthy, any_of, ltb, ℕ,
  ◌+◌, ◌*◌, ◌≤◌, ◌≡◌, refl, ◌↔◌, true, false, not, Option, some, arith, ◌==◌,
}

-- The conditions of an active event.
pub record IsActive (event : Event) (evidence_by_id : Items) (cutoff : Time)
    (registry : Option Registry) (window_days : ℕ) : Type 0 where
  pub current : event.dataset ≡ some current_publication
  pub running : IsRunning event.lifecycle_status
  pub not_closed : IsBlank event.closure_basis
  pub not_ended : HasNotEnded event cutoff
  pub supported : HasSupport event evidence_by_id registry
  pub basis : String
  pub based : event.active_basis ≡ some basis
  pub not_blank : basis ≢ ""
  pub confirmed : Time
  pub confirmation : instant event.active_as_of ≡ some confirmed
  pub recent : cutoff ≤ confirmed + window_days * day
  pub not_later : confirmed ≤ cutoff

confirmed_at-ok : (wanted : Option Time) (a : Time) → confirmed_at wanted ≡ ok a → wanted ≡ some a
confirmed_at-ok wanted a h = ground arith

not-ltb : (a b : ℕ) → not (ltb a b) ≡ true → b ≤ a
not-ltb a b h = ground arith

le_not_ltb : (a b : ℕ) → b ≤ a → ltb a b ≡ false
le_not_ltb a b h = ground arith

module _ (event : Event) (evidence_by_id : Items) (cutoff : Time) (registry : Option Registry)
    (window_days : ℕ) where
  activity_check-IsActive :
      (found : Time)
      → activity_check event evidence_by_id cutoff registry window_days ≡ ok found
      → IsActive event evidence_by_id cutoff registry window_days
  unfolding activity_check
  activity_check-IsActive found h =
      let (current, h1) =
        require-ok (event.dataset == some current_publication) foreign_dataset h in
      let (running, h2) = require-ok (is_active_status event.lifecycle_status) inactive_status h1 in
      let (unclosed, h3) = require-ok (not (truthy event.closure_basis)) recorded_closure h2 in
      let (going, h4) = require-ok (not (has_ended event cutoff)) ended h3 in
      let (supported, h5) =
        require-ok (any_of (bears_claim registry) (supporting event evidence_by_id))
          no_qualified_evidence h4 in
      let (confirmed, found_at, h6) = bind-ok (confirmed_at (instant event.active_as_of)) h5 in
      let (based, h7) = require-ok (truthy event.active_basis) unconfirmed_activity h6 in
      let (recent, h8) =
        require-ok (not (ltb (confirmed + window_days * day) cutoff)) confirmed_too_long_ago h7 in
      let (not_later, h9) = require-ok (not (ltb cutoff confirmed)) confirmed_after_cutoff h8 in
      let (basis, based, not_blank) = truthy-some event.active_basis based in
      record {
        current = (==_iff event.dataset (some current_publication)).0 current;
        running = (is_active_status-IsRunning_iff event.lifecycle_status).0 running;
        not_closed = (truthy-IsBlank_iff event.closure_basis).0 unclosed;
        not_ended = (has_ended_iff event cutoff).0 going;
        supported = (supported_iff event evidence_by_id registry).0 supported;
        basis = basis;
        based = based;
        not_blank = not_blank;
        confirmed = confirmed;
        confirmation = confirmed_at-ok (instant event.active_as_of) confirmed found_at;
        recent = not-ltb (confirmed + window_days * day) cutoff recent;
        not_later = not-ltb cutoff confirmed not_later;
      }

  IsActive-activity_check :
      (p : IsActive event evidence_by_id cutoff registry window_days)
      → activity_check event evidence_by_id cutoff registry window_days ≡ ok p.confirmed
  unfolding activity_check
  IsActive-activity_check p =
      let current = (==_iff event.dataset (some current_publication)).1 p.current in
      let running = (is_active_status-IsRunning_iff event.lifecycle_status).1 p.running in
      let unclosed = (truthy-IsBlank_iff event.closure_basis).1 p.not_closed in
      let going = (has_ended_iff event cutoff).1 p.not_ended in
      let supported = (supported_iff event evidence_by_id registry).1 p.supported in
      let recent = le_not_ltb (p.confirmed + window_days * day) cutoff p.recent in
      let not_later = le_not_ltb cutoff p.confirmed p.not_later in
      rw current (
        rw running (
          rw unclosed (
            rw going (
              rw supported (
                rw p.confirmation (
                  rw p.based
                    (rw (some-truthy p.basis p.not_blank) (rw recent (rw not_later refl)))))))))

  activity_decided-active :
      (checked : Result Inactivity Time)
      → (activity_decided checked).is_active ≡ true
      → (found : Time) × (checked ≡ ok found)
  activity_decided-active (ok found) h = (found, refl)
  activity_decided-active (raise cause) h = ground arith

  -- An event counts as active exactly when it is in the current dataset, has one of the four active
  -- lifecycle statuses and no closure basis, has no recorded end day before the cutoff's day, lists
  -- evidence whose record meets every condition of a bounded claim, and was confirmed active, with a
  -- basis, no later than the cutoff and no longer than the window before it.
  pub is_active_at_iff :
      ((is_active_at event evidence_by_id cutoff registry window_days).is_active ≡ true)
      ↔ IsActive event evidence_by_id cutoff registry window_days
  unfolding is_active_at
  is_active_at_iff = (
    λ h.
        let (found, e) =
          activity_decided-active (activity_check event evidence_by_id cutoff registry window_days)
            h in
        activity_check-IsActive found e,
    λ p. rw (IsActive-activity_check p) refl,
  )

HasNotEnded-earlier :
    (event : Event) (early late : Time)
    → early ≤ late
    → HasNotEnded event late
    → HasNotEnded event early
HasNotEnded-earlier event early late le h date end_day e d = omega (arith, h date end_day e d)

between_recent :
    (cutoff late confirmed window : Time)
    → cutoff ≤ late
    → late ≤ confirmed + window
    → cutoff ≤ confirmed + window
between_recent cutoff late confirmed window le h = omega arith

between_later :
    (stamp : Option Time) (early cutoff first second : Time)
    → early ≤ cutoff
    → stamp ≡ some first
    → stamp ≡ some second
    → first ≤ early
    → second ≤ cutoff
between_later stamp early cutoff first second le e e' h = ground arith

-- Activity has no gaps: an event that is active at two cutoffs is active at every cutoff between.
pub is_active_at-between :
    (event : Event) (evidence_by_id : Items) (registry : Option Registry) (window_days : ℕ)
    (early cutoff late : Time)
    → early ≤ cutoff
    → cutoff ≤ late
    → (is_active_at event evidence_by_id early registry window_days).is_active ≡ true
    → (is_active_at event evidence_by_id late registry window_days).is_active ≡ true
    → (is_active_at event evidence_by_id cutoff registry window_days).is_active ≡ true
is_active_at-between event evidence_by_id registry window_days early cutoff late le le' h h' =
    let p = (is_active_at_iff event evidence_by_id early registry window_days).0 h in
    let q = (is_active_at_iff event evidence_by_id late registry window_days).0 h' in
    (is_active_at_iff event evidence_by_id cutoff registry window_days).1 (record {
      current = p.current;
      running = p.running;
      not_closed = p.not_closed;
      not_ended = HasNotEnded-earlier event cutoff late le' q.not_ended;
      supported = p.supported;
      basis = p.basis;
      based = p.based;
      not_blank = p.not_blank;
      confirmed = q.confirmed;
      confirmation = q.confirmation;
      recent = between_recent cutoff late q.confirmed (window_days * day) le' q.recent;
      not_later =
          between_later (instant event.active_as_of) early cutoff p.confirmed q.confirmed le
            p.confirmation q.confirmation p.not_later;
    })
