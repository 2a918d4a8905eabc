-- ===== src/Acquisition/Acquired.antt =====
-- analysis/provenance.py: acquisition_binding_problems together with
-- qualifies_for_current_publication.
use logistics_situation_plat.Provenance.Publishable.{qualifies_for_current_publication-eligible_iff}
use logistics_situation_plat.Acquisition.BoundIff.{resolve_live_record_binding-IsBound_iff}
use logistics_situation_plat.Acquisition.Bound.{binding_to, IsBound}
use logistics_situation_plat.Provenance.{
  qualifies_for_current_publication, IntendedUse, record_source_id, provenance_of, record_origin,
  Record,
}
use logistics_situation_plat.Model.{
  Registry, human_reviewed_manual, live_retrieved, ReviewEvent, Stamp, Time,
}
use logistics_situation_plat.Acquisition.Binding.{
  resolve_live_record_binding, bound_record_id, Binding, BindingFault, RunsBySource,
}
use logistics_situation_plat.Acquisition.Review.{
  unconfirmed_content, unrelated_record, unreviewed, event_of_other_source, unknown_event,
  cites_no_event, find_event, events_of, acquisition_binding_problems, binding_check, review_check,
  is_related, check_reviewed_at, EventsBySource,
}
use logistics_situation_plat.Base.{
  sym, ap, ◌∙◌, option_eq, refl, none, given-ok, given, bind-ok, ◌⊎◌, inr, string_eq, mem_contains,
  require-ok, inl, ◌↔◌, contains_mem, ◌==◌, ◌≤◌, raise, Memᴰ, Bool-cases, ==_iff, ◌≢◌, true, ok,
  some, truthy, ◌≡◌, List, String, Result, Option, arith,
}

-- A review time that is there is a time, and no later than an as-of time that is given.
pub IsReviewedBefore : Option Time → Option Stamp → Type 0
IsReviewedBefore as_of reviewed_at =
    (now : Time) (stamp : Stamp)
    → as_of ≡ some now
    → reviewed_at ≡ some stamp
    → stamp.text ≢ ""
    → (at : Time) × (stamp.parsed ≡ some at) × (at ≤ now)

-- The review event that stands behind a manual record.
pub record IsReviewed (by_source : EventsBySource) (as_of : Option Time) (item : Record)
    : Type 0 where
  pub cites : truthy (provenance_of item).manual_review_event_id ≡ true
  pub event : ReviewEvent
  pub persisted :
      find_event
        (provenance_of item).manual_review_event_id
        (events_of by_source (record_source_id item))
      ≡ some event
  pub same_source : event.source_id ≡ record_source_id item
  pub reviewed : event.is_reviewed ≡ true
  pub record_id : String
  pub identified : bound_record_id item ≡ some record_id
  pub related : Memᴰ record_id event.related_record_ids
  pub bounded : event.bounded_content_confirmed ≡ true
  pub before : IsReviewedBefore as_of event.reviewed_at

check_reviewed_at-before :
    (as_of : Option Time) (reviewed_at : Option Stamp)
    → check_reviewed_at as_of reviewed_at ≡ ok tt
    → IsReviewedBefore as_of reviewed_at
unfolding check_reviewed_at IsReviewedBefore
check_reviewed_at-before as_of reviewed_at h now stamp e e' present =
    ground (arith, ==_iff stamp.text "")

before-check_reviewed_at :
    (as_of : Option Time) (reviewed_at : Option Stamp)
    → IsReviewedBefore as_of reviewed_at
    → check_reviewed_at as_of reviewed_at ≡ ok tt
unfolding check_reviewed_at IsReviewedBefore
before-check_reviewed_at none reviewed_at h = refl
before-check_reviewed_at (some as_of) none h = refl
before-check_reviewed_at (some as_of) (some stamp) h = elim (Bool-cases (stamp.text == "")) [
  | inl e ↦ rw e refl
  | inr e ↦
      let (at, parsed, le) = h as_of stamp refl refl (ground (arith, ==_iff stamp.text "")) in
      rw e (rw parsed (ground arith))
]

is_related-mem :
    (wanted : Option String) (related : List String)
    → is_related wanted related ≡ true
    → (id : String) × (wanted ≡ some id) × Memᴰ id related
is_related-mem (some id) related h = (id, refl, contains_mem related id h)
is_related-mem none related h = ground arith

module _ (by_source : EventsBySource) (as_of : Option Time) (item : Record) where
  review_check-IsReviewed :
      review_check by_source as_of item ≡ ok tt → IsReviewed by_source as_of item
  unfolding review_check
  review_check-IsReviewed h =
      let event_id = (provenance_of item).manual_review_event_id in
      let events = events_of by_source (record_source_id item) in
      let (cites, h1) = require-ok (truthy event_id) cites_no_event h in
      let (event, e, h2) = bind-ok (given (find_event event_id events) unknown_event) h1 in
      let (same, h3) =
        require-ok (event.source_id == record_source_id item) event_of_other_source h2 in
      let (reviewed, h4) = require-ok event.is_reviewed unreviewed h3 in
      let (related, h5) =
        require-ok (is_related (bound_record_id item) event.related_record_ids) unrelated_record
          h4 in
      let (bounded, h6) = require-ok event.bounded_content_confirmed unconfirmed_content h5 in
      let (record_id, identified, m) =
        is_related-mem (bound_record_id item) event.related_record_ids related in
      record {
        cites = cites;
        event = event;
        persisted = given-ok (find_event event_id events) unknown_event event e;
        same_source = (==_iff event.source_id (record_source_id item)).0 same;
        reviewed = reviewed;
        record_id = record_id;
        identified = identified;
        related = m;
        bounded = bounded;
        before = check_reviewed_at-before as_of event.reviewed_at h6;
      }

  IsReviewed-review_check :
      IsReviewed by_source as_of item → review_check by_source as_of item ≡ ok tt
  unfolding review_check
  IsReviewed-review_check r = rw r.cites (
      rw r.persisted (
        rw ((==_iff r.event.source_id (record_source_id item)).1 r.same_source) (
          rw r.reviewed (
            rw r.identified (
              rw (mem_contains r.event.related_record_ids r.record_id r.related)
                (rw r.bounded (before-check_reviewed_at as_of r.event.reviewed_at r.before)))))))

-- What an origin that claims an acquisition must have behind it.
abbrev pub IsAcquired : RunsBySource → EventsBySource → Option Time → Record → Type 0
IsAcquired runs events as_of item =
    (record_origin item ≡ some live_retrieved) × IsBound runs as_of item
    ⊎ (record_origin item ≡ some human_reviewed_manual) × IsReviewed events as_of item

live≢manual : some live_retrieved ≢ some human_reviewed_manual
live≢manual h = ground arith

binding_check-ok :
    (checked : Result BindingFault Binding)
    → binding_check checked ≡ ok tt
    → (binding : Binding) × (checked ≡ ok binding)
binding_check-ok (ok binding) h = (binding, refl)
binding_check-ok (raise fault) h = ground arith

module _ (runs : RunsBySource) (events : EventsBySource) (as_of : Option Time) (item : Record) where
  live_iff :
      (record_origin item ≡ some live_retrieved)
      → (acquisition_binding_problems runs events as_of item ≡ ok tt) ↔ IsBound runs as_of item
  unfolding acquisition_binding_problems
  live_iff e =
      rw (e, acquisition_binding_problems)
        (
          (λ h.
              let (binding, q) = binding_check-ok (resolve_live_record_binding runs as_of item) h in
              ((resolve_live_record_binding-IsBound_iff runs as_of item binding).0 q).0),
          λ b.
              rw
                ((resolve_live_record_binding-IsBound_iff runs as_of item
                    (binding_to item b.run b.governing b.chain)).1
                  (b, refl))
                refl,
        )

  manual_iff :
      (record_origin item ≡ some human_reviewed_manual)
      → (acquisition_binding_problems runs events as_of item ≡ ok tt) ↔ IsReviewed events as_of item
  unfolding acquisition_binding_problems
  manual_iff e =
      rw (e, acquisition_binding_problems)
        (review_check-IsReviewed events as_of item, IsReviewed-review_check events as_of item)

-- A record that qualifies for current publication has no acquisition problem exactly when it is a live
-- record bound to the collection runs of its source, or a manual record in a reviewed event of its
-- source that lists it and confirms its bounded content, where the review time, if the event has one
-- and an as-of time is given, is a time that is not later than the as-of time.
pub qualified-IsAcquired_iff :
    (runs : RunsBySource) (events : EventsBySource) (as_of : Option Time) (item : Record)
    (registry : Option Registry) (intent : IntendedUse)
    → (qualifies_for_current_publication item registry (some intent)).eligible ≡ true
    → (acquisition_binding_problems runs events as_of item ≡ ok tt)
      ↔ IsAcquired runs events as_of item
qualified-IsAcquired_iff runs events as_of item registry intent h =
    let p = (qualifies_for_current_publication-eligible_iff item registry intent).0 h in
    let (origin, real) = p.real in
    elim real [
      | inl (live, status) ↦
          let e = origin ∙ ap some live in
          (
            (λ q. inl (e, (live_iff runs events as_of item e).0 q)),
            λ a. elim a [
              | inl (e', b) ↦ (live_iff runs events as_of item e).1 b
              | inr (e', r) ↦ absurd (live≢manual (sym e ∙ e'))
            ],
          )
      | inr (manual, status) ↦
          let e = origin ∙ ap some manual in
          (
            (λ q. inr (e, (manual_iff runs events as_of item e).0 q)),
            λ a. elim a [
              | inl (e', b) ↦ absurd (live≢manual (sym e' ∙ e))
              | inr (e', r) ↦ (manual_iff runs events as_of item e).1 r
            ],
          )
    ]
