-- ===== src/Evidence/Clock.antt =====
-- How freshness and item grades move with the time at which they are asked for.
use logistics_situation_plat.Base.{Option, none, some, ℕ, ◌≤◌, ◌≡◌, false, arith}
use logistics_situation_plat.Model.{
  Time, Claim, Document, Registry, FreshnessState, freshness_state_code, Strength, strength_code,
}
use logistics_situation_plat.Evidence.Sources.{source_entry}
use logistics_situation_plat.Evidence.Freshness.{state_at, reference_instant, freshness_state}
use logistics_situation_plat.Evidence.Strength.{
  freshness_item_cap, weaker_strength, base_strength, is_fixture_document, full_strength,
  item_strength,
}

state_at_mono :
    (window : Option ℕ) (reference : Option Time) (now later : Time)
    → now ≤ later
    → freshness_state_code (state_at window reference now)
      ≤ freshness_state_code (state_at window reference later)
unfolding state_at
state_at_mono none reference now later h = omega arith
state_at_mono (some window) none now later h = omega arith
state_at_mono (some window) (some reference) now later h = ground arith

-- As time passes the freshness of a document never improves in the order fresh, ageing, stale,
-- expired, unknown.
pub freshness_state_mono :
    (document : Document) (registry : Registry) (now later : Time)
    → now ≤ later
    → freshness_state_code (freshness_state document registry now)
      ≤ freshness_state_code (freshness_state document registry later)
unfolding freshness_state
freshness_state_mono document registry now later h =
    state_at_mono (source_entry registry document.source_id).max_stale_minutes
      (reference_instant document) now later h

capped_mono :
    (base : Strength) (s s' : FreshnessState)
    → freshness_state_code s ≤ freshness_state_code s'
    → strength_code (weaker_strength base (freshness_item_cap s))
      ≤ strength_code (weaker_strength base (freshness_item_cap s'))
unfolding weaker_strength
capped_mono base s s' h = ground arith

-- As time passes the item grade of a claim never improves, in the order A, B, C, D.
pub item_strength_mono :
    (claim : Claim) (document : Document) (registry : Registry) (now later : Time)
    → now ≤ later
    → strength_code (item_strength claim document registry now)
      ≤ strength_code (item_strength claim document registry later)
unfolding item_strength full_strength
item_strength_mono claim document registry now later h = ground (
  arith,
  capped_mono (base_strength claim document) (freshness_state document registry now)
      (freshness_state document registry later)
      (freshness_state_mono document registry now later h),
)

-- The grade of a document that is no fixture is never better than the cap of its freshness.
pub item_strength-le-cap :
    (claim : Claim) (document : Document) (registry : Registry) (now : Time)
    → is_fixture_document document ≡ false
    → strength_code (freshness_item_cap (freshness_state document registry now))
      ≤ strength_code (item_strength claim document registry now)
unfolding item_strength full_strength weaker_strength
item_strength-le-cap claim document registry now h = ground arith
