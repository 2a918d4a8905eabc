-- ===== src/Situations/Gate.antt =====
-- analysis/situations.py: the eight conditions of Gate 0.
use logistics_situation_plat.Model.{
  situation_state_eq, Event, FreshnessState, SituationState, Registry, Time, fresh, ageing, unknown,
  emerging, active, developing, stable, easing, uncertain, freshness_state_code,
}
use logistics_situation_plat.Evidence.{freshness_state}
use logistics_situation_plat.Grading.{
  Claims, Documents, doc_of, eligible_claims, has_capping_contradiction,
}
use logistics_situation_plat.Activity.{
  Items, Inactivity, ActivityDecision, is_active_at, active_confirmation_window_days,
}
use logistics_situation_plat.Situations.Lanes.{
  Lane, lane_by_id, lanes_for_node, lanes_for_chokepoint,
}
use logistics_situation_plat.Base.{
  string_eq, option_eq, Result, ok, require, ◌>>◌, any_of, contains, is_empty, ltb, String, Bool,
  true, false, ◌&&◌, ◌||◌, List, [], ◌∷◌, map, Option, none, some, ◌==◌, if◌then◌else◌,
}

-- The arguments that one computation shares, and the lanes that analysis/reference.py loads.
pub record Inputs : Type 0 where
  pub evidence_by_id : Items
  pub claims_by_id : Claims
  pub documents_by_id : Documents
  pub registry : Registry
  pub lanes : List Lane
  pub as_of : Time
  pub country_code : String
  pub geography_id : String

-- `_SITUATION_STATE_ELIGIBLE`
abbrev pub is_eligible_state : Option SituationState → Bool
is_eligible_state (some emerging) = true
is_eligible_state (some active) = true
is_eligible_state (some developing) = true
is_eligible_state (some stable) = true
is_eligible_state (some easing) = true
is_eligible_state _ = false

unfoldable pub situation_state_eligible : Event → Bool
situation_state_eligible event =
    is_eligible_state event.situation_state
    || (event.situation_state == some uncertain && has_capping_contradiction event)

-- The worst of some freshness states, from a first one.
unfoldable pub worst_state : FreshnessState → List FreshnessState → FreshnessState
worst_state worst [] = worst
worst_state worst (state ∷ rest) =
    worst_state
      (if ltb (freshness_state_code worst) (freshness_state_code state) then state else worst) rest

unfoldable pub event_freshness_state : Inputs → Event → FreshnessState
event_freshness_state inputs event =
    let claims = eligible_claims event inputs.claims_by_id inputs.documents_by_id inputs.registry in
    if is_empty claims
    then unknown
    else worst_state fresh (
        map
          (λ claim.
            freshness_state (doc_of inputs.documents_by_id claim) inputs.registry inputs.as_of)
          claims)

-- `country_code in lane_by_id(lane_id).get("country_ids", [])`; an unknown lane gives `false`, which
-- is the `continue` of the last loop and cannot happen in the two before it.
unfoldable pub is_lane_of : String → List Lane → String → Bool
is_lane_of country_code lanes lane_id = elim (lane_by_id lane_id lanes) [
  | none ↦ false
  | some lane ↦ contains lane.country_ids country_code
]

unfoldable pub has_thailand_link : String → List Lane → Event → Bool
has_thailand_link country_code lanes event =
    contains event.country_ids country_code
    || any_of (λ node_id. any_of (is_lane_of country_code lanes) (lanes_for_node node_id lanes))
        event.node_ids
    || any_of
        (λ chokepoint_id.
          any_of (is_lane_of country_code lanes) (lanes_for_chokepoint chokepoint_id lanes))
        event.chokepoint_ids
    || any_of (is_lane_of country_code lanes) event.lane_relevance

-- `_FRESHNESS_ELIGIBLE`
abbrev pub is_eligible_freshness : FreshnessState → Bool
is_eligible_freshness fresh = true
is_eligible_freshness ageing = true
is_eligible_freshness _ = false

-- Why Gate 0 keeps an event out, with the freshness that it reports.
pub data Exclusion : Type 0 where
  not_active : Option Inactivity → Exclusion
  state_not_eligible : Exclusion
  not_fresh_enough : FreshnessState → Exclusion
  no_thailand_link : FreshnessState → Exclusion

-- Conditions 1 to 5, which end the gate with the reason that they give.
abbrev pub active_or_excluded : ActivityDecision → Result Exclusion (Unit {0})
active_or_excluded decision = require decision.is_active (not_active decision.reason)

-- The conditions in the code's order; an event that passes shows its freshness.
unfoldable pub gate0 : Inputs → Event → Result Exclusion FreshnessState
gate0 inputs event = do
  active_or_excluded (
      is_active_at event inputs.evidence_by_id inputs.as_of (some inputs.registry)
        active_confirmation_window_days)
  require (situation_state_eligible event) state_not_eligible
  require (is_eligible_freshness (event_freshness_state inputs event))
      (not_fresh_enough (event_freshness_state inputs event))
  require (has_thailand_link inputs.country_code inputs.lanes event)
      (no_thailand_link (event_freshness_state inputs event))
  ok (event_freshness_state inputs event)
