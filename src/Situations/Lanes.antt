-- ===== src/Situations/Lanes.antt =====
-- analysis/reference.py: the lane index. The lanes are data (data/reference/lanes.json), and stand
-- here as an argument.
use logistics_situation_plat.Base.{
  string_eq, contains, keep, collect, non_empty, map, not, ◌&&◌, ◌++◌, String, List, [], ◌∷◌,
  Option, none, some, ◌==◌, if◌then◌else◌,
}

-- One lane, with the keys that the index reads.
pub record Lane : Type 0 where
  pub lane_id : String
  pub mode : String
  pub country_ids : List String
  pub node_ids : List String
  pub chokepoint_ids : List String

-- `lane_by_id`: `none` is its KeyError.
unfoldable pub lane_by_id : String → List Lane → Option Lane
lane_by_id lane_id [] = none
lane_by_id lane_id (lane ∷ rest) =
    if lane.lane_id == lane_id then some lane else lane_by_id lane_id rest

unfoldable pub lanes_for_country : String → List Lane → List String
lanes_for_country country_id lanes =
    map (λ lane. lane.lane_id) (keep (λ lane. contains lane.country_ids country_id) lanes)

unfoldable pub lanes_for_node : String → List Lane → List String
lanes_for_node node_id lanes =
    map (λ lane. lane.lane_id) (keep (λ lane. contains lane.node_ids node_id) lanes)

unfoldable pub lanes_for_chokepoint : String → List Lane → List String
lanes_for_chokepoint chokepoint_id lanes =
    map (λ lane. lane.lane_id) (keep (λ lane. contains lane.chokepoint_ids chokepoint_id) lanes)

unfoldable pub lanes_for_mode : String → List Lane → List String
lanes_for_mode mode_id lanes =
    map (λ lane. lane.lane_id) (keep (λ lane. lane.mode == mode_id) lanes)

-- Why a lane was matched.
pub data MatchReason : Type 0 where
  includes_country includes_node transits_chokepoint : String → MatchReason

unfoldable pub lane_reasons : List String → List String → List String → Lane → List MatchReason
lane_reasons country_ids node_ids chokepoint_ids lane =
    map includes_country (keep (contains lane.country_ids) country_ids)
    ++ map includes_node (keep (contains lane.node_ids) node_ids)
    ++ map transits_chokepoint (keep (contains lane.chokepoint_ids) chokepoint_ids)

-- The touched lanes with their reasons, in the order of the lanes; no mode leaves every lane in.
unfoldable pub resolve_lane_relevance :
    List String
    → List String
    → List String
    → List String
    → List Lane
    → List (String × List MatchReason)
resolve_lane_relevance country_ids node_ids chokepoint_ids modes lanes =
    collect
      (λ lane.
        let reasons = lane_reasons country_ids node_ids chokepoint_ids lane in
        if non_empty modes && not (contains modes lane.mode)
        then none
        else (if non_empty reasons then some (lane.lane_id, reasons) else none))
      lanes
