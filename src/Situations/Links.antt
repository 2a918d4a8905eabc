-- ===== src/Situations/Links.antt =====
-- analysis/situations.py: what _has_thailand_link looks for, over the lanes.
use logistics_situation_plat.Model.{Event}
use logistics_situation_plat.Situations.Lanes.{
  Lane, lane_by_id, lanes_for_node, lanes_for_chokepoint,
}
use logistics_situation_plat.Situations.Gate.{is_lane_of, has_thailand_link}
use logistics_situation_plat.Base.{
  or_iff, false, ◌⊎◌, ◌↔◌, ◌≡◌, Memᴰ, List, String, subst, any_of-found, any_of_mem, mem_map,
  map_mem, mem_keep, keep_mem, contains_mem, mem_contains, Option-cases, refl, some, inl, inr,
  string_eq, any_of, contains, keep, map, ◌||◌, true, Bool,
}

-- A lane id that the index resolves to a lane of the country.
pub record ServesCountry (country_code : String) (lanes : List Lane) (lane_id : String)
    : Type 0 where
  pub lane : Lane
  pub resolved : lane_by_id lane_id lanes ≡ some lane
  pub served : Memᴰ country_code lane.country_ids

-- One of the ids of an event is on a lane of the country, by the ids that `read` reads of a lane.
pub record IsOnLane (country_code : String) (lanes : List Lane) (read : Lane → List String)
    (ids : List String) : Type 0 where
  pub id : String
  pub named : Memᴰ id ids
  pub lane : Lane
  pub known : Memᴰ lane lanes
  pub touched : Memᴰ id (read lane)
  pub serves : ServesCountry country_code lanes lane.lane_id

-- The event names the country, a node or a chokepoint on a lane of the country, or such a lane.
abbrev pub IsLinked : String → List Lane → Event → Type 0
IsLinked country_code lanes event =
    Memᴰ country_code event.country_ids
    ⊎ IsOnLane country_code lanes (λ lane. lane.node_ids) event.node_ids
    ⊎ IsOnLane country_code lanes (λ lane. lane.chokepoint_ids) event.chokepoint_ids
    ⊎ ((lane_id : String) × Memᴰ lane_id event.lane_relevance
        × ServesCountry country_code lanes lane_id)

or_assoc : (a b c : Bool) → (a || b || c) ≡ (a || (b || c))
or_assoc true b c = refl
or_assoc false b c = refl

contains_iff : (ids : List String) (id : String) → (contains ids id ≡ true) ↔ Memᴰ id ids
contains_iff ids id = (contains_mem ids id, mem_contains ids id)

module _ (country_code : String) (lanes : List Lane) where
  is_lane_of_iff :
      (lane_id : String)
      → (is_lane_of country_code lanes lane_id ≡ true) ↔ ServesCountry country_code lanes lane_id
  unfolding is_lane_of
  is_lane_of_iff lane_id = (
    (λ h. elim (Option-cases (lane_by_id lane_id lanes)) [
      | inl e ↦ absurd (cc (rw (e, is_lane_of) at h))
      | inr (lane, e) ↦ record {
        lane = lane;
        resolved = e;
        served = contains_mem lane.country_ids country_code (rw (e, is_lane_of) at h);
      }
    ]),
    λ s. rw (s.resolved, is_lane_of) (mem_contains s.lane.country_ids country_code s.served),
  )

  -- The lanes that are listed for an id, and the search over the ids of an event.
  any_of-IsOnLane_iff :
      (read : Lane → List String) (ids : List String)
      → (any_of
            (λ id.
              any_of
                (is_lane_of country_code lanes)
                (map (λ lane. lane.lane_id) (keep (λ lane. contains (read lane) id) lanes)))
            ids
          ≡ true)
        ↔ IsOnLane country_code lanes read ids
  any_of-IsOnLane_iff read ids = (
    (λ h.
        let (id, named, h1) = any_of-found _ ids h in
        let (lane_id, m, served) = any_of-found (is_lane_of country_code lanes) _ h1 in
        let (lane, k, e) = mem_map (λ lane. lane.lane_id) _ m in
        let (known, touched) = mem_keep (λ lane. contains (read lane) id) lanes k in
        record {
          id = id;
          named = named;
          lane = lane;
          known = known;
          touched = contains_mem (read lane) id touched;
          serves =
              (is_lane_of_iff lane.lane_id).0
                (subst (λ each. is_lane_of country_code lanes each ≡ true) e served);
        }),
    λ o. any_of_mem _ ids o.named (
        any_of_mem (is_lane_of country_code lanes) _
          (map_mem (λ lane. lane.lane_id) _
            (keep_mem (λ lane. contains (read lane) o.id) lanes o.known
              (mem_contains (read o.lane) o.id o.touched)))
          ((is_lane_of_iff o.lane.lane_id).1 o.serves)),
  )

  relevant_iff :
      (ids : List String)
      → (any_of (is_lane_of country_code lanes) ids ≡ true)
        ↔ ((lane_id : String) × Memᴰ lane_id ids × ServesCountry country_code lanes lane_id)
  relevant_iff ids = (
    (λ h.
        let (lane_id, m, served) = any_of-found (is_lane_of country_code lanes) ids h in
        (lane_id, m, (is_lane_of_iff lane_id).0 served)),
    λ (lane_id, m, s).
        any_of_mem (is_lane_of country_code lanes) ids m ((is_lane_of_iff lane_id).1 s),
  )

  pub has_thailand_link-IsLinked_iff :
      (event : Event)
      → (has_thailand_link country_code lanes event ≡ true) ↔ IsLinked country_code lanes event
  unfolding has_thailand_link lanes_for_node lanes_for_chokepoint
  has_thailand_link-IsLinked_iff event =
      rw (or_assoc _ _ _, or_assoc _ _ _)
        (or_iff _ _ (contains_iff event.country_ids country_code) (
          or_iff _ _ (any_of-IsOnLane_iff (λ lane. lane.node_ids) event.node_ids) (
            or_iff _ _ (any_of-IsOnLane_iff (λ lane. lane.chokepoint_ids) event.chokepoint_ids)
              (relevant_iff event.lane_relevance))))
