-- ===== src/Outputs/RouteHazard/CourseReader.antt =====
-- src/outputs/route-hazard/course-reader.ts. A refresh waits twice, for the course and for the route
-- resource; the pending promises are part of the state, and the stream deltas, the promises that
-- settle and the stop are the events.
pub mod Laws
pub mod Schedule
pub mod Route
use signalk_activecaptain_re.Base.{
  ℕ, zero, suc, ◌+◌, ◌-◌, Bool, true, false, ◌&&◌, ◌||◌, not, Option, none, some, List, [], ◌∷◌,
  ◌++◌, if◌then◌else◌, nat_beq, leb, length, drop, filter, any, reverse, get_last?,
}
use signalk_activecaptain_re.Base.Text.{Text, txt, split_on}
use signalk_activecaptain_re.Base.Float.{Floats, lit}
use signalk_activecaptain_re.Types.{
  Value, undefined, null, bool, num, str, arr, obj, Items, nil, cons, property_of, Position,
}
use signalk_activecaptain_re.Geo.{to_position}
use signalk_activecaptain_re.Shared.Numbers.{to_finite_number}

pub record RoutePolyline (N : Type 0) : Type 0 where
  pub route_id : Text
  pub name : Option Text
  pub vessel_position : Option (Position N)
  pub waypoints : List (Position N)

-- The part of the course's `activeRoute` that the reader looks at.
pub record ActiveRoute (N : Type 0) : Type 0 where
  pub href : Value N
  pub point_index : Value N
  pub is_reverse : Bool
  pub name : Value N

abbrev pub is_empty {ℓ} : {A : Type ℓ} → List A → Bool
is_empty [] = true
is_empty (x ∷ xs) = false

-- The final non-empty path segment of the href.
unfoldable pub parse_route_id : {N : Type 0} → Value N → Option Text
parse_route_id (str href) = get_last? (filter (λ s. not (is_empty s)) (split_on b'/' href))
parse_route_id _ = none

module _ {N : Type 0} ⦃F : Floats N⦄ where
  abbrev pub both_coordinates : Option N → Option N → Option (Position N)
  both_coordinates (some lon) (some lat) = some (record { latitude = lat; longitude = lon })
  both_coordinates _ _ = none

  unfoldable pub to_geo_json_position : Value N → Option (Position N)
  to_geo_json_position (arr (cons longitude (cons latitude rest))) =
      both_coordinates (to_finite_number longitude) (to_finite_number latitude)
  to_geo_json_position _ = none

  abbrev pub cons_some : Option (Position N) → List (Position N) → List (Position N)
  cons_some none ps = ps
  cons_some (some p) ps = p ∷ ps

  -- The usable entries of the coordinates, in order.
  unfoldable pub usable_positions : Items N → List (Position N)
  usable_positions nil = []
  usable_positions (cons entry rest) =
      cons_some (to_geo_json_position entry) (usable_positions rest)

  abbrev pub non_empty : List (Position N) → Option (List (Position N))
  non_empty [] = none
  non_empty (p ∷ ps) = some (p ∷ ps)

  abbrev pub coordinates_of : Value N → Option (List (Position N))
  coordinates_of (arr entries) = non_empty (usable_positions entries)
  coordinates_of _ = none

  -- `resource.feature?.geometry?.coordinates`
  abbrev pub route_geometry : Value N → Value N
  route_geometry resource =
      property_of (txt "coordinates")
        (property_of (txt "geometry") (property_of (txt "feature") resource))

  unfoldable pub extract_coordinates : Value N → Option (List (Position N))
  extract_coordinates resource = coordinates_of (route_geometry resource)

  unfoldable pub clamp_index : Value N → ℕ → ℕ
  clamp_index (num index) n =
      if not (F.is_finite index) || F.lt index (lit 0)
      then 0
      else if F.lt (lit (n - 1)) index
      then n - 1
      else F.to_nat index
  clamp_index _ n = 0

  abbrev pub route_name : Value N → Option Text
  route_name (str []) = none
  route_name (str (c ∷ s)) = some (c ∷ s)
  route_name _ = none

  abbrev pub route_of : Text → Value N → List (Position N) → Option (RoutePolyline N)
  route_of route_id name [] = none
  route_of route_id name (p ∷ ps) = some (record {
    route_id = route_id;
    name = route_name name;
    vessel_position = none;
    waypoints = p ∷ ps;
  })

  unfoldable pub build_route_polyline : Text → ActiveRoute N → Value N → Option (RoutePolyline N)
  build_route_polyline route_id active_route resource = elim (extract_coordinates resource) [
    | none ↦ none
    | some coordinates ↦
        let travel_order = if active_route.is_reverse then reverse coordinates else coordinates in
        let point_index = clamp_index active_route.point_index (length travel_order) in
        route_of route_id active_route.name (drop point_index travel_order)
  ]

-- Where a refresh waits, with its generation.
pub data Pending (N : Type 0) : Type 0 where
  awaiting_course : ℕ → Pending N
  awaiting_resource : ℕ → Text → ActiveRoute N → Pending N

pub record Reader (N : Type 0) : Type 0 where
  pub stopped : Bool
  pub current_route : Option (RoutePolyline N)
  pub refresh_generation : ℕ
  pub pending : List (Pending N)

module _ {N : Type 0} ⦃F : Floats N⦄ where
  unfoldable pub apply_refresh : ℕ → Option (RoutePolyline N) → Reader N → Reader N
  apply_refresh generation route r =
      if r.stopped || not (nat_beq generation r.refresh_generation)
      then r
      else record r { current_route = route }

  -- The start of a refresh, up to the wait for the course.
  unfoldable pub schedule_refresh : Reader N → Reader N
  schedule_refresh r = if r.stopped then r else record r {
    refresh_generation = r.refresh_generation + 1;
    pending = awaiting_course (r.refresh_generation + 1) ∷ r.pending;
  }

  abbrev pub is_course : ℕ → Pending N → Bool
  is_course g (awaiting_course h) = nat_beq g h
  is_course g (awaiting_resource h id route) = false

  abbrev pub is_resource : ℕ → Pending N → Bool
  is_resource g (awaiting_course h) = false
  is_resource g (awaiting_resource h id route) = nat_beq g h

  unfoldable pub drop_pending : (Pending N → Bool) → List (Pending N) → List (Pending N)
  drop_pending p [] = []
  drop_pending p (x ∷ xs) = if p x then xs else x ∷ drop_pending p xs

  abbrev pub await_resource : ℕ → ActiveRoute N → Option Text → Reader N → Reader N
  await_resource g active_route none r = apply_refresh g none r
  await_resource g active_route (some route_id) r = record r {
    pending = awaiting_resource g route_id active_route ∷ r.pending;
  }

  -- The course that was read, or `none` for a read that failed; `some none` has no active route.
  abbrev pub after_course : ℕ → Option (Option (ActiveRoute N)) → Reader N → Reader N
  after_course g none r = apply_refresh g none r
  after_course g (some none) r = apply_refresh g none r
  after_course g (some (some active_route)) r =
      await_resource g active_route (parse_route_id active_route.href) r

  unfoldable pub course_settled : ℕ → Option (Option (ActiveRoute N)) → Reader N → Reader N
  unfolding apply_refresh drop_pending
  course_settled g outcome r =
      if any (is_course g) r.pending
      then after_course g outcome (record r { pending = drop_pending (is_course g) r.pending })
      else r

  abbrev pub find_resource : ℕ → List (Pending N) → Option (Text × ActiveRoute N)
  find_resource g [] = none
  find_resource g (awaiting_course h ∷ xs) = find_resource g xs
  find_resource g (awaiting_resource h id route ∷ xs) =
      if nat_beq g h then some (id, route) else find_resource g xs

  -- The resource that was fetched, which is an object as its type says, or `none` for a fetch that
  -- failed.
  abbrev pub resolved_route : Text → ActiveRoute N → Option (Value N) → Option (RoutePolyline N)
  resolved_route route_id active_route none = none
  resolved_route route_id active_route (some resource) =
      build_route_polyline route_id active_route resource

  unfoldable pub resource_settled : ℕ → Option (Value N) → Reader N → Reader N
  unfolding apply_refresh drop_pending
  resource_settled g outcome r = elim (find_resource g r.pending) [
    | none ↦ r
    | some (route_id, active_route) ↦
        apply_refresh g (resolved_route route_id active_route outcome)
          (record r { pending = drop_pending (is_resource g) r.pending })
  ]

  unfoldable pub on_active_route_delta : Value N → Reader N → Reader N
  unfolding schedule_refresh
  on_active_route_delta null r =
      if r.stopped
      then r
      else record r { refresh_generation = r.refresh_generation + 1; current_route = none }
  on_active_route_delta _ r = schedule_refresh r

  unfoldable pub stop : Reader N → Reader N
  stop r = if r.stopped then r else record r { stopped = true; current_route = none }

  -- `none` for a reading of the data model is a read that throws.
  abbrev pub read_position : Option (Value N) → Option (Position N)
  read_position none = none
  read_position (some raw) = to_position raw

  abbrev pub read_speed_over_ground : Option (Value N) → Option N
  read_speed_over_ground none = none
  read_speed_over_ground (some raw) = to_finite_number raw

  unfoldable pub get_route_ahead : Option (Value N) → Reader N → Option (RoutePolyline N)
  get_route_ahead reading r = elim r.current_route [
    | none ↦ none
    | some route ↦ some (record route { vessel_position = read_position reading })
  ]

  -- A reader is created with its first refresh under way.
  unfoldable pub create : Reader N
  unfolding schedule_refresh
  create =
      schedule_refresh
        (record { stopped = false; current_route = none; refresh_generation = 0; pending = [] })
