-- ===== src/Outputs/RouteHazard/Corridor.antt =====
-- src/outputs/route-hazard/route-corridor.ts: the scan of the route ahead for hazards, bridges and
-- locks. `Array.prototype.sort` is stable, and is an insertion sort here.
pub mod Laws
pub mod Nearest
use signalk_activecaptain_re.Base.{
  Bool, true, false, ◌&&◌, ◌||◌, not, Option, none, some, List, [], ◌∷◌, map, filter, if◌then◌else◌,
}
use signalk_activecaptain_re.Base.Text.{Text, text_eq}
use signalk_activecaptain_re.Base.JsMap
use signalk_activecaptain_re.Base.JsMap.{JsMap}
use signalk_activecaptain_re.Base.Float.{Floats, lit}
use signalk_activecaptain_re.Types.{PoiType, poi_type_beq, Position, PoiSummary, Value}
use signalk_activecaptain_re.Geo.{distance_meters, initial_bearing_rad, project_point_onto_leg}
use signalk_activecaptain_re.Shared.Numbers.{positive_finite_number}
use signalk_activecaptain_re.Outputs.RouteHazard.CourseReader.{RoutePolyline}

pub record CorridorPoi (N : Type 0) : Type 0 where
  pub id : Text
  pub type : PoiType
  pub name : Text
  pub position : Position N
  pub along_track_distance_meters : N
  pub cross_track_distance_meters : N
  pub eta_seconds : Option N

pub record RouteCorridorScanInput (N : Type 0) : Type 0 where
  pub route : RoutePolyline N
  pub pois : List (PoiSummary N)
  pub corridor_width_meters : N
  pub speed_over_ground : Value N

-- What the loop over the points of interest reads of its leg: its start and end, its bearing and
-- length, and the length of the route before it.
pub record Leg (N : Type 0) : Type 0 where
  pub start : Position N
  pub end : Position N
  pub bearing_to_end : N
  pub leg_length_meters : N
  pub route_distance_to_leg_start : N

unfoldable pub is_corridor_type : PoiType → Bool
is_corridor_type type =
    poi_type_beq type PoiType.hazard
    || poi_type_beq type PoiType.bridge
    || poi_type_beq type PoiType.lock

module _ {N : Type 0} ⦃F : Floats N⦄ where
  abbrev pub lead : Option (Position N) → List (Position N) → List (Position N)
  lead none waypoints = waypoints
  lead (some position) waypoints = position ∷ waypoints

  unfoldable pub route_leg_points : RoutePolyline N → List (Position N)
  route_leg_points route = lead route.vessel_position route.waypoints

  -- A leg of zero or no finite length has no direction.
  unfoldable pub is_usable : Position N → Position N → Bool
  is_usable start end =
      let leg_length = distance_meters start end in
      not (not (F.is_finite leg_length) || F.same leg_length (lit 0))

  unfoldable pub leg_between : Position N → Position N → N → Leg N
  leg_between start end distance = record {
    start = start;
    end = end;
    bearing_to_end = initial_bearing_rad start end;
    leg_length_meters = distance_meters start end;
    route_distance_to_leg_start = distance;
  }

  abbrev pub projection : Leg N → PoiSummary N → N × N
  projection leg poi = project_point_onto_leg leg.start poi.position leg.bearing_to_end

  -- The guards of the loop, by the cross-track and the along-track distance.
  unfoldable pub in_corridor : N → Leg N → PoiSummary N → Bool
  in_corridor width leg poi =
      let p = projection leg poi in
      not (not (F.is_finite p.0) || not (F.is_finite p.1))
      && (not (F.lt width (F.abs p.0)) && not (F.lt p.1 (lit 0) || F.lt leg.leg_length_meters p.1))

  -- Whether an earlier projection is reported instead of a new one.
  unfoldable pub keeps_existing : N → N → Option (CorridorPoi N) → Bool
  keeps_existing cross along none = false
  keeps_existing cross along (some existing) =
      let existing_cross = F.abs existing.cross_track_distance_meters in
      F.lt existing_cross (F.abs cross)
      || (F.same existing_cross (F.abs cross) && F.le existing.along_track_distance_meters along)

  abbrev pub eta : N → Option N → Option N
  eta along none = none
  eta along (some sog) = some (F.div along sog)

  abbrev pub corridor_poi : Option N → Leg N → PoiSummary N → CorridorPoi N
  corridor_poi sog leg poi =
      let p = projection leg poi in
      let along = F.add leg.route_distance_to_leg_start p.1 in
      record {
        id = poi.id;
        type = poi.type;
        name = poi.name;
        position = poi.position;
        along_track_distance_meters = along;
        cross_track_distance_meters = p.0;
        eta_seconds = eta along sog;
      }

  module _ (width : N) (sog : Option N) where
    -- One round of the loop over the points of interest.
    unfoldable pub flag_one :
        Leg N → PoiSummary N → JsMap Text (CorridorPoi N) → JsMap Text (CorridorPoi N)
    unfolding in_corridor keeps_existing
    flag_one leg poi flagged =
        let c = corridor_poi sog leg poi in
        if not (in_corridor width leg poi)
        then flagged
        else if keeps_existing c.cross_track_distance_meters c.along_track_distance_meters
            (JsMap.get poi.id flagged)
        then flagged
        else JsMap.set poi.id c flagged

    unfoldable pub flag_leg :
        Leg N → List (PoiSummary N) → JsMap Text (CorridorPoi N) → JsMap Text (CorridorPoi N)
    unfolding flag_one
    flag_leg leg [] flagged = flagged
    flag_leg leg (poi ∷ pois) flagged = flag_leg leg pois (flag_one leg poi flagged)

    -- One round of the loop over the legs: the length of the route so far, and what is flagged.
    unfoldable pub flag_next :
        List (PoiSummary N)
        → Position N
        → Position N
        → N
        → JsMap Text (CorridorPoi N)
        → N × JsMap Text (CorridorPoi N)
    unfolding flag_leg is_usable leg_between
    flag_next pois start end distance flagged =
        if not (is_usable start end) then (distance, flagged) else (
          F.add distance (distance_meters start end),
          flag_leg (leg_between start end distance) pois flagged,
        )

    -- The loop over the legs, from the start of the next one on.
    unfoldable pub flag_legs :
        List (PoiSummary N)
        → N
        → Position N
        → List (Position N)
        → JsMap Text (CorridorPoi N)
        → JsMap Text (CorridorPoi N)
    unfolding flag_next
    flag_legs pois distance start [] flagged = flagged
    flag_legs pois distance start (end ∷ points) flagged =
        let next = flag_next pois start end distance flagged in
        flag_legs pois next.0 end points next.1

  abbrev pub nearer_first : CorridorPoi N → List (CorridorPoi N) → List (CorridorPoi N)
  nearer_first c [] = c ∷ []
  nearer_first c (d ∷ ds) =
      let rest = nearer_first c ds in
      if F.lt (lit 0) (F.sub c.along_track_distance_meters d.along_track_distance_meters)
      then d ∷ rest
      else c ∷ d ∷ ds

  unfoldable pub sort_by_along : List (CorridorPoi N) → List (CorridorPoi N)
  sort_by_along [] = []
  sort_by_along (c ∷ cs) = nearer_first c (sort_by_along cs)

  -- The scan of the points of a route; a route of fewer than two has no leg.
  unfoldable pub scan_points :
      N → Option N → List (PoiSummary N) → List (Position N) → List (CorridorPoi N)
  unfolding flag_legs sort_by_along is_corridor_type
  scan_points width sog pois [] = []
  scan_points width sog pois (start ∷ points) =
      if not (F.lt (lit 0) width)
      then []
      else sort_by_along (
          map (λ p. p.1)
            (flag_legs width sog (filter (λ p. is_corridor_type p.type) pois) (lit 0) start points
              []))

  unfoldable pub scan_route_corridor : RouteCorridorScanInput N → List (CorridorPoi N)
  unfolding scan_points route_leg_points
  scan_route_corridor input =
      scan_points input.corridor_width_meters (positive_finite_number input.speed_over_ground)
        input.pois (route_leg_points input.route)
