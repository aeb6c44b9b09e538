-- ===== src/Outputs/RouteHazard/Output.antt =====
-- src/outputs/route-hazard/route-hazard-output.ts: the output that scans the route on every tick of
-- the position monitor. A reading of the data model is an argument, `none` where it throws.
pub mod Laws
use signalk_activecaptain_re.Base.{
  Bool, true, false, Option, none, some, List, [], ◌∷◌, filter, if◌then◌else◌,
}
use signalk_activecaptain_re.Base.Text.{Text, txt, text_eq}
use signalk_activecaptain_re.Base.JsMap
use signalk_activecaptain_re.Base.JsMap.{JsMap}
use signalk_activecaptain_re.Base.Float.{Floats, lit}
use signalk_activecaptain_re.Base.Lru.{Lru}
use signalk_activecaptain_re.Types.{
  PoiType, poi_type_beq, Position, Bbox, PoiSummary, Value, null, num, Fields, obj, bool,
  property_of,
}
use signalk_activecaptain_re.Geo.{distance_meters, position_to_bbox, union_bbox}
use signalk_activecaptain_re.Shared.Numbers.{positive_finite_number}
use signalk_activecaptain_re.Shared.BridgeClearance.{
  bridge_blocks_vessel, clamp_clearance_margin, read_vessel_air_draft,
}
use signalk_activecaptain_re.Notification.Tracker
use signalk_activecaptain_re.Notification.Tracker.{Tracker}
use signalk_activecaptain_re.Monitoring.{FetchBox, box, no_box, throws}
use signalk_activecaptain_re.Outputs.BridgeAirDraft.Resolver.{Resolver, clearance_meters}
use signalk_activecaptain_re.Outputs.RouteHazard.CourseReader
use signalk_activecaptain_re.Outputs.RouteHazard.CourseReader.{
  Reader, RoutePolyline, get_route_ahead, read_speed_over_ground,
}
use signalk_activecaptain_re.Outputs.RouteHazard.Corridor.{
  CorridorPoi, RouteCorridorScanInput, route_leg_points, scan_route_corridor,
}
use signalk_activecaptain_re.Outputs.RouteHazard.Alarms.{RouteEntry, BridgeClearanceVerdict, config}
use signalk_activecaptain_re.Outputs.RouteHazard.Alarms

pub record BridgeCheck (N : Type 0) : Type 0 where
  pub margin_meters : N
  pub fallback_air_draft : Value N

-- The variables of a started output. The resolver is there whether or not the check is on.
pub record RouteHazard (N C : Type 0) : Type 0 where
  pub corridor_width_meters : N
  pub bridge_check : Option (BridgeCheck N)
  pub tick_route : Option (RoutePolyline N)
  pub alarms : Tracker RouteEntry
  pub resolver : Resolver C
  pub course_reader : Reader N

-- What the output reads of the data model during a tick.
pub record Readings (N : Type 0) : Type 0 where
  pub position : Option (Value N)
  pub speed_over_ground : Option (Value N)
  pub air_height : Option (Value N)

module _ {N : Type 0} ⦃F : Floats N⦄ where
  abbrev pub default_route_corridor_width_meters : N
  default_route_corridor_width_meters = lit 500

  -- Ten nautical miles.
  abbrev pub route_look_ahead_meters : N
  route_look_ahead_meters = F.mul (lit 10) (lit 1852)

  abbrev traveled_to : Option (Position N) → Position N → N → N
  traveled_to none point traveled = traveled
  traveled_to (some previous) point traveled = F.add traveled (distance_meters previous point)

  -- `none` is a `positionToBbox` or a `unionBbox` that throws.
  abbrev grow : Option (Bbox N) → Option (Bbox N) → Option (Bbox N)
  grow bbox none = none
  grow none (some point_box) = some point_box
  grow (some b) (some point_box) = union_bbox b point_box

  unfoldable pub corridor_box :
      N → List (Position N) → N → Option (Position N) → Option (Bbox N) → Option (Option (Bbox N))
  corridor_box width [] traveled previous bbox = some bbox
  corridor_box width (point ∷ points) traveled previous bbox =
      let traveled_meters = traveled_to previous point traveled in
      elim (grow bbox (position_to_bbox point width)) [
        | none ↦ none
        | some next ↦
            let rest = corridor_box width points traveled_meters (some point) (some next) in
            if F.le route_look_ahead_meters traveled_meters then some (some next) else rest
      ]

  unfoldable pub route_corridor_bbox : RoutePolyline N → N → Option (Option (Bbox N))
  unfolding corridor_box route_leg_points
  route_corridor_bbox route width = corridor_box width (route_leg_points route) (lit 0) none none

  abbrev as_fetch_box : Option (Option (Bbox N)) → FetchBox N
  as_fetch_box none = throws
  as_fetch_box (some none) = no_box
  as_fetch_box (some (some b)) = box b

  unfoldable pub by_summary_id :
      List (PoiSummary N) → JsMap Text (PoiSummary N) → JsMap Text (PoiSummary N)
  by_summary_id [] m = m
  by_summary_id (poi ∷ pois) m = by_summary_id pois (JsMap.set poi.id poi m)

  abbrev pub is_bridge : CorridorPoi N → Bool
  is_bridge poi = poi_type_beq poi.type PoiType.bridge

  -- The verdict on a bridge with the given clearance, or nothing where it does not block.
  unfoldable pub verdict_on : N → N → Option N → Option (BridgeClearanceVerdict N)
  verdict_on air_draft margin none = none
  verdict_on air_draft margin (some clearance) =
      if bridge_blocks_vessel (some clearance) (some air_draft) margin
      then some (record {
        clearance_meters = clearance;
        air_draft_meters = air_draft;
        margin_meters = margin;
      })
      else none

  abbrev pub set_verdict :
      Text
      → Option (BridgeClearanceVerdict N)
      → JsMap Text (BridgeClearanceVerdict N)
      → JsMap Text (BridgeClearanceVerdict N)
  set_verdict id none m = m
  set_verdict id (some verdict) m = JsMap.set id verdict m

  module _ {C : Type 0} (lru : Lru C (Option N)) (air_draft margin : N)
      (summaries : JsMap Text (PoiSummary N)) where
    -- The part of the loop behind the look-up of the summary.
    abbrev pub judge_with :
        Text
        → Option (PoiSummary N)
        → JsMap Text (BridgeClearanceVerdict N)
        → Resolver C
        → JsMap Text (BridgeClearanceVerdict N) × Resolver C
    judge_with id none m r = (m, r)
    judge_with id (some summary) m r =
        let (clearance, after) = clearance_meters lru summary r in
        (set_verdict id (verdict_on air_draft margin clearance) m, after)

    unfoldable pub judge_all :
        List (CorridorPoi N)
        → JsMap Text (BridgeClearanceVerdict N)
        → Resolver C
        → JsMap Text (BridgeClearanceVerdict N) × Resolver C
    unfolding verdict_on
    judge_all [] m r = (m, r)
    judge_all (poi ∷ pois) m r =
        let one = judge_with poi.id (JsMap.get poi.id summaries) m r in judge_all pois one.0 one.1

  abbrev speed_value : Option N → Value N
  speed_value none = null
  speed_value (some sog) = num sog

  abbrev pub is_ahead : CorridorPoi N → Bool
  is_ahead poi = F.le poi.along_track_distance_meters route_look_ahead_meters

  abbrev pub scan_input :
      RoutePolyline N → N → Readings N → Position N → List (PoiSummary N) → RouteCorridorScanInput N
  scan_input route width readings vessel pois = record {
    route = record route { vessel_position = some vessel };
    pois = pois;
    corridor_width_meters = width;
    speed_over_ground = speed_value (read_speed_over_ground readings.speed_over_ground);
  }

  unfoldable pub corridor_ahead :
      Option (RoutePolyline N)
      → N
      → Readings N
      → Position N
      → List (PoiSummary N)
      → List (CorridorPoi N)
  corridor_ahead none width readings vessel pois = []
  corridor_ahead (some route) width readings vessel pois =
      filter is_ahead (scan_route_corridor (scan_input route width readings vessel pois))

  module _ {C : Type 0} (lru : Lru C (Option N)) where
    unfoldable pub resolve_too_low_bridges :
        List (CorridorPoi N)
        → List (PoiSummary N)
        → Option N
        → N
        → Resolver C
        → JsMap Text (BridgeClearanceVerdict N) × Resolver C
    unfolding judge_all by_summary_id
    resolve_too_low_bridges corridor_pois pois none margin r = ([], r)
    resolve_too_low_bridges corridor_pois pois (some air_draft) margin r =
        judge_all lru air_draft margin (by_summary_id pois []) (filter is_bridge corridor_pois) [] r

    unfoldable pub build_fetch_box :
        Option (Value N) → Position N → RouteHazard N C → FetchBox N × RouteHazard N C
    unfolding route_corridor_bbox get_route_ahead
    build_fetch_box reading tick_position s = elim (get_route_ahead reading s.course_reader) [
      | none ↦ (no_box, record s { tick_route = none })
      | some raw ↦
          let route = record raw { vessel_position = some tick_position } in
          (
            as_fetch_box (route_corridor_bbox route s.corridor_width_meters),
            record s { tick_route = some route },
          )
    ]

    unfoldable pub too_low_with :
        Option (BridgeCheck N)
        → Readings N
        → List (CorridorPoi N)
        → List (PoiSummary N)
        → Resolver C
        → JsMap Text (BridgeClearanceVerdict N) × Resolver C
    unfolding resolve_too_low_bridges
    too_low_with none readings corridor_pois pois r = ([], r)
    too_low_with (some check) readings corridor_pois pois r =
        resolve_too_low_bridges corridor_pois pois
          (read_vessel_air_draft readings.air_height check.fallback_air_draft) check.margin_meters r

    unfoldable pub evaluate :
        Readings N → Position N → List (PoiSummary N) → RouteHazard N C → RouteHazard N C
    unfolding corridor_ahead too_low_with
    evaluate readings vessel pois s =
        let corridor_pois =
          corridor_ahead s.tick_route s.corridor_width_meters readings vessel pois in
        let too_low = too_low_with s.bridge_check readings corridor_pois pois s.resolver in
        record s { alarms = Alarms.evaluate too_low.0 corridor_pois s.alarms; resolver = too_low.1 }

    unfoldable pub stop : RouteHazard N C → RouteHazard N C
    stop s = record s {
      alarms = Tracker.clear_all config s.alarms;
      course_reader = CourseReader.stop s.course_reader;
    }

    abbrev width_or_default : Option N → N
    width_or_default none = default_route_corridor_width_meters
    width_or_default (some width) = width

    abbrev check_of : Value N → Fields N → Option (BridgeCheck N)
    check_of (bool true) settings = some (record {
      margin_meters =
          clamp_clearance_margin (property_of (txt "bridgeClearanceMarginMeters") (obj settings));
      fallback_air_draft = property_of (txt "vesselAirDraftMeters") (obj settings);
    })
    check_of _ settings = none

    -- The output as `start` leaves it, with a fresh tracker and a fresh resolver.
    unfoldable pub start : Fields N → Tracker RouteEntry → Resolver C → RouteHazard N C
    start settings tracker resolver = record {
      corridor_width_meters =
          width_or_default
            (positive_finite_number (property_of (txt "routeCorridorWidthMeters") (obj settings)));
      bridge_check =
          check_of (property_of (txt "enableBridgeAirDraftCheck") (obj settings)) settings;
      tick_route = none;
      alarms = tracker;
      resolver = resolver;
      course_reader = CourseReader.create;
    }

    -- `config.enableRouteHazardScan === true`
    unfoldable pub is_enabled : Value N → Bool
    is_enabled (bool b) = b
    is_enabled _ = false
