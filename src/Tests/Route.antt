-- ===== src/Tests/Route.antt =====
-- Runs of the scan of the route ahead, of its advisories and of the output that drives them.
use signalk_activecaptain_re.Base.{
  ℕ, ◌≡◌, refl, true, Option, none, some, List, [], ◌∷◌, ◌++◌, any, arith,
}
use signalk_activecaptain_re.Base.Text.{Text, txt, text_beq, text_eq}
use signalk_activecaptain_re.Base.Equality.{◌==◌}
use signalk_activecaptain_re.Base.JsMap
use signalk_activecaptain_re.Base.JsMap.{JsMap}
use signalk_activecaptain_re.Base.Float.{Floats}
use signalk_activecaptain_re.Types.{PoiType, PoiSummary, num, undefined}
use signalk_activecaptain_re.Notification.Emitter.{
  alarming_on, sanitize_poi_id, is_path_safe, safe_unit,
}
use signalk_activecaptain_re.Notification.Tracker
use signalk_activecaptain_re.Notification.Tracker.{Tracker, IsSynced}
use signalk_activecaptain_re.Outputs.BridgeAirDraft.Resolver.{Resolver}
use signalk_activecaptain_re.Outputs.RouteHazard.CourseReader
use signalk_activecaptain_re.Outputs.RouteHazard.CourseReader.{RoutePolyline, Reader}
use signalk_activecaptain_re.Outputs.RouteHazard.Corridor.{
  CorridorPoi, RouteCorridorScanInput, scan_route_corridor, route_leg_points,
}
use signalk_activecaptain_re.Outputs.RouteHazard.Corridor.Laws.{
  hit, corridor_pois, legs_of, any-scan_route_corridor,
}
use signalk_activecaptain_re.Outputs.RouteHazard.Corridor.Nearest.{
  all_reported, scan_route_corridor_nearest,
}
use signalk_activecaptain_re.Outputs.RouteHazard.Alarms
use signalk_activecaptain_re.Outputs.RouteHazard.Alarms.{
  RouteEntry, BridgeClearanceVerdict, config, message_of,
}
use signalk_activecaptain_re.Outputs.RouteHazard.Alarms.Messages.{
  message_on, IsShown, evaluate_shows,
}
use signalk_activecaptain_re.Outputs.RouteHazard.Output
use signalk_activecaptain_re.Outputs.RouteHazard.Output.{
  RouteHazard, Readings, BridgeCheck, is_bridge, resolve_too_low_bridges,
}
use signalk_activecaptain_re.Outputs.RouteHazard.Output.Laws.{
  known_verdict, reported_ahead, get-resolve_too_low_bridges, tick_announces,
}
use signalk_activecaptain_re.Tests.Sample.{near_numbers, sample_app, sample_cache, at, sample_poi}

instance abbrev route_numbers : Floats ℕ
route_numbers = near_numbers

abbrev route : RoutePolyline ℕ
route = record {
  route_id = txt "r1";
  name = none;
  vessel_position = some (at 0 0);
  waypoints = at 4 0 ∷ [];
}

abbrev low_bridge : PoiSummary ℕ
low_bridge = sample_poi (txt "b1") PoiType.bridge (some 10) (at 2 0)

abbrev marina : PoiSummary ℕ
marina = sample_poi (txt "m1") PoiType.marina none (at 2 0)

abbrev pois : List (PoiSummary ℕ)
pois = low_bridge ∷ marina ∷ []

abbrev input : RouteCorridorScanInput ℕ
input = record {
  route = route;
  pois = pois;
  corridor_width_meters = 500;
  speed_over_ground = num 5;
}

any-scan_route_corridor_example :
    any (λ c. c.id == txt "b1") (scan_route_corridor input)
    ≡ any
        (λ leg. any (hit 500 (txt "b1") leg) (corridor_pois pois))
        (legs_of (route_leg_points route))
any-scan_route_corridor_example = any-scan_route_corridor input (txt "b1")

scan_route_corridor_nearest_example :
    all_reported 500 none
      (scan_route_corridor input)
      (corridor_pois pois)
      (legs_of (route_leg_points route))
    ≡ true
scan_route_corridor_nearest_example = scan_route_corridor_nearest input refl

abbrev empty_entries : Tracker RouteEntry
empty_entries = record { app = sample_app; active = [] }

empty_entries-IsSynced : IsSynced config empty_entries
unfolding alarming_on JsMap.get
empty_entries-IsSynced = record { keyed = λ k h. ground (arith, h); wire = λ k. refl }

empty_entries-IsShown : IsShown empty_entries
unfolding JsMap.get
empty_entries-IsShown k entry h = ground (arith, h)

abbrev flagged_bridge : CorridorPoi ℕ
flagged_bridge = record {
  id = txt "b1";
  type = PoiType.bridge;
  name = txt "Rock";
  position = at 2 0;
  along_track_distance_meters = 900;
  cross_track_distance_meters = 3;
  eta_seconds = some 120;
}

abbrev verdicts : JsMap Text (BridgeClearanceVerdict ℕ)
verdicts =
    (txt "b1", record { clearance_meters = 10; air_draft_meters = 12; margin_meters = 1 }) ∷ []

evaluate_shows_example :
    IsShown (Alarms.evaluate verdicts (flagged_bridge ∷ []) empty_entries)
    × (message_on
          (config.path_prefix ++ txt "b1")
          (Alarms.evaluate verdicts (flagged_bridge ∷ []) empty_entries).app.deltas
        ≡ some (message_of verdicts flagged_bridge))
unfolding sanitize_poi_id safe_unit is_path_safe text_beq
evaluate_shows_example =
    evaluate_shows verdicts (flagged_bridge ∷ []) empty_entries (txt "b1") flagged_bridge
      empty_entries-IsSynced empty_entries-IsShown refl refl

abbrev resolver : Resolver (JsMap Text (Option ℕ))
resolver = record { cache = []; in_flight = []; pending = [] }

get-resolve_too_low_bridges_example :
    JsMap.get
      (txt "b1")
      (resolve_too_low_bridges sample_cache (flagged_bridge ∷ []) pois (some 12) 1 resolver).0
    ≡ known_verdict sample_cache 12 1 [] (some low_bridge)
unfolding text_beq
get-resolve_too_low_bridges_example =
    get-resolve_too_low_bridges sample_cache 12 1 (flagged_bridge ∷ []) pois resolver (txt "b1")

abbrev readings : Readings ℕ
readings = record { position = none; speed_over_ground = some (num 5); air_height = some (num 12) }

abbrev running : RouteHazard ℕ (JsMap Text (Option ℕ))
running = record {
  corridor_width_meters = 500;
  bridge_check = some (record { margin_meters = 1; fallback_air_draft = undefined });
  tick_route = some route;
  alarms = empty_entries;
  resolver = resolver;
  course_reader = CourseReader.create;
}

tick_announces_example :
    IsSynced config (Output.evaluate sample_cache readings (at 0 0) pois running).alarms
    × (Tracker.has (txt "b1") (Output.evaluate sample_cache readings (at 0 0) pois running).alarms
        ≡ reported_ahead (some route) 500 readings (at 0 0) pois (txt "b1"))
unfolding sanitize_poi_id safe_unit is_path_safe
tick_announces_example =
    tick_announces sample_cache readings (at 0 0) pois running (txt "b1") empty_entries-IsSynced
