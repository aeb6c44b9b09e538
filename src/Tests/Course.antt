-- ===== src/Tests/Course.antt =====
-- Runs of the course reader.
use signalk_activecaptain_re.Base.{ℕ, ◌≡◌, ◌≢◌, refl, false, none, some, [], ◌∷◌, arith}
use signalk_activecaptain_re.Base.Text.{txt, split_on, text_beq}
use signalk_activecaptain_re.Types.{Value, undefined, num, str, arr, obj, nil, cons, end, field}
use signalk_activecaptain_re.Outputs.RouteHazard.CourseReader.{
  RoutePolyline, ActiveRoute, Reader, parse_route_id, schedule_refresh, course_settled,
  resource_settled, resolved_route, stop, build_route_polyline, clamp_index, extract_coordinates,
  usable_positions, to_geo_json_position,
}
use signalk_activecaptain_re.Outputs.RouteHazard.CourseReader.Laws.{
  course, route_delta, settles, settle_all, run,
}
use signalk_activecaptain_re.Outputs.RouteHazard.CourseReader.Schedule.{
  latest_refresh_decides, stopped_stays_empty,
}
use signalk_activecaptain_re.Outputs.RouteHazard.CourseReader.Route.{
  travel_order, build_route_total,
}
use signalk_activecaptain_re.Shared.Numbers.{to_finite_number}
use signalk_activecaptain_re.Tests.Sample.{whole_numbers, at}

abbrev reader : Reader ℕ
reader = record { stopped = false; current_route = none; refresh_generation = 3; pending = [] }

abbrev point : ℕ → ℕ → Value ℕ
point longitude latitude = arr (cons (num longitude) (cons (num latitude) nil))

abbrev route_resource : Value ℕ
route_resource = obj (
    field (txt "feature")
      (obj (
        field (txt "geometry")
          (obj (field (txt "coordinates") (arr (cons (point 1 2) (cons (point 3 4) nil))) end))
          end))
      end)

abbrev active : ActiveRoute ℕ
active = record {
  href = str (txt "/resources/routes/r1");
  point_index = num 1;
  is_reverse = false;
  name = undefined;
}

latest_refresh_decides_example :
    (resource_settled 4 (some route_resource) (
      settle_all (course 2 none ∷ []) (
        course_settled 4
          (some (some active))
          (settle_all (course 3 (some none) ∷ []) (schedule_refresh reader))))).current_route
    ≡ resolved_route (txt "r1") active (some route_resource)
unfolding parse_route_id split_on
latest_refresh_decides_example =
    latest_refresh_decides reader (course 3 (some none) ∷ []) (course 2 none ∷ []) active (txt "r1")
      (some route_resource) refl refl (λ e. ground (arith, e), tt) (λ e. ground (arith, e), tt)

stopped_stays_empty_example :
    (run
      (route_delta (obj end) ∷ settles (course 4 (some (some active))) ∷ [])
      (stop reader)).current_route
    ≡ none
stopped_stays_empty_example =
    stopped_stays_empty (route_delta (obj end) ∷ settles (course 4 (some (some active))) ∷ [])
      reader refl

build_route_total_example :
    (built : RoutePolyline ℕ) × (build_route_polyline (txt "r1") active route_resource ≡ some built)
    × (built.waypoints ≡ at 4 3 ∷ [])
    × (built.waypoints ≢ [])
unfolding clamp_index travel_order extract_coordinates usable_positions to_geo_json_position
    text_beq to_finite_number
build_route_total_example =
    build_route_total (txt "r1") active route_resource (at 2 1 ∷ at 4 3 ∷ []) refl (omega arith)
