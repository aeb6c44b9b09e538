-- ===== src/Geo.antt =====
-- src/geo/position-utilities.ts over the floating-point operations of the run. A call that throws
-- is `none`.
use signalk_activecaptain_re.Base.{Bool, ◌&&◌, ◌||◌, not, Option, none, some, if◌then◌else◌}
use signalk_activecaptain_re.Base.Text.{txt}
use signalk_activecaptain_re.Base.Float.{Floats, lit}
use signalk_activecaptain_re.Shared.Numbers.{is_valid_latitude, is_valid_longitude}
use signalk_activecaptain_re.Types.{Position, Bbox, Value, obj, property_of}

module _ {N : Type 0} ⦃F : Floats N⦄ where
  unfoldable pub to_radians : N → N
  to_radians degrees = F.div (F.mul degrees F.pi) (lit 180)

  unfoldable pub to_degrees : N → N
  to_degrees radians = F.div (F.mul radians (lit 180)) F.pi

  unfoldable pub normalize_longitude : N → N
  normalize_longitude longitude =
      F.sub (F.remainder (F.add longitude (lit 540)) (lit 360)) (lit 180)

  abbrev pub earth_radius_km : N
  earth_radius_km = lit 6371

  -- The position of a value that holds a usable latitude and longitude.
  unfoldable pub to_position : Value N → Option (Position N)
  to_position (obj fields) = elim (is_valid_latitude (property_of (txt "latitude") (obj fields))) [
    | none ↦ none
    | some latitude ↦ elim (is_valid_longitude (property_of (txt "longitude") (obj fields))) [
      | none ↦ none
      | some longitude ↦ some (record { latitude = latitude; longitude = longitude })
    ]
  ]
  to_position _ = none

  unfoldable pub project_position : Position N → N → N → Position N
  unfolding to_radians to_degrees normalize_longitude
  project_position position bearing_degrees distance_km =
      let latitude_rad = to_radians position.latitude in
      let longitude_rad = to_radians position.longitude in
      let bearing_rad = to_radians bearing_degrees in
      let angular_distance = F.div distance_km earth_radius_km in
      let sine_new_latitude =
        F.add (F.mul (F.sin latitude_rad) (F.cos angular_distance))
          (F.mul (F.mul (F.cos latitude_rad) (F.sin angular_distance)) (F.cos bearing_rad)) in
      let new_latitude_rad = F.asin (F.min (lit 1) (F.max (F.neg (lit 1)) sine_new_latitude)) in
      let new_longitude_rad = F.add longitude_rad (
        F.atan2 (F.mul (F.mul (F.sin bearing_rad) (F.sin angular_distance)) (F.cos latitude_rad))
          (F.sub (F.cos angular_distance) (F.mul (F.sin latitude_rad) (F.sin new_latitude_rad)))) in
      record {
        latitude = to_degrees new_latitude_rad;
        longitude = normalize_longitude (to_degrees new_longitude_rad);
      }

  unfoldable pub distance_meters : Position N → Position N → N
  unfolding to_radians
  distance_meters a b =
      let latitude_a = to_radians a.latitude in
      let latitude_b = to_radians b.latitude in
      let delta_latitude = to_radians (F.sub b.latitude a.latitude) in
      let delta_longitude = to_radians (F.sub b.longitude a.longitude) in
      let haversine = F.add (F.pow (F.sin (F.div delta_latitude (lit 2))) (lit 2)) (
        F.mul (F.mul (F.cos latitude_a) (F.cos latitude_b))
          (F.pow (F.sin (F.div delta_longitude (lit 2))) (lit 2))) in
      let angular_distance =
        F.mul (lit 2)
          (F.atan2 (F.sqrt haversine) (F.sqrt (F.max (lit 0) (F.sub (lit 1) haversine)))) in
      F.mul (F.mul earth_radius_km (lit 1000)) angular_distance

  unfoldable pub position_to_bbox : Position N → N → Option (Bbox N)
  unfolding project_position
  position_to_bbox position radius =
      let corner_distance_km = F.div (F.mul radius F.sqrt2) (lit 1000) in
      let north_west = project_position position (F.neg (lit 45)) corner_distance_km in
      let south_east = project_position position (lit 135) corner_distance_km in
      if not (F.is_finite position.latitude) || not (F.is_finite position.longitude)
      then none
      else if not (F.is_finite radius) || F.lt radius (lit 0)
      then none
      else some (record {
        north = F.min (lit 90) north_west.latitude;
        south = F.max (F.neg (lit 90)) south_east.latitude;
        east = south_east.longitude;
        west = north_west.longitude;
      })

  unfoldable pub initial_bearing_rad : Position N → Position N → N
  unfolding to_radians
  initial_bearing_rad a b =
      let latitude_a = to_radians a.latitude in
      let latitude_b = to_radians b.latitude in
      let delta_longitude = to_radians (F.sub b.longitude a.longitude) in
      let y = F.mul (F.sin delta_longitude) (F.cos latitude_b) in
      let x =
        F.sub (F.mul (F.cos latitude_a) (F.sin latitude_b))
          (F.mul (F.mul (F.sin latitude_a) (F.cos latitude_b)) (F.cos delta_longitude)) in
      F.atan2 y x

  -- The cross-track and the along-track distance.
  unfoldable pub project_point_onto_leg : Position N → Position N → N → N × N
  unfolding distance_meters initial_bearing_rad
  project_point_onto_leg start point bearing_to_end =
      let radius_meters = F.mul earth_radius_km (lit 1000) in
      let angular_distance_to_point = F.div (distance_meters start point) radius_meters in
      let bearing_to_point = initial_bearing_rad start point in
      let bearing_delta = F.sub bearing_to_point bearing_to_end in
      let cross_track_angular = F.asin (
        F.min (lit 1) (
          F.max (F.neg (lit 1)) (F.mul (F.sin angular_distance_to_point) (F.sin bearing_delta)))) in
      let along_track_ratio = F.div (F.cos angular_distance_to_point) (F.cos cross_track_angular) in
      let along_track_angular = F.acos (F.min (lit 1) (F.max (F.neg (lit 1)) along_track_ratio)) in
      let direction_sign = if F.le (lit 0) (F.cos bearing_delta) then lit 1 else F.neg (lit 1) in
      (
        F.mul cross_track_angular radius_meters,
        F.mul (F.mul direction_sign along_track_angular) radius_meters,
      )

  abbrev pub is_finite_bbox : Bbox N → Bool
  is_finite_bbox b =
      F.is_finite b.north && F.is_finite b.south && (F.is_finite b.east && F.is_finite b.west)

  unfoldable pub union_bbox : Bbox N → Bbox N → Option (Bbox N)
  union_bbox a b =
      if not (is_finite_bbox a) || not (is_finite_bbox b)
      then none
      else some (record {
        north = F.max a.north b.north;
        south = F.min a.south b.south;
        east = F.max a.east b.east;
        west = F.min a.west b.west;
      })
