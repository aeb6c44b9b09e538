-- ===== src/Outputs/ProximityAlarm.antt =====
-- src/outputs/proximity-alarm/proximity-alarms.ts: the hazard alarms, with their hysteresis. The
-- debug log is not modelled.
pub mod Laws
pub mod Hysteresis
use signalk_activecaptain_re.Base.{
  ℕ, Bool, true, false, ◌&&◌, not, Option, none, some, List, [], ◌∷◌, ◌++◌, if◌then◌else◌,
}
use signalk_activecaptain_re.Base.Text.{Text, txt, text_eq}
use signalk_activecaptain_re.Base.JsMap
use signalk_activecaptain_re.Base.JsMap.{JsMap}
use signalk_activecaptain_re.Base.Float.{Floats, lit}
use signalk_activecaptain_re.Types.{PoiType, poi_type_beq, Position, PoiSummary}
use signalk_activecaptain_re.Geo.{distance_meters}
use signalk_activecaptain_re.Notification.Emitter.{
  State, Method, NotificationValue, now_iso, emit_notification,
}
use signalk_activecaptain_re.Notification.Tracker
use signalk_activecaptain_re.Notification.Tracker.{Tracker, TrackerConfig}
use signalk_activecaptain_re.Alarms.{settle}

unfoldable pub path_prefix : Text
path_prefix = txt "notifications.navigation.crowsNest.hazard."

unfoldable pub source_suffix : Text
source_suffix = txt "proximity"

-- A tracked entry is the hazard's name.
unfoldable pub config : TrackerConfig Text
config = record {
  path_prefix = path_prefix;
  source_suffix = some source_suffix;
  build_clear_value = λ name now. record {
    state = State.normal;
    method = [];
    message = txt "Hazard \"" ++ (name ++ txt "\" is no longer nearby");
    created_at = now;
  };
}

module _ {N : Type 0} ⦃F : Floats N⦄ where
  unfoldable pub raise_value : Text → N → Text → NotificationValue
  raise_value name distance now = record {
    state = State.alarm;
    method = Method.visual ∷ Method.sound ∷ [];
    message =
        txt "Hazard \""
        ++ (name ++ (txt "\" is " ++ (F.to_text (F.round distance) ++ txt " m away")));
    created_at = now;
  }

  -- The name and the distance of a hazard that is in alarm.
  unfoldable pub raise : Text → Text × N → Tracker Text → Tracker Text
  unfolding raise_value
  raise poi_id (name, distance) t = Tracker.set poi_id name (record t {
    app =
        emit_notification t.app config.path_prefix poi_id
          (raise_value name distance (now_iso t.app)) config.source_suffix;
  })

  -- `radiusMeters * EXIT_RADIUS_FACTOR`
  unfoldable pub exit_radius : N → N
  exit_radius radius = F.mul radius (F.ratio 12 10)

  -- One round of the loop over the points of interest.
  unfoldable pub collect_one :
      N → Position N → Tracker Text → PoiSummary N → JsMap Text (Text × N) → JsMap Text (Text × N)
  unfolding exit_radius
  collect_one radius vessel t poi in_alarm =
      let distance = distance_meters vessel poi.position in
      let threshold = if Tracker.has poi.id t then exit_radius radius else radius in
      if not (poi_type_beq poi.type PoiType.hazard)
      then in_alarm
      else if not (F.is_finite distance)
      then in_alarm
      else if F.le distance threshold
      then JsMap.set poi.id (poi.name, distance) in_alarm
      else in_alarm

  unfoldable pub collect :
      N
      → Position N
      → Tracker Text
      → List (PoiSummary N)
      → JsMap Text (Text × N)
      → JsMap Text (Text × N)
  collect radius vessel t [] in_alarm = in_alarm
  collect radius vessel t (poi ∷ pois) in_alarm =
      collect radius vessel t pois (collect_one radius vessel t poi in_alarm)

  unfoldable pub evaluate : N → Position N → List (PoiSummary N) → Tracker Text → Tracker Text
  evaluate radius vessel pois t = settle raise config (collect radius vessel t pois []) t
