-- ===== src/Outputs/RouteHazard/Alarms.antt =====
-- src/outputs/route-hazard/route-hazard-alarms.ts: the advisories for what lies on the route ahead.
-- The debug log is not modelled.
pub mod Laws
pub mod Messages
use signalk_activecaptain_re.Base.{Option, none, some, List, [], ◌∷◌, ◌++◌, if◌then◌else◌}
use signalk_activecaptain_re.Base.Text.{Text, txt, text_eq}
use signalk_activecaptain_re.Base.Equality.{◌==◌}
use signalk_activecaptain_re.Base.JsMap
use signalk_activecaptain_re.Base.JsMap.{JsMap}
use signalk_activecaptain_re.Base.Float.{Floats, lit}
use signalk_activecaptain_re.Types.{type_name}
use signalk_activecaptain_re.Shared.BridgeClearance.{finite_option, format_meters}
use signalk_activecaptain_re.Notification.Emitter.{
  State, Method, NotificationValue, now_iso, emit_notification,
}
use signalk_activecaptain_re.Notification.Tracker
use signalk_activecaptain_re.Notification.Tracker.{Tracker, TrackerConfig}
use signalk_activecaptain_re.Alarms.{clear_absent}
use signalk_activecaptain_re.Outputs.RouteHazard.Corridor.{CorridorPoi}

unfoldable pub path_prefix : Text
path_prefix = txt "notifications.navigation.crowsNest.route."

unfoldable pub source_suffix : Text
source_suffix = txt "route"

-- What is tracked of a point: its name, for the clear message, and the last message emitted.
pub record RouteEntry : Type 0 where
  pub name : Text
  pub message : Text

unfoldable pub config : TrackerConfig RouteEntry
config = record {
  path_prefix = path_prefix;
  source_suffix = some source_suffix;
  build_clear_value = λ entry now. record {
    state = State.normal;
    method = [];
    message = b'"' ∷ (entry.name ++ txt "\" is no longer on the route ahead");
    created_at = now;
  };
}

pub record BridgeClearanceVerdict (N : Type 0) : Type 0 where
  pub clearance_meters : N
  pub air_draft_meters : N
  pub margin_meters : N

module _ {N : Type 0} ⦃F : Floats N⦄ where
  unfoldable pub format_distance : N → Text
  format_distance meters =
      if F.le (lit 1000) meters
      then F.to_fixed 1 (F.div meters (lit 1000)) ++ txt " km"
      else F.to_text (F.round meters) ++ txt " m"

  unfoldable pub format_eta : N → Text
  format_eta seconds =
      let total_minutes = F.round (F.div seconds (lit 60)) in
      let hours = F.floor (F.div total_minutes (lit 60)) in
      let minutes = F.remainder total_minutes (lit 60) in
      if F.lt total_minutes (lit 60)
      then F.to_text total_minutes ++ txt " min"
      else F.to_text hours ++ (txt " h " ++ (F.to_text minutes ++ txt " min"))

  unfoldable pub eta_clause : Option N → Text
  unfolding format_eta
  eta_clause none = []
  eta_clause (some seconds) = txt ", ETA " ++ format_eta seconds

  unfoldable pub verdict_clause : Option (BridgeClearanceVerdict N) → Text
  verdict_clause none = []
  verdict_clause (some verdict) =
      txt ": clearance "
      ++ (format_meters verdict.clearance_meters
          ++ (txt " m is at or below your air draft "
              ++ (format_meters verdict.air_draft_meters
                  ++ (txt " m (+" ++ (format_meters verdict.margin_meters ++ txt " m margin)")))))

  unfoldable pub build_message : CorridorPoi N → Option (BridgeClearanceVerdict N) → Text
  unfolding format_distance eta_clause verdict_clause type_name
  build_message poi verdict =
      type_name poi.type
      ++ (txt " \""
          ++ (poi.name
              ++ (txt "\" is on the route ahead, "
                  ++ (format_distance poi.along_track_distance_meters
                      ++ (txt " away"
                          ++ (eta_clause (finite_option poi.eta_seconds)
                              ++ verdict_clause verdict))))))

unfoldable pub warn_value : Text → Text → NotificationValue
warn_value message now = record {
  state = State.warn;
  method = Method.visual ∷ [];
  message = message;
  created_at = now;
}

-- `emitWarn` and the `tracker.set` behind it.
unfoldable pub warn : Text → Text → Text → Tracker RouteEntry → Tracker RouteEntry
unfolding warn_value
warn poi_id name message t =
    Tracker.set poi_id (record { name = name; message = message })
      (record t {
        app =
            emit_notification t.app config.path_prefix poi_id (warn_value message (now_iso t.app))
              config.source_suffix;
      })

-- A point that is tracked is announced again only when its message has changed.
unfoldable pub announce :
    Text → Text → Text → Option RouteEntry → Tracker RouteEntry → Tracker RouteEntry
unfolding warn
announce poi_id name message none t = warn poi_id name message t
announce poi_id name message (some existing) t =
    if existing.message == message then t else warn poi_id name message t

module _ {N : Type 0} ⦃F : Floats N⦄ (too_low : JsMap Text (BridgeClearanceVerdict N)) where
  -- The message of a point on this pass.
  abbrev pub message_of : CorridorPoi N → Text
  message_of poi = build_message poi (JsMap.get poi.id too_low)

  unfoldable pub refresh_entries :
      JsMap Text (CorridorPoi N) → Tracker RouteEntry → Tracker RouteEntry
  unfolding announce
  refresh_entries [] t = t
  refresh_entries ((id, poi) ∷ flagged) t =
      refresh_entries flagged (announce poi.id poi.name (message_of poi) (Tracker.get poi.id t) t)

  unfoldable pub flag_all :
      List (CorridorPoi N) → JsMap Text (CorridorPoi N) → JsMap Text (CorridorPoi N)
  flag_all [] flagged = flagged
  flag_all (poi ∷ pois) flagged = flag_all pois (JsMap.set poi.id poi flagged)

  unfoldable pub evaluate : List (CorridorPoi N) → Tracker RouteEntry → Tracker RouteEntry
  unfolding refresh_entries flag_all
  evaluate corridor_pois t =
      let flagged = flag_all corridor_pois [] in
      let refreshed = refresh_entries flagged t in
      clear_absent config flagged (JsMap.keys refreshed.active) refreshed
