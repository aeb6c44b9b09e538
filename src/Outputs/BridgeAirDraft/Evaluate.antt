-- ===== src/Outputs/BridgeAirDraft/Evaluate.antt =====
-- src/outputs/bridge-air-draft/bridge-clearance-alarms.ts: the alarms for bridges too low for the
-- vessel. The debug log is not modelled, and with it the flag that logs a transition once.
pub mod Laws
use signalk_activecaptain_re.Base.{
  ℕ, Bool, true, false, ◌&&◌, not, Option, none, some, List, [], ◌∷◌, ◌++◌, if◌then◌else◌,
}
use signalk_activecaptain_re.Base.Text.{Text, txt, text_eq}
use signalk_activecaptain_re.Base.JsMap
use signalk_activecaptain_re.Base.JsMap.{JsMap}
use signalk_activecaptain_re.Base.Float.{Floats, lit}
use signalk_activecaptain_re.Base.Lru.{Lru}
use signalk_activecaptain_re.Types.{PoiType, poi_type_beq, Position, PoiSummary}
use signalk_activecaptain_re.Geo.{distance_meters}
use signalk_activecaptain_re.Shared.BridgeClearance.{bridge_blocks_vessel, format_meters}
use signalk_activecaptain_re.Notification.Emitter.{
  State, Method, NotificationValue, now_iso, emit_notification,
}
use signalk_activecaptain_re.Notification.Tracker
use signalk_activecaptain_re.Notification.Tracker.{Tracker, TrackerConfig}
use signalk_activecaptain_re.Alarms.{settle}
use signalk_activecaptain_re.Outputs.BridgeAirDraft.Resolver.{Resolver, clearance_meters}

unfoldable pub path_prefix : Text
path_prefix = txt "notifications.navigation.crowsNest.bridgeClearance."

unfoldable pub source_suffix : Text
source_suffix = txt "bridge"

-- A tracked entry is the bridge's name.
unfoldable pub config : TrackerConfig Text
config = record {
  path_prefix = path_prefix;
  source_suffix = some source_suffix;
  build_clear_value = λ name now. record {
    state = State.normal;
    method = [];
    message = txt "Bridge \"" ++ (name ++ txt "\" clearance alarm cleared");
    created_at = now;
  };
}

pub record InAlarmEntry (N : Type 0) : Type 0 where
  pub name : Text
  pub clearance : N
  pub air_draft : N
  pub distance : N

module _ {N : Type 0} ⦃F : Floats N⦄ (margin : N) where
  unfoldable pub raise_value : InAlarmEntry N → Text → NotificationValue
  raise_value entry now = record {
    state = State.alarm;
    method = Method.visual ∷ Method.sound ∷ [];
    message =
        txt "Bridge \""
        ++ (entry.name
            ++ (txt "\" clearance "
                ++ (format_meters entry.clearance
                    ++ (txt " m is at or below your air draft "
                        ++ (format_meters entry.air_draft
                            ++ (txt " m (+"
                                ++ (format_meters margin
                                    ++ (txt " m margin), "
                                        ++ (F.to_text (F.round entry.distance)
                                            ++ txt " m away")))))))));
    created_at = now;
  }

  unfoldable pub raise : Text → InAlarmEntry N → Tracker Text → Tracker Text
  unfolding raise_value
  raise poi_id entry t = Tracker.set poi_id entry.name (record t {
    app =
        emit_notification t.app config.path_prefix poi_id (raise_value entry (now_iso t.app))
          config.source_suffix;
  })

  unfoldable pub exit_radius : N → N
  exit_radius radius = F.mul radius (F.ratio 12 10)

  -- The entry of a bridge whose clearance was resolved, or nothing where it does not alarm.
  -- `distance > threshold` is the negation of `distance <= threshold`: the distance is finite, and so
  -- is the radius that the output sets.
  unfoldable pub in_alarm_entry :
      N → Position N → N → Tracker Text → PoiSummary N → Option N → Option (InAlarmEntry N)
  unfolding exit_radius
  in_alarm_entry radius vessel air_draft t poi none = none
  in_alarm_entry radius vessel air_draft t poi (some clearance) =
      let distance = distance_meters vessel poi.position in
      let threshold = if Tracker.has poi.id t then exit_radius radius else radius in
      if not (F.is_finite distance)
      then none
      else if not (F.le distance threshold)
      then none
      else if not (bridge_blocks_vessel (some clearance) (some air_draft) margin)
      then none
      else some (record {
        name = poi.name;
        clearance = clearance;
        air_draft = air_draft;
        distance = distance;
      })

  abbrev set_entry :
      Text → Option (InAlarmEntry N) → JsMap Text (InAlarmEntry N) → JsMap Text (InAlarmEntry N)
  set_entry id none m = m
  set_entry id (some entry) m = JsMap.set id entry m

  module _ {C : Type 0} (lru : Lru C (Option N)) where
    -- One round of the loop: the resolver is asked for each bridge, alarming or not.
    unfoldable pub collect_one :
        N
        → Position N
        → N
        → Tracker Text
        → PoiSummary N
        → JsMap Text (InAlarmEntry N)
        → Resolver C
        → JsMap Text (InAlarmEntry N) × Resolver C
    collect_one radius vessel air_draft t poi in_alarm r =
        let (clearance, r') = clearance_meters lru poi r in
        if not (poi_type_beq poi.type PoiType.bridge) then (in_alarm, r) else (
          set_entry poi.id (in_alarm_entry radius vessel air_draft t poi clearance) in_alarm,
          r',
        )

    unfoldable pub collect :
        N
        → Position N
        → N
        → Tracker Text
        → List (PoiSummary N)
        → JsMap Text (InAlarmEntry N)
        → Resolver C
        → JsMap Text (InAlarmEntry N) × Resolver C
    collect radius vessel air_draft t [] in_alarm r = (in_alarm, r)
    collect radius vessel air_draft t (poi ∷ pois) in_alarm r =
        let one = collect_one radius vessel air_draft t poi in_alarm r in
        collect radius vessel air_draft t pois one.0 one.1

    -- `none` for the air draft is the inert check: it clears what was raised, and asks for nothing.
    unfoldable pub evaluate :
        N
        → Position N
        → Option N
        → List (PoiSummary N)
        → Tracker Text
        → Resolver C
        → Tracker Text × Resolver C
    evaluate radius vessel none pois t r = (Tracker.clear_all config t, r)
    evaluate radius vessel (some air_draft) pois t r =
        let collected = collect radius vessel air_draft t pois [] r in
        (settle raise config collected.0 t, collected.1)
