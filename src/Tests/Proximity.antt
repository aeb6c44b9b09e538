-- ===== src/Tests/Proximity.antt =====
-- Runs of the tracker and of the proximity alarm.
use signalk_activecaptain_re.Base.{ℕ, ◌≡◌, refl, true, false, none, [], ◌∷◌, ◌++◌}
use signalk_activecaptain_re.Base.Text.{Text, txt, text_beq, text_eq}
use signalk_activecaptain_re.Base.JsMap
use signalk_activecaptain_re.Types.{PoiType, PoiSummary}
use signalk_activecaptain_re.Geo.{distance_meters, to_radians}
use signalk_activecaptain_re.Notification.Emitter.{
  State, NotificationValue, alarming_on, sanitize_poi_id, is_path_safe, safe_unit,
}
use signalk_activecaptain_re.Notification.Tracker
use signalk_activecaptain_re.Notification.Tracker.{Tracker, IsSynced}
use signalk_activecaptain_re.Notification.Tracker.Laws.{clear_all_silences}
use signalk_activecaptain_re.Outputs.ProximityAlarm.{config, evaluate}
use signalk_activecaptain_re.Outputs.ProximityAlarm.Laws.{
  config-ClearsNormal, should_alarm, evaluate-IsSynced, has-evaluate,
}
use signalk_activecaptain_re.Outputs.ProximityAlarm.Hysteresis.{unsafe_id_cleared}
use signalk_activecaptain_re.Tests.Sample.{
  whole_numbers, empty_tracker, empty-IsSynced, at, sample_poi,
}

abbrev rock : PoiSummary ℕ
rock = sample_poi (txt "ac-1") PoiType.hazard none (at 2 0)

abbrev unsafe_rock : PoiSummary ℕ
unsafe_rock = sample_poi (txt "ac 1") PoiType.hazard none (at 0 0)

-- The rock is in range of a first pass, which raises its alarm.
abbrev alarmed : Tracker Text
alarmed = evaluate 7000000 (at 2 0) (rock ∷ []) empty_tracker

alarmed-IsSynced : IsSynced config alarmed
alarmed-IsSynced =
    evaluate-IsSynced 7000000 (at 2 0) (rock ∷ []) empty_tracker (empty-IsSynced config)

evaluate-IsSynced_example : IsSynced config alarmed
evaluate-IsSynced_example =
    evaluate-IsSynced 7000000 (at 2 0) (rock ∷ []) empty_tracker (empty-IsSynced config)

has-evaluate_example : Tracker.has (txt "ac-1") alarmed ≡ true
unfolding should_alarm distance_meters to_radians sanitize_poi_id safe_unit is_path_safe text_beq
    Tracker.get JsMap.get
has-evaluate_example =
    has-evaluate 7000000 (at 2 0) (rock ∷ []) empty_tracker (txt "ac-1") (empty-IsSynced config)

unsafe_id_cleared_example :
    (Tracker.has (txt "ac 1") (evaluate 100 (at 0 0) (unsafe_rock ∷ []) empty_tracker) ≡ false)
    × (alarming_on
          (config.path_prefix ++ txt "ac_1")
          (evaluate 100 (at 0 0) (unsafe_rock ∷ []) empty_tracker).app.deltas
        ≡ false)
unfolding sanitize_poi_id safe_unit is_path_safe text_beq
unsafe_id_cleared_example =
    unsafe_id_cleared 100 (at 0 0) (unsafe_rock ∷ []) empty_tracker (txt "ac 1")
      (empty-IsSynced config) refl

clear_all_silences_example :
    (JsMap.has (txt "ac-1") (Tracker.clear_all config alarmed).active ≡ false)
    × (alarming_on (config.path_prefix ++ txt "ac-1") (Tracker.clear_all config alarmed).app.deltas
        ≡ false)
clear_all_silences_example =
    clear_all_silences config alarmed config-ClearsNormal alarmed-IsSynced (txt "ac-1")

abbrev alarm_value : NotificationValue
alarm_value = record { state = State.alarm; method = []; message = []; created_at = [] }
