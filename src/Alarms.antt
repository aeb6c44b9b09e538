-- ===== src/Alarms.antt =====
-- The raise and clear loops with which an alarm output brings its tracker in line with the points
-- of interest that should be alarming after a pass. They are the second half of `evaluate` in
-- src/outputs/proximity-alarm/proximity-alarms.ts, and stand in the same words in
-- src/outputs/bridge-air-draft/bridge-clearance-alarms.ts; the clear loop is also that of
-- src/outputs/route-hazard/route-hazard-alarms.ts.
pub mod Laws
use signalk_activecaptain_re.Base.{◌≡◌, Bool, true, false, List, [], ◌∷◌, if◌then◌else◌}
use signalk_activecaptain_re.Base.Text.{Text, text_eq}
use signalk_activecaptain_re.Base.JsMap
use signalk_activecaptain_re.Base.JsMap.{JsMap}
use signalk_activecaptain_re.Notification.Tracker
use signalk_activecaptain_re.Notification.Tracker.{Tracker, TrackerConfig}

module _ {E T : Type 0} where
  -- Entry: what is now in alarm and was not already alarming is raised.
  unfoldable pub raise_entries :
      (Text → E → Tracker T → Tracker T) → JsMap Text E → Tracker T → Tracker T
  raise_entries raise [] t = t
  raise_entries raise ((id, entry) ∷ m) t =
      raise_entries raise m (if Tracker.has id t then t else raise id entry t)

  -- Exit: what is tracked and not in alarm is cleared, over a snapshot of the keys.
  unfoldable pub clear_absent : TrackerConfig T → JsMap Text E → List Text → Tracker T → Tracker T
  clear_absent cfg in_alarm [] t = t
  clear_absent cfg in_alarm (k ∷ ks) t =
      clear_absent cfg in_alarm ks (if JsMap.has k in_alarm then t else Tracker.clear cfg k t)

  unfoldable pub settle :
      (Text → E → Tracker T → Tracker T) → TrackerConfig T → JsMap Text E → Tracker T → Tracker T
  unfolding raise_entries clear_absent
  settle raise cfg in_alarm t =
      let raised = raise_entries raise in_alarm t in
      clear_absent cfg in_alarm (JsMap.keys raised.active) raised
