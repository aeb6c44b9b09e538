-- ===== src/Tests/Bridge.antt =====
-- Runs of the bridge check and of its resolver.
use signalk_activecaptain_re.Base.{ℕ, ◌≡◌, refl, true, Option, none, some, [], ◌∷◌, arith}
use signalk_activecaptain_re.Base.Text.{Text, txt, text_beq, text_eq}
use signalk_activecaptain_re.Base.JsMap
use signalk_activecaptain_re.Base.JsMap.{JsMap}
use signalk_activecaptain_re.Types.{PoiType, PoiSummary}
use signalk_activecaptain_re.Geo.{distance_meters, to_radians}
use signalk_activecaptain_re.Notification.Emitter.{sanitize_poi_id, safe_unit, is_path_safe}
use signalk_activecaptain_re.Notification.Tracker
use signalk_activecaptain_re.Notification.Tracker.{Tracker, IsSynced}
use signalk_activecaptain_re.Shared.BridgeClearance.{finite_option, bridge_blocks_vessel}
use signalk_activecaptain_re.Outputs.BridgeAirDraft.Resolver.{Resolver}
use signalk_activecaptain_re.Outputs.BridgeAirDraft.Resolver.Laws.{FetchesOnce, known_clearance}
use signalk_activecaptain_re.Outputs.BridgeAirDraft.Evaluate.{config, evaluate}
use signalk_activecaptain_re.Outputs.BridgeAirDraft.Evaluate.Laws.{
  should_alarm, has-evaluate_bridge,
}
use signalk_activecaptain_re.Tests.Sample.{
  whole_numbers, sample_cache, empty_tracker, empty-IsSynced, at, sample_poi,
}

abbrev idle : Resolver (JsMap Text (Option ℕ))
idle = record { cache = []; in_flight = []; pending = [] }

idle-FetchesOnce : FetchesOnce idle
idle-FetchesOnce = record { tracked = λ k. refl; once = λ k. omega arith }

-- A bridge with a clearance on its summary, and one whose detail has to be asked for.
abbrev low_bridge : PoiSummary ℕ
low_bridge = sample_poi (txt "b1") PoiType.bridge (some 10) (at 0 0)

abbrev unknown_bridge : PoiSummary ℕ
unknown_bridge = sample_poi (txt "b2") PoiType.bridge none (at 0 0)

has-evaluate_bridge_example :
    Tracker.has
      (txt "b1")
      (evaluate 1 sample_cache 100 (at 0 0) (some 15) (low_bridge ∷ []) empty_tracker idle).0
    ≡ true
unfolding sanitize_poi_id safe_unit is_path_safe text_beq should_alarm distance_meters to_radians
    Tracker.get JsMap.get bridge_blocks_vessel known_clearance finite_option
has-evaluate_bridge_example =
    has-evaluate_bridge 1 sample_cache 100 (at 0 0) 15 (low_bridge ∷ []) empty_tracker idle
      (txt "b1") (empty-IsSynced config)

abbrev alarmed : Tracker Text
alarmed = (evaluate 1 sample_cache 100 (at 0 0) (some 15) (low_bridge ∷ []) empty_tracker idle).0
