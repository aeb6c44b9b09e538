-- ===== src/Outputs/ProximityAlarm/Laws.antt =====
-- Which hazards are alarming after a pass, and what a consumer of the notifications sees.
use signalk_activecaptain_re.Base.{
  ◌≡◌, refl, ◌∙◌, Bool, true, ◌&&◌, ◌||◌, List, [], ◌∷◌, if◌then◌else◌, any, arith,
}
use signalk_activecaptain_re.Base.Text.{Text, text_eq, text_beq_iff}
use signalk_activecaptain_re.Base.Equality.{◌==◌}
use signalk_activecaptain_re.Base.JsMap
use signalk_activecaptain_re.Base.JsMap.{JsMap}
use signalk_activecaptain_re.Base.Float.{Floats}
use signalk_activecaptain_re.Types.{PoiType, poi_type_beq, Position, PoiSummary}
use signalk_activecaptain_re.Geo.{distance_meters}
use signalk_activecaptain_re.Notification.Emitter.{now_iso, sanitize_poi_id, emit_notification}
use signalk_activecaptain_re.Notification.Emitter.Laws.{sanitize-sanitize}
use signalk_activecaptain_re.Notification.Tracker
use signalk_activecaptain_re.Notification.Tracker.{Tracker, TrackerConfig, IsSynced, ClearsNormal}
use signalk_activecaptain_re.Notification.Tracker.Laws.{has_lem, has-set, raise-IsSynced}
use signalk_activecaptain_re.Alarms.Laws.{settle-IsSynced, has-settle}
use signalk_activecaptain_re.Outputs.ProximityAlarm.{
  config, raise, raise_value, exit_radius, collect_one, collect, evaluate,
}

pub config-ClearsNormal : ClearsNormal config
unfolding config
config-ClearsNormal entry now = refl

module _ {N : Type 0} ⦃F : Floats N⦄ where
  -- The rule of the alarm, for a hazard that was alarming before the pass or was not.
  unfoldable pub should_alarm : N → Position N → Bool → PoiSummary N → Bool
  should_alarm radius vessel was_alarming poi =
      let distance = distance_meters vessel poi.position in
      poi_type_beq poi.type PoiType.hazard
      && (F.is_finite distance
          && F.le distance (if was_alarming then exit_radius radius else radius))

  has-raise :
      (id : Text) (entry : Text × N) (t : Tracker Text) (k : Text)
      → JsMap.has k (raise id entry t).active
        ≡ (if sanitize_poi_id id == k then true else JsMap.has k t.active)
  unfolding raise
  has-raise id (name, distance) t k = has-set id k name (record t {
    app =
        emit_notification t.app config.path_prefix id (raise_value name distance (now_iso t.app))
          config.source_suffix;
  })

  raise_keeps :
      (id : Text) (entry : Text × N) (t : Tracker Text)
      → IsSynced config t
      → IsSynced config (raise id entry t)
  unfolding raise
  raise_keeps id (name, distance) t s =
      raise-IsSynced config id name (raise_value name distance (now_iso t.app)) t
        (unfold raise_value in refl) s

  module _ (radius : N) (vessel : Position N) where
    pub has-collect :
        (t : Tracker Text) (k : Text) (pois : List (PoiSummary N)) (m : JsMap Text (Text × N))
        → JsMap.has k (collect radius vessel t pois m) ≡ (
            JsMap.has k m
            || any (λ p. p.id == k && should_alarm radius vessel (Tracker.has p.id t) p) pois)
    unfolding collect collect_one should_alarm
    has-collect t k [] m = ground arith
    has-collect t k (p ∷ ps) m = ground (
      arith,
      has-collect t k ps (collect_one radius vessel t p m),
      JsMap.get-set p.id k (p.name, distance_meters vessel p.position) m,
      text_beq_iff p.id k,
    )

    -- A pass from a tracker in step with what a consumer of the notifications sees leaves it in step.
    pub evaluate-IsSynced :
        (pois : List (PoiSummary N)) (t : Tracker Text)
        → IsSynced config t
        → IsSynced config (evaluate radius vessel pois t)
    unfolding evaluate
    evaluate-IsSynced pois t s =
        settle-IsSynced config raise has-raise raise_keeps (collect radius vessel t pois []) t
          config-ClearsNormal s

    -- From a tracker in step with the wire: after a pass an id is tracked exactly when some hazard of the pass, listed under the sanitized
    -- form of the id, meets the rule of the alarm: within the radius, or within the exit radius if
    -- it was alarming before.
    pub has-evaluate :
        (pois : List (PoiSummary N)) (t : Tracker Text) (id : Text)
        → IsSynced config t
        → Tracker.has id (evaluate radius vessel pois t)
          ≡ any
              (λ p. p.id == sanitize_poi_id id && should_alarm radius vessel (Tracker.has p.id t) p)
              pois
    unfolding evaluate JsMap.get
    has-evaluate pois t id s =
        has_lem id (evaluate radius vessel pois t)
        ∙ has-settle config raise has-raise raise_keeps (collect radius vessel t pois [])
            (sanitize_poi_id id) t s (sanitize-sanitize id)
        ∙ has-collect t (sanitize_poi_id id) pois []
