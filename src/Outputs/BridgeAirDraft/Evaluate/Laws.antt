-- ===== src/Outputs/BridgeAirDraft/Evaluate/Laws.antt =====
-- Which bridges are alarming after a pass.
use signalk_activecaptain_re.Base.{
  ◌≡◌, refl, ◌∙◌, ap, Bool, true, false, ◌&&◌, ◌||◌, Option, none, some, List, [], ◌∷◌, ◌++◌,
  if◌then◌else◌, any, is_some, arith, Bool-cases, inl, inr,
}
use signalk_activecaptain_re.Base.Text.{Text, text_eq, text_beq_iff}
use signalk_activecaptain_re.Base.Equality.{◌==◌}
use signalk_activecaptain_re.Base.JsMap
use signalk_activecaptain_re.Base.JsMap.{JsMap}
use signalk_activecaptain_re.Base.Float.{Floats}
use signalk_activecaptain_re.Base.Lru.{Lru}
use signalk_activecaptain_re.Types.{PoiType, poi_type_beq, Position, PoiSummary}
use signalk_activecaptain_re.Geo.{distance_meters}
use signalk_activecaptain_re.Shared.BridgeClearance.{bridge_blocks_vessel}
use signalk_activecaptain_re.Notification.Emitter.{
  now_iso, sanitize_poi_id, emit_notification, alarming_on,
}
use signalk_activecaptain_re.Notification.Emitter.Laws.{sanitize-sanitize}
use signalk_activecaptain_re.Notification.Tracker
use signalk_activecaptain_re.Notification.Tracker.{Tracker, TrackerConfig, IsSynced, ClearsNormal}
use signalk_activecaptain_re.Notification.Tracker.Laws.{
  has_lem, has-set, raise-IsSynced, clear_all-IsSynced, clear_all_silences,
}
use signalk_activecaptain_re.Alarms.Laws.{settle-IsSynced, has-settle}
use signalk_activecaptain_re.Outputs.BridgeAirDraft.Resolver.{Resolver, clearance_meters}
use signalk_activecaptain_re.Outputs.BridgeAirDraft.Resolver.Laws.{
  FetchesOnce, clearance_meters-FetchesOnce, known_clearance, clearance_meters-known,
}
use signalk_activecaptain_re.Outputs.BridgeAirDraft.Evaluate.{
  config, InAlarmEntry, raise, raise_value, exit_radius, in_alarm_entry, set_entry, collect_one,
  collect, evaluate,
}

config-ClearsNormal : ClearsNormal config
unfolding config
config-ClearsNormal entry now = refl

module _ {N : Type 0} ⦃F : Floats N⦄ (margin : N) where
  has-raise :
      (id : Text) (entry : InAlarmEntry N) (t : Tracker Text) (k : Text)
      → JsMap.has k (raise margin id entry t).active
        ≡ (if sanitize_poi_id id == k then true else JsMap.has k t.active)
  unfolding raise
  has-raise id entry t k = has-set id k entry.name (record t {
    app =
        emit_notification t.app config.path_prefix id (raise_value margin entry (now_iso t.app))
          config.source_suffix;
  })

  raise_keeps :
      (id : Text) (entry : InAlarmEntry N) (t : Tracker Text)
      → IsSynced config t
      → IsSynced config (raise margin id entry t)
  unfolding raise
  raise_keeps id entry t s =
      raise-IsSynced config id entry.name (raise_value margin entry (now_iso t.app)) t
        (unfold raise_value in refl) s

  -- The rule of the alarm, for a bridge of the given clearance.
  unfoldable pub should_alarm : N → Position N → N → Bool → PoiSummary N → Option N → Bool
  should_alarm radius vessel air_draft was_alarming poi clearance =
      let distance = distance_meters vessel poi.position in
      poi_type_beq poi.type PoiType.bridge
      && (F.is_finite distance
          && (F.le distance (if was_alarming then exit_radius margin radius else radius)
              && bridge_blocks_vessel clearance (some air_draft) margin))

  has-set_entry :
      (id k : Text) (o : Option (InAlarmEntry N)) (m : JsMap Text (InAlarmEntry N))
      → JsMap.has k (set_entry margin id o m) ≡ (JsMap.has k m || (id == k && is_some o))
  has-set_entry id k none m = ground arith
  has-set_entry id k (some entry) m = ground (arith, JsMap.get-set id k entry m, text_beq_iff id k)

  in_alarm-should :
      (radius : N) (vessel : Position N) (air_draft : N) (t : Tracker Text) (p : PoiSummary N)
      (clearance : Option N)
      → poi_type_beq p.type PoiType.bridge ≡ true
      → is_some (in_alarm_entry margin radius vessel air_draft t p clearance)
        ≡ should_alarm radius vessel air_draft (Tracker.has p.id t) p clearance
  unfolding in_alarm_entry should_alarm bridge_blocks_vessel
  in_alarm-should radius vessel air_draft t p none h = ground arith
  in_alarm-should radius vessel air_draft t p (some c) h = ground arith

  module _ {C : Type 0} (lru : Lru C (Option N)) (radius : N) (vessel : Position N)
      (air_draft : N) where
    -- The rule for a point of interest, with the clearance that the resolver knows before the pass.
    abbrev pub alarms_now : Tracker Text → C → PoiSummary N → Bool
    alarms_now t cache p =
        should_alarm radius vessel air_draft (Tracker.has p.id t) p (known_clearance lru cache p)

    not_bridge :
        (t : Tracker Text) (cache : C) (p : PoiSummary N)
        → poi_type_beq p.type PoiType.bridge ≡ false
        → alarms_now t cache p ≡ false
    unfolding should_alarm
    not_bridge t cache p e = rw e

    has-collect_one :
        (t : Tracker Text) (k : Text) (p : PoiSummary N) (m : JsMap Text (InAlarmEntry N))
        (r : Resolver C)
        → JsMap.has k (collect_one margin lru radius vessel air_draft t p m r).0
          ≡ (JsMap.has k m || (p.id == k && alarms_now t r.cache p))
    unfolding collect_one
    has-collect_one t k p m r = elim (Bool-cases (poi_type_beq p.type PoiType.bridge)) [
      | inl e ↦
          let clearance = (clearance_meters lru p r).0 in
          ground (
            arith,
            e,
            has-set_entry p.id k (in_alarm_entry margin radius vessel air_draft t p clearance) m,
            in_alarm-should radius vessel air_draft t p clearance e,
            ap (should_alarm radius vessel air_draft (Tracker.has p.id t) p)
                (clearance_meters-known lru p r).0,
          )
      | inr e ↦ ground (arith, e, not_bridge t r.cache p)
    ]

    -- What a round of the loop leaves to the resolver: nothing that it knows changes.
    known-collect_one :
        (t : Tracker Text) (p q : PoiSummary N) (m : JsMap Text (InAlarmEntry N)) (r : Resolver C)
        → known_clearance lru (collect_one margin lru radius vessel air_draft t p m r).1.cache q
          ≡ known_clearance lru r.cache q
    unfolding collect_one known_clearance
    known-collect_one t p q m r = ground (arith, (clearance_meters-known lru p r).1 q.id)

    alarms-collect_one :
        (t : Tracker Text) (k : Text) (p : PoiSummary N) (qs : List (PoiSummary N))
        (m : JsMap Text (InAlarmEntry N)) (r : Resolver C)
        → any
            (λ q.
              q.id == k
              && alarms_now t (collect_one margin lru radius vessel air_draft t p m r).1.cache q)
            qs
          ≡ any (λ q. q.id == k && alarms_now t r.cache q) qs
    alarms-collect_one t k p [] m r = refl
    alarms-collect_one t k p (q ∷ qs) m r =
        rw (known-collect_one t p q m r, alarms-collect_one t k p qs m r)

    has-collect :
        (t : Tracker Text) (k : Text) (ps : List (PoiSummary N)) (m : JsMap Text (InAlarmEntry N))
        (r : Resolver C)
        → JsMap.has k (collect margin lru radius vessel air_draft t ps m r).0
          ≡ (JsMap.has k m || any (λ q. q.id == k && alarms_now t r.cache q) ps)
    unfolding collect
    has-collect t k [] m r = ground arith
    has-collect t k (p ∷ ps) m r =
        let one = collect_one margin lru radius vessel air_draft t p m r in
        ground (
          arith,
          has-collect t k ps one.0 one.1,
          has-collect_one t k p m r,
          alarms-collect_one t k p ps m r,
        )

    -- With a known air draft and a tracker in step, an id is tracked after a pass exactly when some bridge of the pass,
    -- listed under the sanitized form of the id, is in range and blocks the vessel by the clearance
    -- that the resolver knew before the pass.
    pub has-evaluate_bridge :
        (pois : List (PoiSummary N)) (t : Tracker Text) (r : Resolver C) (id : Text)
        → IsSynced config t
        → Tracker.has id (evaluate margin lru radius vessel (some air_draft) pois t r).0
          ≡ any (λ p. p.id == sanitize_poi_id id && alarms_now t r.cache p) pois
    unfolding evaluate JsMap.get
    has-evaluate_bridge pois t r id s =
        let m = (collect margin lru radius vessel air_draft t pois [] r).0 in
        has_lem id (evaluate margin lru radius vessel (some air_draft) pois t r).0
        ∙ has-settle config (raise margin) has-raise raise_keeps m (sanitize_poi_id id) t s
            (sanitize-sanitize id)
        ∙ has-collect t (sanitize_poi_id id) pois [] r

    collect_one-FetchesOnce :
        (t : Tracker Text) (p : PoiSummary N) (m : JsMap Text (InAlarmEntry N)) (r : Resolver C)
        → FetchesOnce r
        → FetchesOnce (collect_one margin lru radius vessel air_draft t p m r).1
    unfolding collect_one
    collect_one-FetchesOnce t p m r f = elim (Bool-cases (poi_type_beq p.type PoiType.bridge)) [
      | inl e ↦ rw e (clearance_meters-FetchesOnce lru p r f)
      | inr e ↦ rw e f
    ]

    collect-FetchesOnce :
        (t : Tracker Text) (ps : List (PoiSummary N)) (m : JsMap Text (InAlarmEntry N))
        (r : Resolver C)
        → FetchesOnce r
        → FetchesOnce (collect margin lru radius vessel air_draft t ps m r).1
    unfolding collect
    collect-FetchesOnce t [] m r f = f
    collect-FetchesOnce t (p ∷ ps) m r f =
        let one = collect_one margin lru radius vessel air_draft t p m r in
        collect-FetchesOnce t ps one.0 one.1 (collect_one-FetchesOnce t p m r f)

  -- A pass, with the air draft known or not, keeps a tracker in step with what a consumer sees, and
  -- keeps that no bridge has two detail requests pending.
  pub evaluate_keeps :
      {C : Type 0} (lru : Lru C (Option N)) (radius : N) (vessel : Position N)
      (air_draft : Option N) (pois : List (PoiSummary N)) (t : Tracker Text) (r : Resolver C)
      → IsSynced config t
      → FetchesOnce r
      → IsSynced config (evaluate margin lru radius vessel air_draft pois t r).0
        × FetchesOnce (evaluate margin lru radius vessel air_draft pois t r).1
  unfolding evaluate
  evaluate_keeps lru radius vessel none pois t r s f =
      (clear_all-IsSynced config t config-ClearsNormal s, f)
  evaluate_keeps lru radius vessel (some air_draft) pois t r s f =
      let collected = collect margin lru radius vessel air_draft t pois [] r in
      (
        settle-IsSynced config (raise margin) has-raise raise_keeps collected.0 t
            config-ClearsNormal s,
        collect-FetchesOnce lru radius vessel air_draft t pois [] r f,
      )

  -- Without an air draft, and from a tracker in step, the check is inert: after a pass nothing is tracked, no path has an alarm,
  -- and no detail was requested.
  pub evaluate_inert :
      {C : Type 0} (lru : Lru C (Option N)) (radius : N) (vessel : Position N)
      (pois : List (PoiSummary N)) (t : Tracker Text) (r : Resolver C)
      → IsSynced config t
      → (k : Text)
      → (JsMap.has k (evaluate margin lru radius vessel none pois t r).0.active ≡ false)
        × (alarming_on
              (config.path_prefix ++ k)
              (evaluate margin lru radius vessel none pois t r).0.app.deltas
            ≡ false)
        × ((evaluate margin lru radius vessel none pois t r).1 ≡ r)
  unfolding evaluate
  evaluate_inert lru radius vessel pois t r s k =
      let (gone, silent) = clear_all_silences config t config-ClearsNormal s k in
      (gone, silent, refl)
