-- ===== src/Outputs/RouteHazard/Output/Laws.antt =====
-- What a tick of the route-hazard output leaves announced, and the verdicts on the bridges ahead.
use signalk_activecaptain_re.Base.{
  ◌≡◌, refl, ◌∙◌, Bool, false, ◌&&◌, Option, none, some, List, [], ◌∷◌, if◌then◌else◌, any, filter,
  arith,
}
use signalk_activecaptain_re.Base.Text.{Text, text_eq, text_beq_iff}
use signalk_activecaptain_re.Base.Equality.{◌==◌}
use signalk_activecaptain_re.Base.JsMap
use signalk_activecaptain_re.Base.JsMap.{JsMap}
use signalk_activecaptain_re.Base.Float.{Floats}
use signalk_activecaptain_re.Base.Lru.{Lru}
use signalk_activecaptain_re.Types.{Position, PoiSummary}
use signalk_activecaptain_re.Notification.Emitter.{sanitize_poi_id}
use signalk_activecaptain_re.Notification.Tracker
use signalk_activecaptain_re.Notification.Tracker.{IsSynced}
use signalk_activecaptain_re.Outputs.BridgeAirDraft.Resolver.{Resolver, clearance_meters}
use signalk_activecaptain_re.Outputs.BridgeAirDraft.Resolver.Laws.{
  known_clearance, clearance_meters-known,
}
use signalk_activecaptain_re.Outputs.RouteHazard.Corridor.{CorridorPoi, scan_route_corridor}
use signalk_activecaptain_re.Outputs.RouteHazard.CourseReader.{RoutePolyline}
use signalk_activecaptain_re.Outputs.RouteHazard.Alarms.{BridgeClearanceVerdict, config}
use signalk_activecaptain_re.Outputs.RouteHazard.Alarms.Laws.{has-evaluate, evaluate-IsSynced}
use signalk_activecaptain_re.Outputs.RouteHazard.Output.{
  RouteHazard, Readings, is_bridge, is_ahead, by_summary_id, verdict_on, set_verdict, judge_with,
  judge_all, resolve_too_low_bridges, scan_input, corridor_ahead, too_low_with, evaluate,
}

-- The later of two finds.
abbrev pub newer : {A : Type 0} → Option A → Option A → Option A
newer none o = o
newer (some a) o = some a

module _ {N : Type 0} ⦃F : Floats N⦄ where
  any-filter :
      (p q : CorridorPoi N → Bool) (cs : List (CorridorPoi N))
      → any p (filter q cs) ≡ any (λ c. p c && q c) cs
  any-filter p q [] = refl
  any-filter p q (c ∷ cs) = ground (arith, any-filter p q cs)

  -- The last summary that is listed under an id.
  abbrev pub last_summary : Text → List (PoiSummary N) → Option (PoiSummary N)
  last_summary k [] = none
  last_summary k (p ∷ ps) = newer (last_summary k ps) (if p.id == k then some p else none)

  get-by_summary_id :
      (pois : List (PoiSummary N)) (m : JsMap Text (PoiSummary N)) (k : Text)
      → JsMap.get k (by_summary_id pois m) ≡ newer (last_summary k pois) (JsMap.get k m)
  unfolding by_summary_id
  get-by_summary_id [] m k = refl
  get-by_summary_id (p ∷ ps) m k =
      ground (arith, get-by_summary_id ps (JsMap.set p.id p m) k, JsMap.get-set p.id k p m)

  get-set_verdict :
      (id k : Text) (o : Option (BridgeClearanceVerdict N))
      (m : JsMap Text (BridgeClearanceVerdict N))
      → JsMap.get k (set_verdict id o m) ≡ newer (if id == k then o else none) (JsMap.get k m)
  get-set_verdict id k none m = ground arith
  get-set_verdict id k (some v) m = ground (arith, JsMap.get-set id k v m)

  module _ {C : Type 0} (lru : Lru C (Option N)) (air_draft margin : N) where
    known_clearance-same :
        (c d : C) (p : PoiSummary N)
        → ((k : Text) → lru.get k c ≡ lru.get k d)
        → known_clearance lru c p ≡ known_clearance lru d p
    unfolding known_clearance
    known_clearance-same c d p h = ground (arith, h p.id)

    -- The verdict on the bridge of a summary, by the clearance that is known for it.
    abbrev pub known_verdict : C → Option (PoiSummary N) → Option (BridgeClearanceVerdict N)
    known_verdict cache none = none
    known_verdict cache (some summary) =
        verdict_on air_draft margin (known_clearance lru cache summary)

    known_verdict-same :
        (c d : C) (o : Option (PoiSummary N))
        → ((k : Text) → lru.get k c ≡ lru.get k d)
        → known_verdict c o ≡ known_verdict d o
    known_verdict-same c d none h = refl
    known_verdict-same c d (some p) h = rw (known_clearance-same c d p h) refl

    module _ (summaries : JsMap Text (PoiSummary N)) where
      judge_with_lem :
          (id k : Text) (o : Option (PoiSummary N)) (m : JsMap Text (BridgeClearanceVerdict N))
          (r : Resolver C)
          → (JsMap.get k (judge_with lru air_draft margin summaries id o m r).0
              ≡ newer (if id == k then known_verdict r.cache o else none) (JsMap.get k m))
            × ((j : Text)
                → lru.get j (judge_with lru air_draft margin summaries id o m r).1.cache
                  ≡ lru.get j r.cache)
      judge_with_lem id k none m r = (ground arith, λ j. refl)
      judge_with_lem id k (some summary) m r =
          let known = clearance_meters-known lru summary r in
          (
            get-set_verdict id k (verdict_on air_draft margin (clearance_meters lru summary r).0) m
                ∙ rw known.0 refl,
            known.1,
          )

      get-judge_all :
          (cs : List (CorridorPoi N)) (m : JsMap Text (BridgeClearanceVerdict N)) (r : Resolver C)
          (k : Text)
          → JsMap.get k (judge_all lru air_draft margin summaries cs m r).0
            ≡ newer
                (if any (λ c. c.id == k) cs
                  then known_verdict r.cache (JsMap.get k summaries)
                  else none)
                (JsMap.get k m)
      unfolding judge_all
      get-judge_all [] m r k = refl
      get-judge_all (c ∷ cs) m r k =
          let one = judge_with lru air_draft margin summaries c.id (JsMap.get c.id summaries) m r in
          let step = judge_with_lem c.id k (JsMap.get c.id summaries) m r in
          ground (
            arith,
            get-judge_all cs one.0 one.1 k,
            known_verdict-same one.1.cache r.cache (JsMap.get k summaries) step.1,
            step.0,
            text_beq_iff c.id k,
          )

    -- With a known air draft: an id has a verdict exactly when a bridge of the id is in the corridor,
    -- and the clearance that was known before the pass for the last summary of the id blocks the
    -- vessel; the verdict carries that clearance, the air draft and the margin.
    pub get-resolve_too_low_bridges :
        (corridor_pois : List (CorridorPoi N)) (pois : List (PoiSummary N)) (r : Resolver C)
        (k : Text)
        → JsMap.get k (resolve_too_low_bridges lru corridor_pois pois (some air_draft) margin r).0
          ≡ (if any (λ c. c.id == k && is_bridge c) corridor_pois
              then known_verdict r.cache (last_summary k pois)
              else none)
    unfolding resolve_too_low_bridges JsMap.get
    get-resolve_too_low_bridges corridor_pois pois r k =
        let summaries = by_summary_id pois [] in
        get-judge_all summaries (filter is_bridge corridor_pois) [] r k
        ∙ ground (
          arith,
          any-filter (λ c. c.id == k) is_bridge corridor_pois,
          get-by_summary_id pois [] k,
        )

  -- What the scan of the tick's route reports within the look-ahead.
  abbrev pub reported_ahead :
      Option (RoutePolyline N) → N → Readings N → Position N → List (PoiSummary N) → Text → Bool
  reported_ahead none width readings vessel pois k = false
  reported_ahead (some route) width readings vessel pois k =
      any (λ c. c.id == k && is_ahead c)
        (scan_route_corridor (scan_input route width readings vessel pois))

  any-corridor_ahead :
      (route : Option (RoutePolyline N)) (width : N) (readings : Readings N) (vessel : Position N)
      (pois : List (PoiSummary N)) (k : Text)
      → any (λ c. c.id == k) (corridor_ahead route width readings vessel pois)
        ≡ reported_ahead route width readings vessel pois k
  unfolding corridor_ahead
  any-corridor_ahead none width readings vessel pois k = refl
  any-corridor_ahead (some route) width readings vessel pois k =
      any-filter (λ c. c.id == k) is_ahead
        (scan_route_corridor (scan_input route width readings vessel pois))

  -- From a tracker in step: a tick leaves it in step, and after it an id is announced exactly when
  -- the output has a route for the tick and the scan of that route, from the latest fix, reports a
  -- point under the sanitized form of the id no farther along than the look-ahead.
  pub tick_announces :
      {C : Type 0} (lru : Lru C (Option N)) (readings : Readings N) (vessel : Position N)
      (pois : List (PoiSummary N)) (s : RouteHazard N C) (id : Text)
      → IsSynced config s.alarms
      → IsSynced config (evaluate lru readings vessel pois s).alarms
        × (Tracker.has id (evaluate lru readings vessel pois s).alarms
            ≡ reported_ahead s.tick_route s.corridor_width_meters readings vessel pois
                (sanitize_poi_id id))
  unfolding evaluate
  tick_announces lru readings vessel pois s id y =
      let corridor_pois =
        corridor_ahead s.tick_route s.corridor_width_meters readings vessel pois in
      let too_low = (too_low_with lru s.bridge_check readings corridor_pois pois s.resolver).0 in
      (
        evaluate-IsSynced too_low corridor_pois s.alarms y,
        has-evaluate too_low corridor_pois s.alarms id y
            ∙ any-corridor_ahead s.tick_route s.corridor_width_meters readings vessel pois
                (sanitize_poi_id id),
      )
