-- ===== src/Outputs/ProximityAlarm/Hysteresis.antt =====
-- The hysteresis of the hazard alarm: a repeated pass is silent, and the band between the two radii
-- changes nothing.
use signalk_activecaptain_re.Base.{
  ◌≡◌, refl, ◌∙◌, ap, ◌++◌, sym, Bool, true, false, ◌&&◌, ◌||◌, not, List, [], ◌∷◌, any, all, arith,
  Bool-cases, inl, inr,
}
use signalk_activecaptain_re.Base.Text.{Text, text_eq, text_beq_iff}
use signalk_activecaptain_re.Base.Equality.{◌==◌}
use signalk_activecaptain_re.Base.JsMap
use signalk_activecaptain_re.Base.JsMap.{JsMap}
use signalk_activecaptain_re.Base.Float.{Floats}
use signalk_activecaptain_re.Types.{Position, PoiSummary}
use signalk_activecaptain_re.Geo.{distance_meters}
use signalk_activecaptain_re.Notification.Emitter.{sanitize_poi_id, alarming_on}
use signalk_activecaptain_re.Notification.Tracker
use signalk_activecaptain_re.Notification.Tracker.{Tracker, TrackerConfig, IsSynced}
use signalk_activecaptain_re.Notification.Tracker.Laws.{has_lem}
use signalk_activecaptain_re.Alarms.Laws.{settle-same, all_keys}
use signalk_activecaptain_re.Outputs.ProximityAlarm.{config, raise, exit_radius, collect, evaluate}
use signalk_activecaptain_re.Outputs.ProximityAlarm.Laws.{
  should_alarm, has-collect, evaluate-IsSynced, has-evaluate,
}

module _ {N : Type 0} ⦃F : Floats N⦄ (radius : N) (vessel : Position N) where
  -- Every id of the list is its own sanitized form.
  abbrev pub SafeIds : List (PoiSummary N) → Type 0
  SafeIds pois = all (λ p. sanitize_poi_id p.id == p.id) pois ≡ true

  -- Some hazard of the list with the id meets the rule.
  abbrev pub listed : Bool → Text → List (PoiSummary N) → Bool
  listed was k pois = any (λ p. p.id == k && should_alarm radius vessel was p) pois

  listed-at :
      (t : Tracker Text) (k : Text) (pois : List (PoiSummary N))
      → any (λ p. p.id == k && should_alarm radius vessel (Tracker.has p.id t) p) pois
        ≡ listed (Tracker.has k t) k pois
  listed-at t k [] = refl
  listed-at t k (p ∷ ps) = elim (Bool-cases (p.id == k)) [
    | inl e ↦ rw ((text_beq_iff p.id k).0 e, listed-at t k ps)
    | inr e ↦ rw (e, listed-at t k ps)
  ]

  listed-safe :
      (was : Bool) (k : Text) (pois : List (PoiSummary N))
      → SafeIds pois
      → listed was k pois ≡ true
      → sanitize_poi_id k ≡ k
  listed-safe was k [] h l = ground arith
  listed-safe was k (p ∷ ps) h l =
      ground
        (arith, text_beq_iff p.id k, text_beq_iff (sanitize_poi_id p.id) p.id, listed-safe was k ps)

  listed-widen :
      (k : Text) (pois : List (PoiSummary N))
      → F.le radius (exit_radius radius) ≡ true
      → listed false k pois ≡ true
      → listed true k pois ≡ true
  unfolding should_alarm
  listed-widen k [] w h = h
  listed-widen k (p ∷ ps) w h = ground (
    arith,
    F.le_trans (distance_meters vessel p.position) radius (exit_radius radius),
    listed-widen k ps,
  )

  listed-twice :
      (was : Bool) (k : Text) (pois : List (PoiSummary N))
      → F.le radius (exit_radius radius) ≡ true
      → listed (listed was k pois) k pois ≡ listed was k pois
  listed-twice true k pois w = ground (arith, listed-widen k pois)
  listed-twice false k pois w = ground (arith, listed-widen k pois)

  -- What one pass tracks, in terms of the state before it.
  has-evaluate_safe :
      (pois : List (PoiSummary N)) (t : Tracker Text) (k : Text)
      → IsSynced config t
      → sanitize_poi_id k ≡ k
      → Tracker.has k (evaluate radius vessel pois t) ≡ listed (Tracker.has k t) k pois
  has-evaluate_safe pois t k s e = has-evaluate radius vessel pois t k s ∙ rw e (listed-at t k pois)

  has-collect_at :
      (pois : List (PoiSummary N)) (t : Tracker Text) (k : Text)
      → JsMap.has k (collect radius vessel t pois []) ≡ listed (Tracker.has k t) k pois
  unfolding JsMap.get
  has-collect_at pois t k = has-collect radius vessel t k pois [] ∙ listed-at t k pois

  -- A second pass over the same points of interest at the same position changes nothing and emits
  -- nothing, provided that the tracker was in step before the first, the ids are path-safe and the
  -- exit radius is not below the radius.
  pub evaluate_again :
      (pois : List (PoiSummary N)) (t : Tracker Text)
      → IsSynced config t
      → SafeIds pois
      → F.le radius (exit_radius radius) ≡ true
      → evaluate radius vessel pois (evaluate radius vessel pois t) ≡ evaluate radius vessel pois t
  evaluate_again pois t s safe w =
      let t1 = evaluate radius vessel pois t in
      let m1 = collect radius vessel t1 pois [] in
      unfold evaluate in
      settle-same config raise m1 t1
        (all_keys (λ k. Tracker.has k t1) (JsMap.keys m1) (λ k p. alarming_tracked k p))
        (all_keys (λ k. JsMap.has k m1) (JsMap.keys t1.active) (λ k p. tracked_alarming k p))
    where
      fixed :
          (k : Text)
          → sanitize_poi_id k ≡ k
          → JsMap.has k (collect radius vessel (evaluate radius vessel pois t) pois [])
            ≡ Tracker.has k (evaluate radius vessel pois t)
      fixed k e =
          has-collect_at pois (evaluate radius vessel pois t) k
          ∙ ap (λ b. listed b k pois) (has-evaluate_safe pois t k s e)
          ∙ listed-twice (Tracker.has k t) k pois w
          ∙ sym (has-evaluate_safe pois t k s e)

      alarming_tracked :
          (k : Text)
          → any
              (λ j. j == k)
              (JsMap.keys (collect radius vessel (evaluate radius vessel pois t) pois []))
            ≡ true
          → Tracker.has k (evaluate radius vessel pois t) ≡ true
      alarming_tracked k p =
          let m1 = collect radius vessel (evaluate radius vessel pois t) pois [] in
          let found : JsMap.has k m1 ≡ true = JsMap.has-keys k m1 ∙ p in
          let e =
            listed-safe (Tracker.has k (evaluate radius vessel pois t)) k pois safe
              (sym (has-collect_at pois (evaluate radius vessel pois t) k) ∙ found) in
          sym (fixed k e) ∙ found

      tracked_alarming :
          (k : Text)
          → any (λ j. j == k) (JsMap.keys (evaluate radius vessel pois t).active) ≡ true
          → JsMap.has k (collect radius vessel (evaluate radius vessel pois t) pois []) ≡ true
      tracked_alarming k p =
          let t1 = evaluate radius vessel pois t in
          let found : JsMap.has k t1.active ≡ true = JsMap.has-keys k t1.active ∙ p in
          let e = (evaluate-IsSynced radius vessel pois t s).keyed k found in
          fixed k e ∙ has_lem k t1 ∙ rw e found

  -- The test that every point of interest with the id is a hazard between the two radii.
  abbrev pub in_band : Text → List (PoiSummary N) → Bool
  in_band k pois =
      all
        (λ p.
          not (p.id == k)
          || (should_alarm radius vessel true p && not (should_alarm radius vessel false p)))
        pois

  listed_band :
      (was : Bool) (k : Text) (pois : List (PoiSummary N))
      → in_band k pois ≡ true
      → any (λ p. p.id == k) pois ≡ true
      → listed was k pois ≡ was
  listed_band was k [] h l = ground arith
  listed_band true k (p ∷ ps) h l = ground (arith, listed_band true k ps)
  listed_band false k (p ∷ ps) h l = ground (arith, listed_none k ps, listed_band false k ps)
    where
      listed_none :
          (j : Text) (qs : List (PoiSummary N)) → in_band j qs ≡ true → listed false j qs ≡ false
      listed_none j [] g = refl
      listed_none j (q ∷ qs) g = ground (arith, listed_none j qs)

  -- From a tracker in step, for a path-safe id that is listed only as hazards between the radius and
  -- the exit radius: the id is tracked after the pass exactly when it was before.
  pub evaluate_in_band :
      (pois : List (PoiSummary N)) (t : Tracker Text) (k : Text)
      → IsSynced config t
      → sanitize_poi_id k ≡ k
      → in_band k pois ≡ true
      → any (λ p. p.id == k) pois ≡ true
      → Tracker.has k (evaluate radius vessel pois t) ≡ Tracker.has k t
  evaluate_in_band pois t k s e h l =
      has-evaluate_safe pois t k s e ∙ listed_band (Tracker.has k t) k pois h l

  -- Where nothing is listed under the sanitized form of an id, a pass from a tracker in step leaves the id untracked and
  -- its path without an alarm, also if a hazard is listed under the id itself and is in range.
  pub unsafe_id_cleared :
      (pois : List (PoiSummary N)) (t : Tracker Text) (id : Text)
      → IsSynced config t
      → any (λ p. p.id == sanitize_poi_id id) pois ≡ false
      → (Tracker.has id (evaluate radius vessel pois t) ≡ false)
        × (alarming_on
              (config.path_prefix ++ sanitize_poi_id id)
              (evaluate radius vessel pois t).app.deltas
            ≡ false)
  unsafe_id_cleared pois t id s unlisted =
      let gone : Tracker.has id (evaluate radius vessel pois t) ≡ false =
        has-evaluate radius vessel pois t id s ∙ none_listed (sanitize_poi_id id) pois unlisted in
      (
        gone,
        (evaluate-IsSynced radius vessel pois t s).wire (sanitize_poi_id id)
            ∙ sym (has_lem id (evaluate radius vessel pois t))
            ∙ gone,
      )
    where
      none_listed :
          (k : Text) (ps : List (PoiSummary N))
          → any (λ p. p.id == k) ps ≡ false
          → any (λ p. p.id == k && should_alarm radius vessel (Tracker.has p.id t) p) ps ≡ false
      none_listed k [] h = refl
      none_listed k (p ∷ ps) h = ground (arith, none_listed k ps)
