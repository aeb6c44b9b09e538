-- ===== src/Outputs/RouteHazard/Corridor/Laws.antt =====
-- What the scan of the route ahead reports.
use signalk_activecaptain_re.Base.{
  ◌≡◌, refl, ap, ◌∙◌, Bool, true, false, ◌&&◌, ◌||◌, Option, none, some, List, [], ◌∷◌, map, filter,
  any, all, arith, inl, inr, Bool-cases, Option-cases, if◌then◌else◌,
}
use signalk_activecaptain_re.Base.Text.{Text, text_eq, text_beq_iff}
use signalk_activecaptain_re.Base.Equality.{◌==◌}
use signalk_activecaptain_re.Base.JsMap
use signalk_activecaptain_re.Base.JsMap.{JsMap}
use signalk_activecaptain_re.Base.Float.{Floats, lit}
use signalk_activecaptain_re.Types.{Position, PoiSummary}
use signalk_activecaptain_re.Geo.{distance_meters}
use signalk_activecaptain_re.Shared.Numbers.{positive_finite_number}
use signalk_activecaptain_re.Outputs.RouteHazard.Corridor.{
  CorridorPoi, RouteCorridorScanInput, Leg, is_corridor_type, route_leg_points, is_usable,
  leg_between, in_corridor, keeps_existing, corridor_poi, flag_one, flag_leg, flag_next, flag_legs,
  nearer_first, sort_by_along, scan_points, scan_route_corridor,
}

-- Sorting by the distance along the route keeps what is in the list.
module _ {N : Type 0} ⦃F : Floats N⦄ (p : CorridorPoi N → Bool) where
  any-nearer_first :
      (c : CorridorPoi N) (cs : List (CorridorPoi N))
      → any p (nearer_first c cs) ≡ (p c || any p cs)
  any-nearer_first c [] = refl
  any-nearer_first c (d ∷ ds) = ground (arith, any-nearer_first c ds)

  pub any-sort : (cs : List (CorridorPoi N)) → any p (sort_by_along cs) ≡ any p cs
  unfolding sort_by_along
  any-sort [] = refl
  any-sort (c ∷ cs) = any-nearer_first c (sort_by_along cs) ∙ ap (λ b. p c || b) (any-sort cs)

module _ {N : Type 0} ⦃F : Floats N⦄ where
  -- The legs of a route with a direction: between every two neighbours that are apart.
  abbrev pub legs_from : N → Position N → List (Position N) → List (Leg N)
  legs_from distance start [] = []
  legs_from distance start (end ∷ points) =
      let skipped = legs_from distance end points in
      let taken = legs_from (F.add distance (distance_meters start end)) end points in
      if is_usable start end then leg_between start end distance ∷ taken else skipped

  abbrev pub legs_of : List (Position N) → List (Leg N)
  legs_of [] = []
  legs_of (start ∷ points) = legs_from (lit 0) start points

  -- A report of the id that is no farther off the route than `cross`.
  abbrev pub reports : Text → N → CorridorPoi N → Bool
  reports id cross c = c.id == id && F.le (F.abs c.cross_track_distance_meters) cross

  abbrev pub reported : Text → N → Option (CorridorPoi N) → Bool
  reported id cross none = false
  reported id cross (some c) = reports id cross c

  abbrev pub entry_keyed : Text × CorridorPoi N → Bool
  entry_keyed e = e.1.id == e.0

  pub any-values :
      (k : Text) (m : JsMap Text (CorridorPoi N))
      → all entry_keyed m ≡ true
      → any (λ c. c.id == k) (map (λ e. e.1) m) ≡ JsMap.has k m
  unfolding JsMap.get
  any-values k [] h = refl
  any-values k ((j, c) ∷ m) h =
      ground (arith, any-values k m, text_beq_iff c.id j, text_beq_iff c.id k, text_beq_iff j k)

  pub reported-values :
      (k : Text) (x : N) (m : JsMap Text (CorridorPoi N))
      → reported k x (JsMap.get k m) ≡ true
      → any (reports k x) (map (λ e. e.1) m) ≡ true
  unfolding JsMap.get
  reported-values k x [] h = h
  reported-values k x ((j, c) ∷ m) h = elim (Bool-cases (j == k)) [
    | inl e ↦ ground (arith, rw e at h)
    | inr e ↦ ground (arith, reported-values k x m (rw e at h))
  ]

  -- The point has the id and lies in the corridor of the leg.
  abbrev pub hit : N → Text → Leg N → PoiSummary N → Bool
  hit width k leg p = p.id == k && in_corridor width leg p

  module _ (width : N) (sog : Option N) where
    has-flag_one :
        (leg : Leg N) (poi : PoiSummary N) (m : JsMap Text (CorridorPoi N)) (k : Text)
        → JsMap.has k (flag_one width sog leg poi m) ≡ (JsMap.has k m || hit width k leg poi)
    unfolding flag_one
    has-flag_one leg poi m k =
        let c = corridor_poi sog leg poi in
        elim (Option-cases (JsMap.get poi.id m)) [
          | inl e ↦
              unfold keeps_existing in
              ground (arith, e, JsMap.get-set poi.id k c m, text_beq_iff poi.id k)
          | inr (old, e) ↦ ground (arith, e, JsMap.get-set poi.id k c m, text_beq_iff poi.id k)
        ]

    has-flag_leg :
        (leg : Leg N) (pois : List (PoiSummary N)) (m : JsMap Text (CorridorPoi N)) (k : Text)
        → JsMap.has k (flag_leg width sog leg pois m)
          ≡ (JsMap.has k m || any (hit width k leg) pois)
    unfolding flag_leg
    has-flag_leg leg [] m k = ground arith
    has-flag_leg leg (poi ∷ pois) m k =
        ground
          (arith, has-flag_leg leg pois (flag_one width sog leg poi m) k, has-flag_one leg poi m k)

    pub has-flag_legs :
        (pois : List (PoiSummary N)) (d : N) (start : Position N) (points : List (Position N))
        (m : JsMap Text (CorridorPoi N)) (k : Text)
        → JsMap.has k (flag_legs width sog pois d start points m)
          ≡ (JsMap.has k m || any (λ leg. any (hit width k leg) pois) (legs_from d start points))
    unfolding flag_legs flag_next
    has-flag_legs pois d start [] m k = ground arith
    has-flag_legs pois d start (end ∷ points) m k = elim (Bool-cases (is_usable start end)) [
      | inl e ↦
          let leg = leg_between start end d in
          let scanned = flag_leg width sog leg pois m in
          rw e (
            has-flag_legs pois (F.add d (distance_meters start end)) end points scanned k
            ∙ ground (arith, has-flag_leg leg pois m k))
      | inr e ↦ rw e (has-flag_legs pois d end points m k)
    ]

    flag_one_keyed :
        (leg : Leg N) (poi : PoiSummary N) (m : JsMap Text (CorridorPoi N))
        → all entry_keyed m ≡ true
        → all entry_keyed (flag_one width sog leg poi m) ≡ true
    unfolding flag_one
    flag_one_keyed leg poi m h = ground (
      arith,
      h,
      JsMap.all-set entry_keyed poi.id (corridor_poi sog leg poi) m,
      text_beq_iff poi.id poi.id,
    )

    flag_leg_keyed :
        (leg : Leg N) (pois : List (PoiSummary N)) (m : JsMap Text (CorridorPoi N))
        → all entry_keyed m ≡ true
        → all entry_keyed (flag_leg width sog leg pois m) ≡ true
    unfolding flag_leg
    flag_leg_keyed leg [] m h = h
    flag_leg_keyed leg (poi ∷ pois) m h =
        flag_leg_keyed leg pois (flag_one width sog leg poi m) (flag_one_keyed leg poi m h)

    pub flag_legs_keyed :
        (pois : List (PoiSummary N)) (d : N) (start : Position N) (points : List (Position N))
        (m : JsMap Text (CorridorPoi N))
        → all entry_keyed m ≡ true
        → all entry_keyed (flag_legs width sog pois d start points m) ≡ true
    unfolding flag_legs flag_next
    flag_legs_keyed pois d start [] m h = h
    flag_legs_keyed pois d start (end ∷ points) m h = elim (Bool-cases (is_usable start end)) [
      | inl e ↦
          let leg = leg_between start end d in
          rw e (
            flag_legs_keyed pois (F.add d (distance_meters start end)) end points
              (flag_leg width sog leg pois m) (flag_leg_keyed leg pois m h))
      | inr e ↦ rw e (flag_legs_keyed pois d end points m h)
    ]

  -- The points of the types that the scan flags.
  abbrev pub corridor_pois : List (PoiSummary N) → List (PoiSummary N)
  corridor_pois = filter (λ p. is_corridor_type p.type)

  any-scan_points :
      (width : N) (sog : Option N) (pois : List (PoiSummary N)) (points : List (Position N))
      (k : Text)
      → any (λ c. c.id == k) (scan_points width sog pois points) ≡ (
          F.lt (lit 0) width
          && any (λ leg. any (hit width k leg) (corridor_pois pois)) (legs_of points))
  unfolding scan_points JsMap.get
  any-scan_points width sog pois [] k = ground arith
  any-scan_points width sog pois (start ∷ points) k = elim (Bool-cases (F.lt (lit 0) width)) [
    | inl e ↦
        let flagged = flag_legs width sog (corridor_pois pois) (lit 0) start points [] in
        rw e (
          any-sort (λ c. c.id == k) (map (λ p. p.1) flagged)
          ∙ any-values k flagged
              (flag_legs_keyed width sog (corridor_pois pois) (lit 0) start points [] refl)
          ∙ has-flag_legs width sog (corridor_pois pois) (lit 0) start points [] k)
    | inr e ↦ rw e refl
  ]

  -- An id is reported exactly when the width is positive and a hazard, bridge or lock of the id
  -- projects into the corridor of some leg that has a direction.
  pub any-scan_route_corridor :
      (input : RouteCorridorScanInput N) (k : Text)
      → any (λ c. c.id == k) (scan_route_corridor input) ≡ (
          F.lt (lit 0) input.corridor_width_meters
          && any
              (λ leg. any (hit input.corridor_width_meters k leg) (corridor_pois input.pois))
              (legs_of (route_leg_points input.route)))
  unfolding scan_route_corridor
  any-scan_route_corridor input k =
      any-scan_points input.corridor_width_meters (positive_finite_number input.speed_over_ground)
        input.pois (route_leg_points input.route) k
