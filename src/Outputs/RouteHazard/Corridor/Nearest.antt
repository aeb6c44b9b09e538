-- ===== src/Outputs/RouteHazard/Corridor/Nearest.antt =====
-- The scan reports of every point the projection that is nearest to the route.
use signalk_activecaptain_re.Base.{
  ◌≡◌, refl, ◌∙◌, Bool, true, ◌&&◌, ◌||◌, not, Option, none, some, List, [], ◌∷◌, map, any, all,
  arith, inl, inr, Bool-cases, Option-cases,
}
use signalk_activecaptain_re.Base.Text.{Text, text_eq, text_beq_iff}
use signalk_activecaptain_re.Base.Equality.{◌==◌}
use signalk_activecaptain_re.Base.JsMap
use signalk_activecaptain_re.Base.JsMap.{JsMap}
use signalk_activecaptain_re.Base.Float.{Floats, lit}
use signalk_activecaptain_re.Types.{Position, PoiSummary}
use signalk_activecaptain_re.Geo.{distance_meters}
use signalk_activecaptain_re.Shared.Numbers.{positive_finite_number}
use signalk_activecaptain_re.Outputs.RouteHazard.Corridor.{
  CorridorPoi, RouteCorridorScanInput, Leg, route_leg_points, is_usable, leg_between, projection,
  in_corridor, keeps_existing, corridor_poi, flag_one, flag_leg, flag_next, flag_legs,
  sort_by_along, scan_points, scan_route_corridor,
}
use signalk_activecaptain_re.Outputs.RouteHazard.Corridor.Laws.{
  any-sort, legs_from, legs_of, reports, reported, reported-values, corridor_pois,
}

module _ {N : Type 0} ⦃F : Floats N⦄ where
  abbrev sound_report : Text → Option (CorridorPoi N) → Bool
  sound_report k none = true
  sound_report k (some c) = c.id == k && F.is_finite (F.abs c.cross_track_distance_meters)

  abbrev Finite : JsMap Text (CorridorPoi N) → Type 0
  Finite m = (k : Text) → sound_report k (JsMap.get k m) ≡ true

  abbrev pub cross : Leg N → PoiSummary N → N
  cross leg poi = F.abs (projection leg poi).0

  module _ (width : N) (sog : Option N) where
    abbrev near_report : Leg N → PoiSummary N → JsMap Text (CorridorPoi N) → Bool
    near_report leg poi m = reported poi.id (cross leg poi) (JsMap.get poi.id m)

    cross-finite :
        (leg : Leg N) (poi : PoiSummary N)
        → in_corridor width leg poi ≡ true
        → F.is_finite (cross leg poi) ≡ true
    unfolding in_corridor
    cross-finite leg poi h = ground (arith, h, F.finite_abs (projection leg poi).0)

    flag_one-Finite :
        (leg : Leg N) (poi : PoiSummary N) (m : JsMap Text (CorridorPoi N))
        → Finite m
        → Finite (flag_one width sog leg poi m)
    unfolding flag_one
    flag_one-Finite leg poi m h k = ground (
      arith,
      h k,
      JsMap.get-set poi.id k (corridor_poi sog leg poi) m,
      cross-finite leg poi,
      text_beq_iff poi.id k,
    )

    -- A report is replaced by none that is farther off the route.
    flag_one_keeps :
        (leg : Leg N) (poi : PoiSummary N) (m : JsMap Text (CorridorPoi N)) (k : Text) (x : N)
        → Finite m
        → reported k x (JsMap.get k m) ≡ true
        → reported k x (JsMap.get k (flag_one width sog leg poi m)) ≡ true
    unfolding flag_one
    flag_one_keeps leg poi m k x h r = elim (Bool-cases (poi.id == k)) [
      | inl e ↦ elim (Option-cases (JsMap.get k m)) [
        | inl q ↦ ground (arith, q, r)
        | inr (old, q) ↦
            let f = h k in
            let c = cross-finite leg poi in
            let a = F.abs old.cross_track_distance_meters in
            unfold keeps_existing in
            ground (
              arith,
              q,
              r,
              f,
              c,
              e,
              text_beq_iff poi.id k,
              JsMap.get-set poi.id k (corridor_poi sog leg poi) m,
              F.not_lt→le a (cross leg poi),
              F.le_trans (cross leg poi) a x,
            )
      ]
      | inr e ↦ ground (arith, r, e, JsMap.get-set poi.id k (corridor_poi sog leg poi) m)
    ]

    -- A point in the corridor is reported, no farther off than on this leg.
    flag_one_reports :
        (leg : Leg N) (poi : PoiSummary N) (m : JsMap Text (CorridorPoi N))
        → Finite m
        → in_corridor width leg poi ≡ true
        → near_report leg poi (flag_one width sog leg poi m) ≡ true
    unfolding flag_one keeps_existing
    flag_one_reports leg poi m f h =
        let finite = cross-finite leg poi h in
        let self = text_beq_iff poi.id poi.id in
        let set = JsMap.get-set poi.id poi.id (corridor_poi sog leg poi) m in
        elim (Option-cases (JsMap.get poi.id m)) [
          | inl q ↦ ground (arith, q, h, set, finite, self, F.le_refl (cross leg poi))
          | inr (old, q) ↦
              let a = F.abs old.cross_track_distance_meters in
              let sound = f poi.id in
              ground (
                arith,
                q,
                h,
                set,
                finite,
                self,
                sound,
                F.le_refl (cross leg poi),
                F.lt→le a (cross leg poi),
                F.same→le a (cross leg poi),
              )
        ]

    flag_leg-Finite :
        (leg : Leg N) (pois : List (PoiSummary N)) (m : JsMap Text (CorridorPoi N))
        → Finite m
        → Finite (flag_leg width sog leg pois m)
    unfolding flag_leg
    flag_leg-Finite leg [] m f = f
    flag_leg-Finite leg (poi ∷ pois) m f =
        flag_leg-Finite leg pois (flag_one width sog leg poi m) (flag_one-Finite leg poi m f)

    flag_leg_keeps :
        (leg : Leg N) (pois : List (PoiSummary N)) (m : JsMap Text (CorridorPoi N)) (k : Text)
        (x : N)
        → Finite m
        → reported k x (JsMap.get k m) ≡ true
        → reported k x (JsMap.get k (flag_leg width sog leg pois m)) ≡ true
    unfolding flag_leg
    flag_leg_keeps leg [] m k x f r = r
    flag_leg_keeps leg (poi ∷ pois) m k x f r =
        flag_leg_keeps leg pois (flag_one width sog leg poi m) k x (flag_one-Finite leg poi m f)
          (flag_one_keeps leg poi m k x f r)

    flag_legs_keeps :
        (pois : List (PoiSummary N)) (d : N) (start : Position N) (points : List (Position N))
        (m : JsMap Text (CorridorPoi N)) (k : Text) (x : N)
        → Finite m
        → reported k x (JsMap.get k m) ≡ true
        → reported k x (JsMap.get k (flag_legs width sog pois d start points m)) ≡ true
    unfolding flag_legs flag_next
    flag_legs_keeps pois d start [] m k x f r = r
    flag_legs_keeps pois d start (end ∷ points) m k x f r =
        elim (Bool-cases (is_usable start end)) [
          | inl e ↦
              let leg = leg_between start end d in
              rw e (
                flag_legs_keeps pois (F.add d (distance_meters start end)) end points
                  (flag_leg width sog leg pois m) k x (flag_leg-Finite leg pois m f)
                  (flag_leg_keeps leg pois m k x f r))
          | inr e ↦ rw e (flag_legs_keeps pois d end points m k x f r)
        ]

    -- The test that every point of the list that is in the corridor of the leg has a report.
    abbrev leg_reported : JsMap Text (CorridorPoi N) → List (PoiSummary N) → Leg N → Bool
    leg_reported m pois leg = all (λ p. not (in_corridor width leg p) || near_report leg p m) pois

    leg_reported_kept :
        (pois : List (PoiSummary N)) (leg : Leg N) (m after : JsMap Text (CorridorPoi N))
        → ((k : Text) (x : N)
            → reported k x (JsMap.get k m) ≡ true
            → reported k x (JsMap.get k after) ≡ true)
        → leg_reported m pois leg ≡ true
        → leg_reported after pois leg ≡ true
    leg_reported_kept [] leg m after keeps h = refl
    leg_reported_kept (poi ∷ pois) leg m after keeps h =
        ground (arith, h, keeps poi.id (cross leg poi), leg_reported_kept pois leg m after keeps)

    flag_leg_reports :
        (leg : Leg N) (pois : List (PoiSummary N)) (m : JsMap Text (CorridorPoi N))
        → Finite m
        → leg_reported (flag_leg width sog leg pois m) pois leg ≡ true
    unfolding flag_leg
    flag_leg_reports leg [] m f = refl
    flag_leg_reports leg (poi ∷ pois) m f =
        let one = flag_one width sog leg poi m in
        let finite = flag_one-Finite leg poi m f in
        ground (
          arith,
          flag_one_reports leg poi m f,
          flag_leg_keeps leg pois one poi.id (cross leg poi) finite,
          flag_leg_reports leg pois one finite,
        )

    flag_legs_report :
        (pois : List (PoiSummary N)) (d : N) (start : Position N) (points : List (Position N))
        (m : JsMap Text (CorridorPoi N))
        → Finite m
        → all
            (leg_reported (flag_legs width sog pois d start points m) pois)
            (legs_from d start points)
          ≡ true
    unfolding flag_legs flag_next
    flag_legs_report pois d start [] m f = refl
    flag_legs_report pois d start (end ∷ points) m f = elim (Bool-cases (is_usable start end)) [
      | inl e ↦
          let leg = leg_between start end d in
          let next = F.add d (distance_meters start end) in
          let scanned = flag_leg width sog leg pois m in
          let finite = flag_leg-Finite leg pois m f in
          rw e (
            ground (
              arith,
              leg_reported_kept pois leg scanned (flag_legs width sog pois next end points scanned)
                  (λ k x. flag_legs_keeps pois next end points scanned k x finite)
                  (flag_leg_reports leg pois m f),
              flag_legs_report pois next end points scanned finite,
            ))
      | inr e ↦ rw e (flag_legs_report pois d end points m f)
    ]

    -- The same test of a list of reports.
    abbrev pub all_reported : List (CorridorPoi N) → List (PoiSummary N) → List (Leg N) → Bool
    all_reported result pois legs =
        all
          (λ leg.
            all (λ p. not (in_corridor width leg p) || any (reports p.id (cross leg p)) result)
              pois)
          legs

    leg_listed :
        (m : JsMap Text (CorridorPoi N)) (result : List (CorridorPoi N)) (leg : Leg N)
        (pois : List (PoiSummary N))
        → ((k : Text) (x : N)
            → reported k x (JsMap.get k m) ≡ true
            → any (reports k x) result ≡ true)
        → leg_reported m pois leg ≡ true
        → all (λ p. not (in_corridor width leg p) || any (reports p.id (cross leg p)) result) pois
          ≡ true
    leg_listed m result leg [] found h = refl
    leg_listed m result leg (poi ∷ pois) found h =
        ground (arith, h, found poi.id (cross leg poi), leg_listed m result leg pois found)

    all_listed :
        (m : JsMap Text (CorridorPoi N)) (result : List (CorridorPoi N))
        (pois : List (PoiSummary N)) (legs : List (Leg N))
        → ((k : Text) (x : N)
            → reported k x (JsMap.get k m) ≡ true
            → any (reports k x) result ≡ true)
        → all (leg_reported m pois) legs ≡ true
        → all_reported result pois legs ≡ true
    all_listed m result pois [] found h = refl
    all_listed m result pois (leg ∷ legs) found h =
        ground (arith, h, leg_listed m result leg pois found, all_listed m result pois legs found)

    points_reported :
        (pois : List (PoiSummary N)) (points : List (Position N))
        → F.lt (lit 0) width ≡ true
        → all_reported (scan_points width sog pois points) (corridor_pois pois) (legs_of points)
          ≡ true
    unfolding scan_points JsMap.get
    points_reported pois [] w = refl
    points_reported pois (start ∷ points) w =
        let flagged = flag_legs width sog (corridor_pois pois) (lit 0) start points [] in
        rw w (
          all_listed flagged (sort_by_along (map (λ p. p.1) flagged)) (corridor_pois pois)
            (legs_from (lit 0) start points)
            (λ k x r.
              any-sort (reports k x) (map (λ p. p.1) flagged) ∙ reported-values k x flagged r)
            (flag_legs_report (corridor_pois pois) (lit 0) start points [] (λ k. refl)))

  -- Where the width is positive: for every leg that has a direction, and every hazard, bridge or lock
  -- in the corridor of the leg, the scan has a report of the point's id that is no farther off the
  -- route than the point is off that leg.
  pub scan_route_corridor_nearest :
      (input : RouteCorridorScanInput N)
      → F.lt (lit 0) input.corridor_width_meters ≡ true
      → all_reported input.corridor_width_meters none
          (scan_route_corridor input)
          (corridor_pois input.pois)
          (legs_of (route_leg_points input.route))
        ≡ true
  unfolding scan_route_corridor
  scan_route_corridor_nearest input w =
      points_reported input.corridor_width_meters (positive_finite_number input.speed_over_ground)
        input.pois (route_leg_points input.route) w
