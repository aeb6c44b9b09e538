-- ===== src/Outputs/RouteHazard/CourseReader/Route.antt =====
-- The route that a refresh builds: it is never empty, and it is the end of the route in travel order.
use signalk_activecaptain_re.Base.{
  ℕ, zero, suc, ◌-◌, ◌^◌, ◌<◌, ◌≡◌, ◌≢◌, refl, ◌∙◌, sym, ap, none, some, List, [], ◌∷◌, arith,
  if◌then◌else◌, length, drop, reverse, length-append,
}
use mathlib.Core.List.{reverse-cons}
use signalk_activecaptain_re.Base.Text.{Text}
use signalk_activecaptain_re.Base.Float.{Floats, lit}
use signalk_activecaptain_re.Types.{Value, num, arr, Position}
use signalk_activecaptain_re.Outputs.RouteHazard.CourseReader.{
  RoutePolyline, ActiveRoute, extract_coordinates, clamp_index, route_name, build_route_polyline,
  coordinates_of, route_geometry, non_empty, usable_positions,
}

length-reverse {ℓ} : {A : Type ℓ} (xs : List A) → length (reverse xs) ≡ length xs
length-reverse [] = refl
length-reverse (x ∷ xs) =
    ap length (reverse-cons x xs)
    ∙ omega (arith, length-append (reverse xs) (x ∷ []), length-reverse xs)

drop_cons {ℓ} :
    {A : Type ℓ} (n : ℕ) (xs : List A)
    → n < length xs
    → (x : A) × (rest : List A) × (drop n xs ≡ x ∷ rest)
drop_cons n [] h = absurd (omega arith)
drop_cons zero (x ∷ xs) h = (x, xs, refl)
drop_cons (suc n) (x ∷ xs) h = drop_cons n xs (omega arith)

module _ {N : Type 0} ⦃F : Floats N⦄ where
  clamp_index-lt : (v : Value N) (n : ℕ) → 0 < n → n < 2 ^ 53 → clamp_index v n < n
  unfolding clamp_index
  clamp_index-lt (num x) n h b =
      ground (arith, F.finite_literal (n - 1), F.not_lt→le (lit (n - 1)) x, F.to_nat-le x (n - 1))
  clamp_index-lt _ n h b = h

  non_empty-pos : (ps qs : List (Position N)) → non_empty ps ≡ some qs → 0 < length qs
  non_empty-pos [] qs h = cc
  non_empty-pos (p ∷ ps) qs h = ground arith

  coordinates_of-pos :
      (v : Value N) (ps : List (Position N)) → coordinates_of v ≡ some ps → 0 < length ps
  coordinates_of-pos (arr entries) ps h = non_empty-pos (usable_positions entries) ps h
  coordinates_of-pos _ ps h = cc

  extract_coordinates-pos :
      (resource : Value N) (ps : List (Position N))
      → extract_coordinates resource ≡ some ps
      → 0 < length ps
  unfolding extract_coordinates
  extract_coordinates-pos resource ps e = coordinates_of-pos (route_geometry resource) ps e

  unfoldable pub travel_order : ActiveRoute N → List (Position N) → List (Position N)
  travel_order route ps = if route.is_reverse then reverse ps else ps

  length-travel_order :
      (route : ActiveRoute N) (ps : List (Position N)) → length (travel_order route ps) ≡ length ps
  unfolding travel_order
  length-travel_order route ps = ground (arith, length-reverse ps)

  -- A resource with a usable coordinate always gives a route, and its waypoints are the end of the
  -- coordinates in travel order, from the clamped point index, and never empty: the code's branch
  -- for a route with no waypoints ahead is not reached. (The route has fewer than 2^53 points.)
  pub build_route_total :
      (id : Text) (route : ActiveRoute N) (resource : Value N) (ps : List (Position N))
      → extract_coordinates resource ≡ some ps
      → length ps < 2 ^ 53
      → (built : RoutePolyline N) × (build_route_polyline id route resource ≡ some built)
        × (built.waypoints
            ≡ drop (clamp_index route.point_index (length ps)) (travel_order route ps))
        × (built.waypoints ≢ [])
  unfolding build_route_polyline travel_order
  build_route_total id route resource ps e b =
      let order = travel_order route ps in
      let same = length-travel_order route ps in
      let i = clamp_index route.point_index (length ps) in
      let inside : i < length order = omega (
        arith,
        same,
        clamp_index-lt route.point_index (length ps) (extract_coordinates-pos resource ps e) b,
      ) in
      let (p, rest, ahead) = drop_cons i order inside in
      (
        record {
          route_id = id;
          name = route_name route.name;
          vessel_position = none;
          waypoints = p ∷ rest;
        },
        rw (e, build_route_polyline) (rw (same, ahead) refl),
        sym ahead,
        λ h. cc,
      )
