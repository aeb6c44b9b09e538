-- ===== src/Outputs/RouteHazard/CourseReader/Laws.antt =====
-- Which refresh decides the cached route, under every order in which the promises settle.
use signalk_activecaptain_re.Base.{
  ℕ, ◌≡◌, ◌≢◌, refl, ◌∙◌, Option, none, some, List, [], ◌∷◌, any, arith, Bool-cases, Option-cases,
  inl, inr,
}
use signalk_activecaptain_re.Base.Text.{Text}
use signalk_activecaptain_re.Base.Float.{Floats}
use signalk_activecaptain_re.Types.{Value}
use signalk_activecaptain_re.Outputs.RouteHazard.CourseReader.{
  RoutePolyline, ActiveRoute, Pending, awaiting_course, awaiting_resource, Reader, parse_route_id,
  apply_refresh, schedule_refresh, is_course, is_resource, drop_pending, await_resource,
  after_course, course_settled, find_resource, resolved_route, resource_settled,
  on_active_route_delta, stop,
}

-- A promise that settles.
pub data Settle (N : Type 0) : Type 0 where
  course : ℕ → Option (Option (ActiveRoute N)) → Settle N
  resource : ℕ → Option (Value N) → Settle N

abbrev pub generation_of : {N : Type 0} → Settle N → ℕ
generation_of (course g outcome) = g
generation_of (resource g outcome) = g

-- All that can happen to a reader.
pub data Event (N : Type 0) : Type 0 where
  route_delta : Value N → Event N
  next_point_delta : Event N
  settles : Settle N → Event N
  stops : Event N

module _ {N : Type 0} ⦃F : Floats N⦄ where
  unfoldable pub settle : Settle N → Reader N → Reader N
  settle (course g outcome) r = course_settled g outcome r
  settle (resource g outcome) r = resource_settled g outcome r

  unfoldable pub settle_all : List (Settle N) → Reader N → Reader N
  settle_all [] r = r
  settle_all (s ∷ ss) r = settle_all ss (settle s r)

  unfoldable pub step : Event N → Reader N → Reader N
  step (route_delta v) r = on_active_route_delta v r
  step next_point_delta r = schedule_refresh r
  step (settles s) r = settle s r
  step stops r = stop r

  unfoldable pub run : List (Event N) → Reader N → Reader N
  run [] r = r
  run (e ∷ es) r = run es (step e r)

  -- What a step leaves alone that is not about generation `g`.
  pub record Keeps (g : ℕ) (r s : Reader N) : Type 0 where
    pub stopped : s.stopped ≡ r.stopped
    pub route : s.current_route ≡ r.current_route
    pub latest : s.refresh_generation ≡ r.refresh_generation
    pub course : any (is_course g) s.pending ≡ any (is_course g) r.pending
    pub resource : find_resource g s.pending ≡ find_resource g r.pending

  drop_course_course :
      (g h : ℕ) (xs : List (Pending N))
      → h ≢ g
      → any (is_course g) (drop_pending (is_course h) xs) ≡ any (is_course g) xs
  unfolding drop_pending
  drop_course_course g h [] n = refl
  drop_course_course g h (awaiting_course i ∷ xs) n = ground (arith, drop_course_course g h xs n)
  drop_course_course g h (awaiting_resource i id route ∷ xs) n = drop_course_course g h xs n

  drop_resource_course :
      (g h : ℕ) (xs : List (Pending N))
      → any (is_course g) (drop_pending (is_resource h) xs) ≡ any (is_course g) xs
  unfolding drop_pending
  drop_resource_course g h [] = refl
  drop_resource_course g h (awaiting_course i ∷ xs) = ground (arith, drop_resource_course g h xs)
  drop_resource_course g h (awaiting_resource i id route ∷ xs) =
      ground (arith, drop_resource_course g h xs)

  drop_course_resource :
      (g h : ℕ) (xs : List (Pending N))
      → find_resource g (drop_pending (is_course h) xs) ≡ find_resource g xs
  unfolding drop_pending
  drop_course_resource g h [] = refl
  drop_course_resource g h (awaiting_course i ∷ xs) = ground (arith, drop_course_resource g h xs)
  drop_course_resource g h (awaiting_resource i id route ∷ xs) =
      ground (arith, drop_course_resource g h xs)

  drop_resource_resource :
      (g h : ℕ) (xs : List (Pending N))
      → h ≢ g
      → find_resource g (drop_pending (is_resource h) xs) ≡ find_resource g xs
  unfolding drop_pending
  drop_resource_resource g h [] n = refl
  drop_resource_resource g h (awaiting_course i ∷ xs) n = drop_resource_resource g h xs n
  drop_resource_resource g h (awaiting_resource i id route ∷ xs) n =
      ground (arith, drop_resource_resource g h xs n)

  apply_stale :
      (g : ℕ) (route : Option (RoutePolyline N)) (r : Reader N)
      → g ≢ r.refresh_generation
      → apply_refresh g route r ≡ r
  unfolding apply_refresh
  apply_stale g route r n = ground arith

  pub settle_other :
      (g : ℕ) (s : Settle N) (r : Reader N)
      → r.refresh_generation ≡ g
      → generation_of s ≢ g
      → Keeps g r (settle s r)
  unfolding settle course_settled resource_settled
  settle_other g (course h outcome) r e n = elim (Bool-cases (any (is_course h) r.pending)) [
    | inl f ↦ rw f (course_other outcome)
    | inr f ↦
        rw f
          (record { stopped = refl; route = refl; latest = refl; course = refl; resource = refl })
  ]
    where
      dropped : Reader N
      dropped = record r { pending = drop_pending (is_course h) r.pending }

      dropped-Keeps : Keeps g r dropped
      dropped-Keeps = record {
        stopped = refl;
        route = refl;
        latest = refl;
        course = drop_course_course g h r.pending n;
        resource = drop_course_resource g h r.pending;
      }

      stale : (o : Option (RoutePolyline N)) → Keeps g r (apply_refresh h o dropped)
      stale o = rw (apply_stale h o dropped (λ p. n (p ∙ e))) dropped-Keeps

      waiting :
          (route : ActiveRoute N) (id : Option Text) → Keeps g r (await_resource h route id dropped)
      waiting route none = stale none
      waiting route (some id) = record {
        stopped = refl;
        route = refl;
        latest = refl;
        course = drop_course_course g h r.pending n;
        resource = ground (arith, drop_course_resource g h r.pending);
      }

      course_other : (o : Option (Option (ActiveRoute N))) → Keeps g r (after_course h o dropped)
      course_other none = stale none
      course_other (some none) = stale none
      course_other (some (some route)) = waiting route (parse_route_id route.href)
  settle_other g (resource h outcome) r e n = elim (Option-cases (find_resource h r.pending)) [
    | inl f ↦
        rw (f, resource_settled)
          (record { stopped = refl; route = refl; latest = refl; course = refl; resource = refl })
    | inr (found, f) ↦ rw (f, resource_settled) (stale (resolved_route found.0 found.1 outcome))
  ]
    where
      dropped : Reader N
      dropped = record r { pending = drop_pending (is_resource h) r.pending }

      stale : (o : Option (RoutePolyline N)) → Keeps g r (apply_refresh h o dropped)
      stale o = rw (apply_stale h o dropped (λ p. n (p ∙ e))) (record {
        stopped = refl;
        route = refl;
        latest = refl;
        course = drop_resource_course g h r.pending;
        resource = drop_resource_resource g h r.pending n;
      })
