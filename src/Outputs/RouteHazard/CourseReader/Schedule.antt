-- ===== src/Outputs/RouteHazard/CourseReader/Schedule.antt =====
-- The reader over whole schedules: a superseded refresh changes nothing, the latest one decides, and
-- after the stop the cache stays empty.
use signalk_activecaptain_re.Base.{
  ℕ, ◌+◌, ◌≡◌, ◌≢◌, refl, ◌∙◌, true, false, Option, none, some, List, [], ◌∷◌, any, arith,
  Bool-cases, Option-cases, inl, inr,
}
use signalk_activecaptain_re.Base.Text.{Text}
use signalk_activecaptain_re.Base.Float.{Floats}
use signalk_activecaptain_re.Types.{Value, null, obj, Fields}
use signalk_activecaptain_re.Outputs.RouteHazard.CourseReader.{
  RoutePolyline, ActiveRoute, Reader, parse_route_id, apply_refresh, schedule_refresh, is_course,
  is_resource, drop_pending, after_course, course_settled, find_resource, resolved_route,
  resource_settled, on_active_route_delta, stop,
}
use signalk_activecaptain_re.Outputs.RouteHazard.CourseReader.Laws.{
  Settle, course, resource, generation_of, Event, route_delta, next_point_delta, settles, stops,
  settle, settle_all, step, run, Keeps, settle_other,
}

-- No promise of the list is of the generation.
abbrev pub Others : {N : Type 0} → ℕ → List (Settle N) → Type 0
Others g [] = Unit {0}
Others g (s ∷ ss) = (generation_of s ≢ g) × Others g ss

module _ {N : Type 0} ⦃F : Floats N⦄ where
  settle_all-Others :
      (g : ℕ) (ss : List (Settle N)) (r : Reader N)
      → r.refresh_generation ≡ g
      → Others g ss
      → Keeps g r (settle_all ss r)
  unfolding settle_all
  settle_all-Others g [] r e o = record {
    stopped = refl;
    route = refl;
    latest = refl;
    course = refl;
    resource = refl;
  }
  settle_all-Others g (s ∷ ss) r e o =
      let one = settle_other g s r e o.0 in
      let rest = settle_all-Others g ss (settle s r) (one.latest ∙ e) o.1 in
      record {
        stopped = rest.stopped ∙ one.stopped;
        route = rest.route ∙ one.route;
        latest = rest.latest ∙ one.latest;
        course = rest.course ∙ one.course;
        resource = rest.resource ∙ one.resource;
      }

  -- However many promises of refreshes that are not the latest settle, in whatever order and with
  -- whatever outcome, the cached route stays as it is.
  pub superseded_refresh_ignored :
      (ss : List (Settle N)) (r : Reader N)
      → Others r.refresh_generation ss
      → (settle_all ss r).current_route ≡ r.current_route
  superseded_refresh_ignored ss r o = (settle_all-Others r.refresh_generation ss r refl o).route

  record Waits (g : ℕ) (id : Text) (route : ActiveRoute N) (r : Reader N) : Type 0 where
    live : r.stopped ≡ false
    latest : r.refresh_generation ≡ g
    found : find_resource g r.pending ≡ some (id, route)

  course_answers :
      (g : ℕ) (id : Text) (route : ActiveRoute N) (r : Reader N)
      → r.stopped ≡ false
      → r.refresh_generation ≡ g
      → any (is_course g) r.pending ≡ true
      → parse_route_id route.href ≡ some id
      → Waits g id route (course_settled g (some (some route)) r)
  unfolding course_settled
  course_answers g id route r live latest waits parsed =
      rw waits (rw parsed (record { live = live; latest = latest; found = ground arith }))

  resource_answers :
      (g : ℕ) (id : Text) (route : ActiveRoute N) (outcome : Option (Value N)) (r : Reader N)
      → Waits g id route r
      → (resource_settled g outcome r).current_route ≡ resolved_route id route outcome
  unfolding resource_settled
  resource_answers g id route outcome r w =
      rw (w.found, resource_settled) (ground (arith, w.live, w.latest))

  Waits-Others :
      (g : ℕ) (id : Text) (route : ActiveRoute N) (ss : List (Settle N)) (r : Reader N)
      → Others g ss
      → Waits g id route r
      → Waits g id route (settle_all ss r)
  Waits-Others g id route ss r o w =
      let k = settle_all-Others g ss r w.latest o in
      record {
        live = k.stopped ∙ w.live;
        latest = k.latest ∙ w.latest;
        found = k.resource ∙ w.found;
      }

  scheduled :
      (r : Reader N)
      → r.stopped ≡ false
      → ((schedule_refresh r).stopped ≡ false)
        × ((schedule_refresh r).refresh_generation ≡ r.refresh_generation + 1)
        × (any (is_course (r.refresh_generation + 1)) (schedule_refresh r).pending ≡ true)
  unfolding schedule_refresh
  scheduled r live = rw live (refl, refl, ground arith)

  -- In a running reader, for a course whose href has a route id, a refresh that is the latest until
  -- it ends decides the route: between its start, the answer of
  -- the course and the answer for the resource any promises of other refreshes may settle, and the
  -- cache ends with the polyline built from its own answers.
  pub latest_refresh_decides :
      (r : Reader N) (before between : List (Settle N)) (active_route : ActiveRoute N)
      (route_id : Text) (outcome : Option (Value N))
      → r.stopped ≡ false
      → parse_route_id active_route.href ≡ some route_id
      → Others (r.refresh_generation + 1) before
      → Others (r.refresh_generation + 1) between
      → (resource_settled (r.refresh_generation + 1) outcome (
          settle_all between (
            course_settled
              (r.refresh_generation + 1)
              (some (some active_route))
              (settle_all before (schedule_refresh r))))).current_route
        ≡ resolved_route route_id active_route outcome
  latest_refresh_decides r before between active_route route_id outcome live parsed o1 o2 =
      let g = r.refresh_generation + 1 in
      let r1 = schedule_refresh r in
      let (running, newest, asked) = scheduled r live in
      let k = settle_all-Others g before r1 newest o1 in
      let r2 = settle_all before r1 in
      let w =
        course_answers g route_id active_route r2 (k.stopped ∙ running) (k.latest ∙ newest)
          (k.course ∙ asked) parsed in
      let r3 = course_settled g (some (some active_route)) r2 in
      resource_answers g route_id active_route outcome (settle_all between r3)
        (Waits-Others g route_id active_route between r3 o2 w)

  abbrev IsStopped : Reader N → Type 0
  IsStopped r = (r.stopped ≡ true) × (r.current_route ≡ none)

  apply-IsStopped :
      (g : ℕ) (route : Option (RoutePolyline N)) (r : Reader N)
      → IsStopped r
      → IsStopped (apply_refresh g route r)
  unfolding apply_refresh
  apply-IsStopped g route r s = ground arith

  course-IsStopped :
      (g : ℕ) (outcome : Option (Option (ActiveRoute N))) (r : Reader N)
      → IsStopped r
      → IsStopped (after_course g outcome r)
  course-IsStopped g none r s = apply-IsStopped g none r s
  course-IsStopped g (some none) r s = apply-IsStopped g none r s
  course-IsStopped g (some (some route)) r s = elim (Option-cases (parse_route_id route.href)) [
    | inl e ↦ rw e (apply-IsStopped g none r s)
    | inr (id, e) ↦ rw e s
  ]

  step-IsStopped : (e : Event N) (r : Reader N) → IsStopped r → IsStopped (step e r)
  unfolding step settle course_settled resource_settled on_active_route_delta schedule_refresh stop
  step-IsStopped (route_delta null) r s = ground arith
  step-IsStopped (route_delta v) r s = ground arith
  step-IsStopped next_point_delta r s = ground arith
  step-IsStopped stops r s = ground arith
  step-IsStopped (settles (course g outcome)) r s =
      elim (Bool-cases (any (is_course g) r.pending)) [
        | inl e ↦ rw e (
            course-IsStopped g outcome (record r { pending = drop_pending (is_course g) r.pending })
              s)
        | inr e ↦ rw e s
      ]
  step-IsStopped (settles (resource g outcome)) r s =
      elim (Option-cases (find_resource g r.pending)) [
        | inl e ↦ rw (e, resource_settled) s
        | inr (found, e) ↦
            rw (e, resource_settled)
              (apply-IsStopped g (resolved_route found.0 found.1 outcome)
                (record r { pending = drop_pending (is_resource g) r.pending }) s)
      ]

  run-IsStopped : (es : List (Event N)) (r : Reader N) → IsStopped r → IsStopped (run es r)
  unfolding run
  run-IsStopped [] r s = s
  run-IsStopped (e ∷ es) r s = run-IsStopped es (step e r) (step-IsStopped e r s)

  -- From a running reader that is stopped, nothing that happens afterwards, of deltas, promises that
  -- settle and further stops, puts a route into the cache.
  pub stopped_stays_empty :
      (es : List (Event N)) (r : Reader N)
      → r.stopped ≡ false
      → (run es (stop r)).current_route ≡ none
  unfolding stop
  stopped_stays_empty es r live = (run-IsStopped es (stop r) (rw live (refl, refl))).1

  -- The handler of the route href is handed a delta, which is an object: it starts a refresh like
  -- any other delta, and the branch that clears the cache at once is not taken.
  pub route_delta_keeps_route :
      (delta : Fields N) (r : Reader N)
      → (on_active_route_delta (obj delta) r ≡ schedule_refresh r)
        × ((on_active_route_delta (obj delta) r).current_route ≡ r.current_route)
  unfolding on_active_route_delta schedule_refresh
  route_delta_keeps_route delta r = (refl, ground arith)
