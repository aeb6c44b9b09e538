-- ===== src/Monitoring.antt =====
-- src/monitoring/position-monitor.ts. The outputs' own state is the parameter `S`, and `clock i` is
-- what reading `i` of the clock gives. The promise of a list request is an event: `scan_settled` runs
-- the part behind the `await`. A call is `none` where the fuel for the ticks that start one another
-- without a request is not enough.
pub mod Laws
pub mod Throttle
pub mod Runs
use signalk_activecaptain_re.Base.{
  ℕ, zero, suc, ◌+◌, Bool, true, false, ◌&&◌, ◌||◌, not, Option, none, some, List, [], ◌∷◌, ◌++◌,
  ltb, is_some, if◌then◌else◌,
}
use signalk_activecaptain_re.Base.Float.{Floats}
use signalk_activecaptain_re.Types.{Position, Bbox, PoiSummary, Value}
use signalk_activecaptain_re.Geo.{to_position, distance_meters, union_bbox}

-- How `buildFetchBox` ends.
pub data FetchBox (N : Type 0) : Type 0 where
  box : Bbox N → FetchBox N
  no_box : FetchBox N
  throws : FetchBox N

-- `evaluate` gives the state that it leaves, also where it throws.
pub record PositionScanContributor (N S : Type 0) : Type 0 where
  pub build_fetch_box : Position N → S → FetchBox N × S
  pub evaluate : Position N → List (PoiSummary N) → S → S

-- The closure's variables; `scans` are the pending list requests by the position of their tick, and
-- `ticks` and `requests` all that were started, latest first.
pub record Monitor (N S : Type 0) : Type 0 where
  pub stopped : Bool
  pub tick_in_flight : Bool
  pub latest_position : Option (Position N)
  pub last_tick_position : Option (Position N)
  pub last_tick_time : ℕ
  pub reads : ℕ
  pub outputs : S
  pub scans : List (Position N)
  pub ticks : List (Position N × ℕ)
  pub requests : List (Bbox N)

-- The union of the boxes so far, or `none` after `unionBbox` threw.
abbrev pub add_box :
    {N : Type 0} ⦃F : Floats N⦄ → FetchBox N → Option (Bbox N) → Option (Option (Bbox N))
add_box (box b) none = some (some b)
add_box (box b) (some u) = elim (union_bbox u b) [ none ↦ none | some v ↦ some (some v) ]
add_box no_box bbox = some bbox
add_box throws bbox = some bbox

module _ {N S : Type 0} ⦃F : Floats N⦄ (contributors : List (PositionScanContributor N S))
    (min_move : N) (min_interval : ℕ) (clock : ℕ → ℕ) where
  -- The loop over the contributors' boxes.
  unfoldable pub scan_box :
      List (PositionScanContributor N S)
      → Position N
      → Option (Bbox N)
      → S
      → Option (Option (Bbox N)) × S
  scan_box [] position bbox s = (some bbox, s)
  scan_box (c ∷ cs) position bbox s =
      let (answer, after) = c.build_fetch_box position s in
      elim (add_box answer bbox) [
        | none ↦ (none, after)
        | some next ↦ scan_box cs position next after
      ]

  unfoldable pub evaluate_all :
      List (PositionScanContributor N S) → Position N → List (PoiSummary N) → S → S
  evaluate_all [] position pois s = s
  evaluate_all (c ∷ cs) position pois s = evaluate_all cs position pois (c.evaluate position pois s)

  -- The answer, and the readings of the clock by then.
  unfoldable pub should_tick_since : Option (Position N) → Position N → Monitor N S → Bool × ℕ
  should_tick_since none position m = (true, m.reads)
  should_tick_since (some last) position m = (
    if ltb (clock m.reads) (m.last_tick_time + min_interval)
        then false
        else F.le min_move (distance_meters last position),
    m.reads + 1,
  )

  unfoldable pub should_tick : Position N → Monitor N S → Bool × Monitor N S
  unfolding should_tick_since
  should_tick position m =
      let answer = should_tick_since m.last_tick_position position m in
      (answer.0, record m { reads = answer.1 })

  abbrev pub or_else : Option (Position N) → Position N → Position N
  or_else none p = p
  or_else (some q) p = q

  -- The evaluation of every contributor against the newest fix.
  unfoldable pub evaluate_with : Position N → List (PoiSummary N) → Monitor N S → Monitor N S
  unfolding evaluate_all
  evaluate_with tick_position pois m = record m {
    outputs = evaluate_all contributors (or_else m.latest_position tick_position) pois m.outputs;
  }

  abbrev pub commit : Position N → Monitor N S → Monitor N S
  commit p m = record m {
    tick_in_flight = true;
    last_tick_position = some p;
    last_tick_time = clock m.reads;
    reads = m.reads + 1;
    ticks = (p, clock m.reads) ∷ m.ticks;
  }

  abbrev pub free : Monitor N S → Monitor N S
  free m = record m { tick_in_flight = false }

  -- A tick behind its loop over the boxes, up to its `await`, or to its end where it makes no
  -- request; `next` is the `maybeTick` of the `finally`.
  unfoldable pub proceed :
      (Monitor N S → Option (Monitor N S))
      → Position N
      → Option (Option (Bbox N))
      → Monitor N S
      → Option (Monitor N S)
  unfolding evaluate_with
  proceed next p none m = next (free m)
  proceed next p (some none) m = next (free (evaluate_with p [] m))
  proceed next p (some (some b)) m =
      some (record m { scans = m.scans ++ (p ∷ []); requests = b ∷ m.requests })

  unfoldable pub run_tick :
      (Monitor N S → Option (Monitor N S)) → Position N → Monitor N S → Option (Monitor N S)
  unfolding scan_box proceed
  run_tick next p m =
      let boxes = scan_box contributors p none m.outputs in
      proceed next p boxes.0 (record (commit p m) { outputs = boxes.1 })

  unfoldable pub tick_at :
      (Monitor N S → Option (Monitor N S)) → Position N → Monitor N S → Option (Monitor N S)
  unfolding should_tick run_tick
  tick_at next p m =
      let answer = should_tick p m in if answer.0 then run_tick next p answer.1 else some answer.1

  abbrev pub tick_latest :
      (Monitor N S → Option (Monitor N S))
      → Option (Position N)
      → Monitor N S
      → Option (Monitor N S)
  tick_latest next none m = some m
  tick_latest next (some p) m = tick_at next p m

  unfoldable pub maybe_tick : ℕ → Monitor N S → Option (Monitor N S)
  unfolding tick_at
  maybe_tick zero m = none
  maybe_tick (suc fuel) m =
      let next = maybe_tick fuel in
      if m.stopped || m.tick_in_flight then some m else tick_latest next m.latest_position m

  -- The `maybeTick` that the program calls: two ticks that start one another are enough.
  abbrev pub tick : Monitor N S → Option (Monitor N S)
  tick = maybe_tick 2

  abbrev pub on_fix : Option (Position N) → Monitor N S → Option (Monitor N S)
  on_fix none m = some m
  on_fix (some p) m = tick (record m { latest_position = some p })

  unfoldable pub on_position : Value N → Monitor N S → Option (Monitor N S)
  unfolding maybe_tick
  on_position value m = if m.stopped then some m else on_fix (to_position value) m

  -- The part of `runTick` behind the `await`, up to the `maybeTick`: with the list, or `none` for a
  -- rejection.
  unfoldable pub after_scan : Position N → Option (List (PoiSummary N)) → Monitor N S → Monitor N S
  unfolding evaluate_with
  after_scan p none m = free m
  after_scan p (some pois) m = free (if m.stopped then m else evaluate_with p pois m)

  unfoldable pub settle_first :
      List (Position N) → Option (List (PoiSummary N)) → Monitor N S → Option (Monitor N S)
  unfolding maybe_tick after_scan
  settle_first [] outcome m = some m
  settle_first (p ∷ others) outcome m = tick (after_scan p outcome (record m { scans = others }))

  unfoldable pub scan_settled : Option (List (PoiSummary N)) → Monitor N S → Option (Monitor N S)
  unfolding settle_first
  scan_settled outcome m = settle_first m.scans outcome m

unfoldable pub stop : {N S : Type 0} → Monitor N S → Monitor N S
stop m = record m { stopped = true }
