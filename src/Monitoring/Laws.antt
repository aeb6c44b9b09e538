-- ===== src/Monitoring/Laws.antt =====
-- What happens to a monitor, that its ticks end, and that a stopped one does nothing.
use signalk_activecaptain_re.Base.{
  ℕ, suc, ◌≡◌, refl, ◌∙◌, true, Option, none, some, List, [], ◌∷◌, arith,
}
use signalk_activecaptain_re.Base.Float.{Floats}
use signalk_activecaptain_re.Types.{Position, PoiSummary, Value}
use signalk_activecaptain_re.Monitoring.{
  PositionScanContributor, Monitor, maybe_tick, on_position, after_scan, settle_first, scan_settled,
  stop,
}

pub data Event (N : Type 0) : Type 0 where
  delta : Value N → Event N
  settles : Option (List (PoiSummary N)) → Event N
  stops : Event N

module _ {N S : Type 0} ⦃F : Floats N⦄ (contributors : List (PositionScanContributor N S))
    (min_move : N) (min_interval : ℕ) (clock : ℕ → ℕ) where
  unfoldable pub step : Event N → Monitor N S → Option (Monitor N S)
  step (delta v) m = on_position contributors min_move min_interval clock v m
  step (settles outcome) m = scan_settled contributors min_move min_interval clock outcome m
  step stops m = some (stop m)

  unfoldable pub run : List (Event N) → Monitor N S → Option (Monitor N S)
  unfolding step
  run [] m = some m
  run (e ∷ es) m = elim (step e m) [ none ↦ none | some after ↦ run es after ]

  -- What a stopped monitor leaves alone.
  pub record Quiet (before : Monitor N S) (after : Monitor N S) : Type 0 where
    pub stopped : after.stopped ≡ true
    pub outputs : after.outputs ≡ before.outputs
    pub requests : after.requests ≡ before.requests
    pub ticks : after.ticks ≡ before.ticks
    pub latest : after.latest_position ≡ before.latest_position

  abbrev IsQuietStep : Monitor N S → Option (Monitor N S) → Type 0
  IsQuietStep m result = (after : Monitor N S) × (result ≡ some after) × Quiet m after

  stopped-maybe_tick :
      (fuel : ℕ) (m : Monitor N S)
      → m.stopped ≡ true
      → maybe_tick contributors min_move min_interval clock (suc fuel) m ≡ some m
  unfolding maybe_tick
  stopped-maybe_tick fuel m h = ground (arith, h)

  after_scan-Quiet :
      (p : Position N) (outcome : Option (List (PoiSummary N))) (others : List (Position N))
      (m : Monitor N S)
      → m.stopped ≡ true
      → Quiet m (
          after_scan contributors min_move min_interval clock p outcome
            (record m { scans = others }))
  unfolding after_scan
  after_scan-Quiet p none others m h = record {
    stopped = h;
    outputs = refl;
    requests = refl;
    ticks = refl;
    latest = refl;
  }
  after_scan-Quiet p (some pois) others m h = record {
    stopped = ground (arith, h);
    outputs = ground (arith, h);
    requests = ground (arith, h);
    ticks = ground (arith, h);
    latest = ground (arith, h);
  }

  settle_first-Quiet :
      (scans : List (Position N)) (outcome : Option (List (PoiSummary N))) (m : Monitor N S)
      → m.stopped ≡ true
      → IsQuietStep m (settle_first contributors min_move min_interval clock scans outcome m)
  unfolding settle_first
  settle_first-Quiet [] outcome m h = (
    m,
    refl,
    record { stopped = h; outputs = refl; requests = refl; ticks = refl; latest = refl },
  )
  settle_first-Quiet (p ∷ others) outcome m h =
      let q = after_scan-Quiet p outcome others m h in (_, stopped-maybe_tick 1 _ q.stopped, q)

  quiet_step : (e : Event N) (m : Monitor N S) → m.stopped ≡ true → IsQuietStep m (step e m)
  unfolding step on_position scan_settled stop
  quiet_step (delta v) m h = (
    m,
    ground (arith, h),
    record { stopped = h; outputs = refl; requests = refl; ticks = refl; latest = refl },
  )
  quiet_step (settles outcome) m h = settle_first-Quiet m.scans outcome m h
  quiet_step stops m h = (
    stop m,
    refl,
    record { stopped = refl; outputs = refl; requests = refl; ticks = refl; latest = refl },
  )

  Quiet-trans : (a b c : Monitor N S) → Quiet a b → Quiet b c → Quiet a c
  Quiet-trans a b c p q = record {
    stopped = q.stopped;
    outputs = q.outputs ∙ p.outputs;
    requests = q.requests ∙ p.requests;
    ticks = q.ticks ∙ p.ticks;
    latest = q.latest ∙ p.latest;
  }

  pub run-step :
      (e : Event N) (es : List (Event N)) (m after : Monitor N S)
      → step e m ≡ some after
      → run (e ∷ es) m ≡ run es after
  unfolding run
  run-step e es m after h = rw (h, run) refl

  -- Once it is stopped, a monitor makes no request, evaluates no output and starts no tick, whatever
  -- positions still arrive and however its pending list requests settle.
  pub stopped_run :
      (es : List (Event N)) (m : Monitor N S)
      → m.stopped ≡ true
      → (after : Monitor N S) × (run es m ≡ some after) × Quiet m after
  unfolding run
  stopped_run [] m h = (
    m,
    refl,
    record { stopped = h; outputs = refl; requests = refl; ticks = refl; latest = refl },
  )
  stopped_run (e ∷ es) m h =
      let (next, eq, q) = quiet_step e m h in
      let (after, eqs, qs) = stopped_run es next q.stopped in
      (after, run-step e es m next eq ∙ eqs, Quiet-trans m next after q qs)
