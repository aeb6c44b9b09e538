-- ===== src/Monitoring/Throttle.antt =====
-- The ticks of a monitor end, and they keep the throttle.
use signalk_activecaptain_re.Base.{
  ℕ, zero, suc, ◌+◌, ◌≤◌, ◌≡◌, refl, sym, Bool, true, false, ◌||◌, Option, none, some, List, [],
  ◌∷◌, length, if◌then◌else◌, arith,
}
use mathlib.Core.Path.{subst}
use signalk_activecaptain_re.Base.Float.{Floats}
use signalk_activecaptain_re.Types.{Position, Bbox, PoiSummary}
use signalk_activecaptain_re.Geo.{to_position, distance_meters}
use signalk_activecaptain_re.Monitoring.{
  PositionScanContributor, Monitor, scan_box, should_tick, should_tick_since, evaluate_with, free,
  proceed, run_tick, tick_at, maybe_tick, tick_latest, on_fix, on_position, after_scan,
  settle_first, scan_settled, stop,
}
use signalk_activecaptain_re.Monitoring.Laws.{Event, delta, settles, stops, step}

if_either :
    {A : Type 0} (P : Type 0) (b : Bool) (x y : A) (o : A)
    → (b ≡ true → x ≡ o → P)
    → (b ≡ false → y ≡ o → P)
    → (if b then x else y) ≡ o
    → P
if_either P true x y o f g e = f refl e
if_either P false x y o f g e = g refl e

if_cases : {A : Type 0} (P : A → Type 0) (b : Bool) {x y : A} → P x → P y → P (if b then x else y)
if_cases P true p q = p
if_cases P false p q = q

some_inj : {A : Type 0} (a b : A) → some a ≡ some b → a ≡ b
some_inj a b h = cc

module _ {N S : Type 0} ⦃F : Floats N⦄ (contributors : List (PositionScanContributor N S))
    (min_move : N) (min_interval : ℕ) (clock : ℕ → ℕ) where
  abbrev maybe : ℕ → Monitor N S → Option (Monitor N S)
  maybe = maybe_tick contributors min_move min_interval clock

  -- Later ticks first: each starts `min_interval` or more after the one before, `min_move` or more
  -- away from it.
  abbrev pub Throttled : List (Position N × ℕ) → Type 0
  Throttled [] = 0 ≤ 0
  Throttled (t ∷ []) = 0 ≤ 0
  Throttled ((p, time) ∷ (q, earlier) ∷ ts) =
      (earlier + min_interval ≤ time)
      × (F.le min_move (distance_meters q p) ≡ true)
      × Throttled ((q, earlier) ∷ ts)

  -- The variables of the throttle hold the last tick.
  abbrev pub Latest : Option (Position N) → ℕ → List (Position N × ℕ) → Type 0
  Latest none time ticks = ticks ≡ []
  Latest (some p) time ticks = (earlier : List (Position N × ℕ)) × (ticks ≡ (p, time) ∷ earlier)

  abbrev pub Idle : Bool → List (Position N) → Type 0
  Idle true scans = length scans ≤ 1
  Idle false scans = scans ≡ []

  -- The ticks keep the throttle, and at most one list request is pending, none unless a tick runs.
  pub record IsThrottled (m : Monitor N S) : Type 0 where
    pub latest : Latest m.last_tick_position m.last_tick_time m.ticks
    pub spaced : Throttled m.ticks
    pub one_scan : Idle m.tick_in_flight m.scans

  abbrev KeepsThrottled : (Monitor N S → Option (Monitor N S)) → Type 0
  KeepsThrottled f = (m after : Monitor N S) → IsThrottled m → f m ≡ some after → IsThrottled after

  module _ (monotone : (i : ℕ) → clock i ≤ clock (i + 1)) where
    may_tick :
        (last : Option (Position N)) (p : Position N) (m : Monitor N S)
        (ticks : List (Position N × ℕ))
        → Latest last m.last_tick_time ticks
        → Throttled ticks
        → (should_tick_since contributors min_move min_interval clock last p m).0 ≡ true
        → Throttled (
            (p, clock (should_tick_since contributors min_move min_interval clock last p m).1)
            ∷ ticks)
    unfolding should_tick_since
    may_tick none p m ticks l s a =
        subst (λ ts. Throttled ((p, clock m.reads) ∷ ts)) (sym l) (omega arith)
    may_tick (some q) p m ticks (earlier, l) s a =
        subst (λ ts. Throttled ((p, clock (m.reads + 1)) ∷ ts)) (sym l)
          (let o = monotone m.reads in ground (arith, o), ground (arith, a), subst Throttled l s)

    Latest-commit :
        (p : Position N) (time : ℕ) (ticks : List (Position N × ℕ))
        → Latest (some p) time ((p, time) ∷ ticks)
    Latest-commit p time ticks = (ticks, refl)

    proceed-Throttled :
        (next : Monitor N S → Option (Monitor N S))
        → KeepsThrottled next
        → (p : Position N) (answer : Option (Option (Bbox N))) (m after : Monitor N S)
        → Latest m.last_tick_position m.last_tick_time m.ticks
        → Throttled m.ticks
        → m.scans ≡ []
        → m.tick_in_flight ≡ true
        → proceed contributors min_move min_interval clock next p answer m ≡ some after
        → IsThrottled after
    unfolding proceed evaluate_with
    proceed-Throttled next k p none m after l s c f e =
        k (free contributors min_move min_interval clock m) after
          (record { latest = l; spaced = s; one_scan = c }) e
    proceed-Throttled next k p (some none) m after l s c f e =
        k _ after (record { latest = l; spaced = s; one_scan = c }) e
    proceed-Throttled next k p (some (some b)) m after l s c f e =
        subst IsThrottled (some_inj _ after e)
          (record { latest = l; spaced = s; one_scan = rw (f, c) (omega arith) })

    tick_at-Throttled :
        (next : Monitor N S → Option (Monitor N S))
        → KeepsThrottled next
        → (p : Position N) (m after : Monitor N S) → IsThrottled m
        → m.scans ≡ []
        → tick_at contributors min_move min_interval clock next p m ≡ some after
        → IsThrottled after
    unfolding tick_at run_tick should_tick
    tick_at-Throttled next k p m after i c e =
        let answer = should_tick contributors min_move min_interval clock p m in
        if_either (IsThrottled after) answer.0
          (run_tick contributors min_move min_interval clock next p answer.1) (some answer.1)
          (some after)
          (λ a r.
            proceed-Throttled next k p
              (scan_box contributors min_move min_interval clock contributors p none m.outputs).0 _
              after (_, refl) (may_tick m.last_tick_position p m m.ticks i.latest i.spaced a) c refl
              r)
          (λ a r.
            subst IsThrottled (some_inj answer.1 after r)
              (record { latest = i.latest; spaced = i.spaced; one_scan = i.one_scan }))
          e

    tick_latest-Throttled :
        (next : Monitor N S → Option (Monitor N S))
        → KeepsThrottled next
        → (latest : Option (Position N)) (m after : Monitor N S) → IsThrottled m
        → m.scans ≡ []
        → tick_latest contributors min_move min_interval clock next latest m ≡ some after
        → IsThrottled after
    tick_latest-Throttled next k none m after i c e = subst IsThrottled (some_inj m after e) i
    tick_latest-Throttled next k (some p) m after i c e = tick_at-Throttled next k p m after i c e

    not_busy :
        (m : Monitor N S) → IsThrottled m → (m.stopped || m.tick_in_flight) ≡ false → m.scans ≡ []
    not_busy m i h =
        let f : m.tick_in_flight ≡ false = ground (arith, h) in
        subst (λ b. Idle b m.scans) f i.one_scan

    maybe_tick-Throttled : (fuel : ℕ) → KeepsThrottled (maybe fuel)
    unfolding maybe_tick
    maybe_tick-Throttled zero m after i e = ground (arith, e)
    maybe_tick-Throttled (suc fuel) m after i e =
        if_either (IsThrottled after) (m.stopped || m.tick_in_flight) (some m)
          (tick_latest contributors min_move min_interval clock (maybe fuel) m.latest_position m)
          (some after) (λ h r. subst IsThrottled (some_inj m after r) i)
          (λ h r.
            tick_latest-Throttled (maybe fuel) (maybe_tick-Throttled fuel) m.latest_position m after
              i (not_busy m i h) r)
          e

    rest_of_scans :
        (flight : Bool) (p : Position N) (others : List (Position N))
        → Idle flight (p ∷ others)
        → others ≡ []
    rest_of_scans true p [] i = refl
    rest_of_scans true p (q ∷ qs) i = ground (arith, i)
    rest_of_scans false p others i = ground (arith, i)

    after_scan-Throttled :
        (p : Position N) (outcome : Option (List (PoiSummary N))) (others : List (Position N))
        (m : Monitor N S)
        → IsThrottled m
        → others ≡ []
        → IsThrottled (
            after_scan contributors min_move min_interval clock p outcome
              (record m { scans = others }))
    unfolding after_scan evaluate_with
    after_scan-Throttled p none others m i o = record {
      latest = i.latest;
      spaced = i.spaced;
      one_scan = o;
    }
    after_scan-Throttled p (some pois) others m i o =
        if_cases (λ x. IsThrottled (free contributors min_move min_interval clock x)) m.stopped
          (record { latest = i.latest; spaced = i.spaced; one_scan = o })
          (record { latest = i.latest; spaced = i.spaced; one_scan = o })

    settle_first-Throttled :
        (scans : List (Position N)) (outcome : Option (List (PoiSummary N))) (m after : Monitor N S)
        → m.scans ≡ scans
        → IsThrottled m
        → settle_first contributors min_move min_interval clock scans outcome m ≡ some after
        → IsThrottled after
    unfolding settle_first
    settle_first-Throttled [] outcome m after s i e = subst IsThrottled (some_inj m after e) i
    settle_first-Throttled (p ∷ others) outcome m after s i e =
        maybe_tick-Throttled 2 _ after
          (after_scan-Throttled p outcome others m i
            (rest_of_scans m.tick_in_flight p others (subst (Idle m.tick_in_flight) s i.one_scan)))
          e

    on_fix-Throttled :
        (fix : Option (Position N))
        → KeepsThrottled (on_fix contributors min_move min_interval clock fix)
    on_fix-Throttled none m after i e = subst IsThrottled (some_inj m after e) i
    on_fix-Throttled (some p) m after i e =
        maybe_tick-Throttled 2 _ after
          (record { latest = i.latest; spaced = i.spaced; one_scan = i.one_scan }) e

    pub step-Throttled :
        (e : Event N) → KeepsThrottled (step contributors min_move min_interval clock e)
    unfolding step on_position scan_settled stop
    step-Throttled (delta v) m after i e =
        if_either (IsThrottled after) m.stopped (some m)
          (on_fix contributors min_move min_interval clock (to_position v) m) (some after)
          (λ h r. subst IsThrottled (some_inj m after r) i)
          (λ h r. on_fix-Throttled (to_position v) m after i r) e
    step-Throttled (settles outcome) m after i e =
        settle_first-Throttled m.scans outcome m after refl i e
    step-Throttled stops m after i e =
        subst IsThrottled (some_inj (stop m) after e)
          (record { latest = i.latest; spaced = i.spaced; one_scan = i.one_scan })
