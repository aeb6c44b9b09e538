-- ===== src/Monitoring/Runs.antt =====
-- Every run of a monitor ends, and what it has kept then.
use signalk_activecaptain_re.Base.{
  ℕ, suc, ◌+◌, ◌≤◌, ◌≡◌, refl, sym, ◌∙◌, Bool, true, false, ◌||◌, Option, none, some, List, [], ◌∷◌,
  is_some, if◌then◌else◌, arith,
}
use mathlib.Core.Path.{subst}
use signalk_activecaptain_re.Base.Float.{Floats}
use signalk_activecaptain_re.Types.{Position, Bbox, PoiSummary}
use signalk_activecaptain_re.Geo.{to_position, distance_meters}
use signalk_activecaptain_re.Monitoring.{
  PositionScanContributor, Monitor, scan_box, should_tick, should_tick_since, evaluate_with,
  proceed, run_tick, tick_at, maybe_tick, tick_latest, tick, on_fix, on_position, after_scan,
  settle_first, scan_settled,
}
use signalk_activecaptain_re.Monitoring.Laws.{Event, delta, settles, stops, step, run, run-step}
use signalk_activecaptain_re.Monitoring.Throttle.{IsThrottled, step-Throttled}

abbrev Gives : {A : Type 0} → Option A → Type 0
Gives o = is_some o ≡ true

if_Gives :
    {A : Type 0} (b : Bool) (x y : Option A)
    → (b ≡ true → Gives x)
    → Gives y
    → Gives (if b then x else y)
if_Gives true x y p q = p refl
if_Gives false x y p q = q

if_no : {A : Type 0} (b : Bool) (x y : Option A) → b ≡ false → Gives y → Gives (if b then x else y)
if_no true x y h g = ground (arith, h)
if_no false x y h g = g

module _ {N S : Type 0} ⦃F : Floats N⦄ (contributors : List (PositionScanContributor N S))
    (min_move : N) (min_interval : ℕ) (clock : ℕ → ℕ)
    (still : (p : Position N) → F.le min_move (distance_meters p p) ≡ false) where
  abbrev maybe : ℕ → Monitor N S → Option (Monitor N S)
  maybe = maybe_tick contributors min_move min_interval clock

  still_there :
      (p : Position N) (m : Monitor N S)
      → (should_tick_since contributors min_move min_interval clock (some p) p m).0 ≡ false
  unfolding should_tick_since
  still_there p m = ground (arith, still p)

  not_again :
      (next : Monitor N S → Option (Monitor N S)) (p : Position N) (m : Monitor N S)
      → m.last_tick_position ≡ some p
      → Gives (tick_at contributors min_move min_interval clock next p m)
  unfolding tick_at should_tick
  not_again next p m l =
      if_no (should_tick contributors min_move min_interval clock p m).0 _ _
        (subst (λ o. (should_tick_since contributors min_move min_interval clock o p m).0 ≡ false)
          (sym l) (still_there p m))
        refl

  ended :
      (fuel : ℕ) (latest : Option (Position N)) (p : Position N) (m : Monitor N S)
      → m.last_tick_position ≡ some p
      → latest ≡ some p
      → Gives (tick_latest contributors min_move min_interval clock (maybe fuel) latest m)
  ended fuel none p m l e = refl
  ended fuel (some q) p m l e = not_again (maybe fuel) q m (l ∙ sym e)

  second_tick :
      (fuel : ℕ) (p : Position N) (m : Monitor N S)
      → m.last_tick_position ≡ some p
      → m.latest_position ≡ some p
      → Gives (maybe (suc fuel) m)
  unfolding maybe_tick
  second_tick fuel p m l e =
      if_Gives (m.stopped || m.tick_in_flight) (some m)
        (tick_latest contributors min_move min_interval clock (maybe fuel) m.latest_position m)
        (λ h. refl) (ended fuel m.latest_position p m l e)

  proceed-Gives :
      (fuel : ℕ) (p : Position N) (answer : Option (Option (Bbox N))) (m : Monitor N S)
      → m.last_tick_position ≡ some p
      → m.latest_position ≡ some p
      → Gives (proceed contributors min_move min_interval clock (maybe (suc fuel)) p answer m)
  unfolding proceed evaluate_with
  proceed-Gives fuel p none m l e = second_tick fuel p _ l e
  proceed-Gives fuel p (some none) m l e = second_tick fuel p _ l e
  proceed-Gives fuel p (some (some b)) m l e = refl

  first_tick :
      (fuel : ℕ) (latest : Option (Position N)) (m : Monitor N S)
      → m.latest_position ≡ latest
      → Gives (tick_latest contributors min_move min_interval clock (maybe (suc fuel)) latest m)
  unfolding tick_at run_tick should_tick
  first_tick fuel none m e = refl
  first_tick fuel (some p) m e =
      if_Gives (should_tick contributors min_move min_interval clock p m).0 _ _
        (λ h.
          proceed-Gives fuel p
            (scan_box contributors min_move min_interval clock contributors p none m.outputs).0 _
            refl e)
        refl

  tick-Gives : (m : Monitor N S) → Gives (tick contributors min_move min_interval clock m)
  unfolding maybe_tick
  tick-Gives m =
      if_Gives (m.stopped || m.tick_in_flight) (some m)
        (tick_latest contributors min_move min_interval clock (maybe 1) m.latest_position m)
        (λ h. refl) (first_tick 0 m.latest_position m refl)

  on_fix-Gives :
      (fix : Option (Position N)) (m : Monitor N S)
      → Gives (on_fix contributors min_move min_interval clock fix m)
  on_fix-Gives none m = refl
  on_fix-Gives (some p) m = tick-Gives (record m { latest_position = some p })

  settle_first-Gives :
      (scans : List (Position N)) (outcome : Option (List (PoiSummary N))) (m : Monitor N S)
      → Gives (settle_first contributors min_move min_interval clock scans outcome m)
  unfolding settle_first
  settle_first-Gives [] outcome m = refl
  settle_first-Gives (p ∷ others) outcome m =
      tick-Gives (
        after_scan contributors min_move min_interval clock p outcome (record m { scans = others }))

  step-Gives :
      (e : Event N) (m : Monitor N S) → Gives (step contributors min_move min_interval clock e m)
  unfolding step on_position scan_settled
  step-Gives (delta v) m = if_Gives m.stopped _ _ (λ h. refl) (on_fix-Gives (to_position v) m)
  step-Gives (settles outcome) m = settle_first-Gives m.scans outcome m
  step-Gives stops m = refl

  given : {A : Type 0} (o : Option A) → Gives o → (a : A) × (o ≡ some a)
  given none g = ground (arith, g)
  given (some a) g = (a, refl)

  -- From a monitor that has kept the throttle, where a vessel that has not moved has moved less than
  -- `min_move`, and with a clock that does not go back: whatever positions arrive and however the list requests settle, every run of a monitor
  -- ends within its fuel, and then two ticks in a row started `min_interval` or more apart, the
  -- vessel had moved `min_move` or more between them, and at most one list request is pending.
  pub run-Throttled :
      ((i : ℕ) → clock i ≤ clock (i + 1))
      → (es : List (Event N)) (m : Monitor N S)
      → IsThrottled contributors min_move min_interval clock m
      → (after : Monitor N S) × (run contributors min_move min_interval clock es m ≡ some after)
        × IsThrottled contributors min_move min_interval clock after
  unfolding run
  run-Throttled monotone [] m i = (m, refl, i)
  run-Throttled monotone (e ∷ es) m i =
      let (next, eq) = given (step contributors min_move min_interval clock e m) (step-Gives e m) in
      let (after, eqs, is) =
        run-Throttled monotone es next
          (step-Throttled contributors min_move min_interval clock monotone e m next i eq) in
      (after, run-step contributors min_move min_interval clock e es m next eq ∙ eqs, is)
