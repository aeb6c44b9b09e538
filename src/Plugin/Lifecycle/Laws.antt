-- ===== src/Plugin/Lifecycle/Laws.antt =====
-- Runs of the plugin, and what they acquire and release.
use signalk_activecaptain_re.Base.{
  filter, ℕ, ◌≡◌, refl, Option, none, List, [], ◌∷◌, ◌++◌, arith, ltb, if◌then◌else◌, Option-cases,
  inl, inr,
}
use signalk_activecaptain_re.Base.Text.{Text}
use signalk_activecaptain_re.Types.{Fields}
use signalk_activecaptain_re.Status.{PluginStatus}
use signalk_activecaptain_re.Inputs.Registry.{InputModule}
use signalk_activecaptain_re.Plugin.World.{World, called, acquire}
use signalk_activecaptain_re.Plugin.OutputRegistry.{OutputModule, Starting, start_enabled}
use signalk_activecaptain_re.Plugin.Lifecycle.{
  Plugin, create_source, create_plugin, AggregateSource, report_outputs, report_monitor_failure,
  teardown, start_monitor, start_parts, start, stop,
}
use signalk_activecaptain_re.Plugin.Lifecycle.Balance.{
  Balance, create_source-Balance, acquisitions, releases, held, numbers, acquire-Balance,
  stop_runtime-Balance, start_all-Balance,
}

-- What the server does with the plugin; the texts are the clock's readings.
pub data Command (N : Type 0) : Type 0 where
  starts : Text → Text → Fields N → Command N
  stops : Text → Command N

module _ {N S : Type 0} (fails source_fails : ℕ → Option Text)
    (inputs : Fields N → List (InputModule S)) (outputs : List (OutputModule N)) where
  unfoldable pub run : List (Command N) → Plugin S → Plugin S
  run [] p = p
  run (stops now ∷ cs) p = run cs (stop fails source_fails now p)
  run (starts now now_started config ∷ cs) p =
      run cs (start fails source_fails inputs outputs now now_started config p).plugin

-- Nothing is running, and resource `n` was released as often as it was acquired, which is once if
-- `n` is a number that was given out.
abbrev pub IsReleased : {S : Type 0} → ℕ → Plugin S → Type 0
IsReleased n p =
    (p.runtime ≡ none)
    × (acquisitions n p.world.events ≡ (if ltb n p.world.created then 1 else 0))
    × (releases n p.world.events ≡ acquisitions n p.world.events)

abbrev pub IsBalanced : {S : Type 0} → ℕ → Plugin S → Type 0
IsBalanced n p = Balance n (held p.runtime) p.world

module _ (n : ℕ) (xs : List ℕ) where
  report_outputs-Balance :
      (ids : List Text) (w : World) → Balance n xs w → Balance n xs (report_outputs ids w)
  report_outputs-Balance [] w b = record {
    once = ground (arith, b.once);
    kept = ground (arith, b.kept);
  }
  report_outputs-Balance (i ∷ ids) w b = record {
    once = ground (arith, b.once);
    kept = ground (arith, b.kept);
  }

  report_monitor_failure-Balance :
      (reason : Text) (w : World) → Balance n xs w → Balance n xs (report_monitor_failure reason w)
  report_monitor_failure-Balance reason w b = record {
    once = ground (arith, b.once);
    kept = ground (arith, b.kept);
  }

  called-Balance : (w : World) → Balance n xs w → Balance n xs (called w)
  called-Balance w b = record { once = b.once; kept = b.kept }

module _ {N S : Type 0} (fails : ℕ → Option Text) (n : ℕ) where
  start_monitor-IsBalanced :
      (config : Fields N) (source : AggregateSource S) (s : Starting) (status : PluginStatus)
      → Balance n (numbers s.outputs.handles ++ []) s.world
      → IsBalanced n (start_monitor fails config source s status)
  unfolding start_monitor
  start_monitor-IsBalanced config source s status b = elim (Option-cases (fails s.world.calls)) [
    | inl e ↦
        rw (e, start_monitor)
          (report_outputs-Balance n (s.world.created ∷ (numbers s.outputs.handles ++ []))
            s.outputs.failed_ids (acquire s.world)
            (acquire-Balance n (numbers s.outputs.handles ++ []) s.world b))
    | inr (reason, e) ↦
        rw (e, start_monitor)
          (report_monitor_failure-Balance n (numbers s.outputs.handles ++ []) reason s.world b)
  ]

  module _ (source_fails : ℕ → Option Text) (inputs : Fields N → List (InputModule S))
      (outputs : List (OutputModule N)) where
    start_parts-IsBalanced :
        (config : Fields N) (p : Plugin S)
        → p.runtime ≡ none
        → Balance n [] p.world
        → IsBalanced n (start_parts fails source_fails inputs outputs config p).plugin
    unfolding start_parts start_enabled
    start_parts-IsBalanced config p h b =
        let enabled = filter (λ m. m.enabled) (inputs config) in
        let made = create_source source_fails enabled p.world in
        let c = create_source-Balance fails n source_fails [] enabled p.world b in
        elim (Option-cases made.error) [
          | inr (reason, e) ↦ rw (e, start_parts) (rw h c)
          | inl e ↦
              rw (e, start_parts)
                (start_monitor-IsBalanced config (record { sources = made.sources })
                  (start_enabled fails config outputs made.world) p.status
                  (start_all-Balance fails n config outputs []
                    (record {
                      outputs = record { handles = []; started_ids = []; failed_ids = [] };
                      world = made.world;
                    })
                    c))
        ]

    run-IsBalanced :
        (cs : List (Command N)) (p : Plugin S)
        → IsBalanced n p
        → IsBalanced n (run fails source_fails inputs outputs cs p)
    unfolding run start stop teardown
    run-IsBalanced [] p b = b
    run-IsBalanced (stops now ∷ cs) p b =
        run-IsBalanced cs (stop fails source_fails now p)
          (stop_runtime-Balance fails n source_fails p.runtime p.world b)
    run-IsBalanced (starts now now_started config ∷ cs) p b =
        run-IsBalanced cs (start fails source_fails inputs outputs now now_started config p).plugin
          (start_parts-IsBalanced config _ refl
            (stop_runtime-Balance fails n source_fails p.runtime p.world b))

module _ {N S : Type 0} (fails source_fails : ℕ → Option Text)
    (inputs : Fields N → List (InputModule S)) (outputs : List (OutputModule N)) where
  -- Whatever calls throw, those of the sources included: after any sequence of starts and stops of a
  -- new plugin that a stop ends, nothing is running, every output handle and every monitor that was
  -- created was created once, and its `stop` was called once.
  pub run_releases :
      (now now_stopped : Text) (cs : List (Command N)) (n : ℕ)
      → IsReleased n (
          stop fails source_fails now_stopped
            (run fails source_fails inputs outputs cs (create_plugin now)))
  unfolding stop teardown
  run_releases now now_stopped cs n =
      let before = run fails source_fails inputs outputs cs (create_plugin now) in
      let b = stop_runtime-Balance fails n source_fails before.runtime before.world (
        run-IsBalanced fails n source_fails inputs outputs cs (create_plugin now)
          (record { once = ground arith; kept = ground arith })) in
      (refl, b.once, omega (arith, b.kept))
