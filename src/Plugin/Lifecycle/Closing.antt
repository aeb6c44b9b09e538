-- ===== src/Plugin/Lifecycle/Closing.antt =====
-- Runs of the plugin, and the sources that they create and close.
use signalk_activecaptain_re.Base.{
  ℕ, ◌≡◌, refl, sym, ◌∙◌, true, Option, none, some, List, [], ◌∷◌, filter, arith, ltb,
  if◌then◌else◌, Option-cases, inl, inr,
}
use mathlib.Core.Path.{subst}
use signalk_activecaptain_re.Base.Text.{Text, txt, text_eq}
use signalk_activecaptain_re.Types.{Fields}
use signalk_activecaptain_re.Status.{PluginStatus}
use signalk_activecaptain_re.Inputs.Registry.{InputModule}
use signalk_activecaptain_re.Plugin.World.{World}
use signalk_activecaptain_re.Plugin.OutputRegistry.{OutputModule, Starting, start_enabled}
use signalk_activecaptain_re.Plugin.Lifecycle.{
  AggregateSource, Runtime, Plugin, create_plugin, create_source, close_sources, close_aggregate,
  stop_handles, stop_monitor, stop_runtime, start_monitor, start_parts, start, stop, teardown,
}
use signalk_activecaptain_re.Plugin.Lifecycle.Laws.{Command, starts, stops, run}
use signalk_activecaptain_re.Plugin.Lifecycle.Sources.{
  openings, closings, tally, IsTallied, source_numbers, distinct_slugs, create_source-IsTallied,
  close_sources-IsTallied, tally-failure_logged, tally-stop_handles, tally-stop_monitor,
  tally-start_monitor, tally-start_enabled,
}

abbrev running : {S : Type 0} → Option (Runtime S) → List ℕ
running none = []
running (some r) = source_numbers r.source.sources

runtime-start_monitor :
    {N S : Type 0} (fails : ℕ → Option Text) (config : Fields N) (source : AggregateSource S)
    (s : Starting) (status : PluginStatus)
    → running (start_monitor fails config source s status).runtime ≡ source_numbers source.sources
unfolding start_monitor
runtime-start_monitor fails config source s status = elim (Option-cases (fails s.world.calls)) [
  | inl e ↦ rw (e, start_monitor) refl
  | inr (reason, e) ↦ rw (e, start_monitor) refl
]

module _ {S : Type 0} (fails source_fails : ℕ → Option Text)
    (quiet : (i : ℕ) → source_fails i ≡ none) (n : ℕ) where
  stop_runtime-IsTallied :
      (r : Option (Runtime S)) (w : World)
      → IsTallied n (running r) (tally n w)
      → IsTallied n [] (tally n (stop_runtime fails source_fails r w))
  unfolding close_aggregate
  stop_runtime-IsTallied none w t = t
  stop_runtime-IsTallied (some r) w t =
      let stopped = stop_handles fails r.handles (stop_monitor fails r.monitor w) in
      let same : tally n stopped ≡ tally n w =
        tally-stop_handles fails n r.handles (stop_monitor fails r.monitor w)
        ∙ tally-stop_monitor fails n r.monitor w in
      let ended = close_sources source_fails r.source.sources stopped in
      subst (IsTallied n [])
        (sym (tally-failure_logged fails n (txt "Cannot close the POI source") ended.0 ended.1))
        (close_sources-IsTallied source_fails quiet n r.source.sources stopped
          (subst (IsTallied n (source_numbers r.source.sources)) (sym same) t))

module _ {N S : Type 0} (fails source_fails : ℕ → Option Text)
    (inputs : Fields N → List (InputModule S)) (outputs : List (OutputModule N))
    (quiet : (i : ℕ) → source_fails i ≡ none)
    (distinct : (config : Fields N)
      → distinct_slugs (filter (λ m. m.enabled) (inputs config)) ≡ true)
    (n : ℕ) where
  abbrev IsConsistent : Plugin S → Type 0
  IsConsistent p = IsTallied n (running p.runtime) (tally n p.world)

  start_parts-IsConsistent :
      (config : Fields N) (p : Plugin S)
      → p.runtime ≡ none
      → IsTallied n [] (tally n p.world)
      → IsConsistent (start_parts fails source_fails inputs outputs config p).plugin
  unfolding start_parts
  start_parts-IsConsistent config p h t =
      let enabled = filter (λ m. m.enabled) (inputs config) in
      let made = create_source source_fails enabled p.world in
      let source : AggregateSource S = record { sources = made.sources } in
      let s = start_enabled fails config outputs made.world in
      let same : tally n (start_monitor fails config source s p.status).world ≡ tally n made.world =
        tally-start_monitor fails n config source s p.status
        ∙ tally-start_enabled fails n config outputs made.world in
      elim (create_source-IsTallied source_fails quiet n enabled p.world (distinct config) t) [
        | inr (reason, e, c) ↦ rw (e, start_parts) (rw h c)
        | inl (e, c) ↦
            rw (e, start_parts)
              (subst
                (λ l. IsTallied n l (tally n (start_monitor fails config source s p.status).world))
                (sym (runtime-start_monitor fails config source s p.status))
                (subst (IsTallied n (source_numbers made.sources)) (sym same) c))
      ]

  run-IsConsistent :
      (cs : List (Command N)) (p : Plugin S)
      → IsConsistent p
      → IsConsistent (run fails source_fails inputs outputs cs p)
  unfolding run start stop teardown
  run-IsConsistent [] p t = t
  run-IsConsistent (stops now ∷ cs) p t =
      run-IsConsistent cs (stop fails source_fails now p)
        (stop_runtime-IsTallied fails source_fails quiet n p.runtime p.world t)
  run-IsConsistent (starts now now_started config ∷ cs) p t =
      run-IsConsistent cs (start fails source_fails inputs outputs now now_started config p).plugin
        (start_parts-IsConsistent config _ refl
          (stop_runtime-IsTallied fails source_fails quiet n p.runtime p.world t))

  -- Where no call of a source throws and the enabled inputs have distinct slugs, whatever calls of
  -- the outputs and of the monitor throw: after any sequence of starts and stops of a new plugin that
  -- a stop ends, every source that was created was created once and closed once.
  pub run_closes :
      (now now_stopped : Text) (cs : List (Command N))
      → let p =
          stop fails source_fails now_stopped
            (run fails source_fails inputs outputs cs (create_plugin now)) in
        (openings n p.world.events ≡ (if ltb n p.world.sources then 1 else 0))
        × (closings n p.world.events ≡ openings n p.world.events)
  unfolding stop teardown
  run_closes now now_stopped cs =
      let before = run fails source_fails inputs outputs cs (create_plugin now) in
      let t = stop_runtime-IsTallied fails source_fails quiet n before.runtime before.world (
        run-IsConsistent cs (create_plugin now)
          (record { once = ground arith; kept = ground arith })) in
      (t.once, omega (arith, t.kept))
