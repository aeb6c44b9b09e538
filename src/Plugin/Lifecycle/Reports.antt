-- ===== src/Plugin/Lifecycle/Reports.antt =====
-- What a start tells the admin UI.
use signalk_activecaptain_re.Base.{
  ℕ, ◌+◌, ◌≡◌, refl, Bool, true, false, ◌&&◌, Option, none, some, List, [], ◌∷◌, arith, length,
  filter, nat_beq, is_some, Option-cases, Bool-cases, inl, inr, length-append,
}
use signalk_activecaptain_re.Base.Text.{Text}
use signalk_activecaptain_re.Types.{Fields}
use signalk_activecaptain_re.Status.{PluginStatus}
use signalk_activecaptain_re.Inputs.Registry.{InputModule}
use signalk_activecaptain_re.Plugin.World.{Event, plugin_status, World, acquire}
use signalk_activecaptain_re.Plugin.OutputRegistry.{
  OutputModule, Starting, start_module, start_enabled, start_all,
}
use signalk_activecaptain_re.Plugin.Lifecycle.{
  Runtime, Plugin, AggregateSource, create_source, report_outputs, start_monitor, start_parts,
  start, teardown,
}

-- Whether the latest event is the healthy status.
abbrev pub says_ready : List Event → Bool
says_ready [] = false
says_ready (plugin_status t ∷ es) = true
says_ready (_ ∷ es) = false

abbrev is_empty : List Text → Bool
is_empty [] = true
is_empty (t ∷ ts) = false

abbrev pub enabled_outputs : {N : Type 0} → Fields N → List (OutputModule N) → List (OutputModule N)
enabled_outputs config modules = filter (λ m. m.is_enabled config) modules

module _ {N : Type 0} (fails : ℕ → Option Text) (config : Fields N) where
  start_module-counts :
      (m : OutputModule N) (s : Starting)
      → let after = start_module fails config m s in
        length after.outputs.handles + length after.outputs.failed_ids
        ≡ (length s.outputs.handles + length s.outputs.failed_ids) + 1
  unfolding start_module
  start_module-counts m s = elim (Option-cases (fails s.world.calls)) [
    | inl e ↦
        rw (e, start_module)
          (omega (
            arith,
            length-append s.outputs.handles
                (record { number = s.world.created; position_scan = m.position_scan config } ∷ []),
          ))
    | inr (reason, e) ↦
        rw (e, start_module) (omega (arith, length-append s.outputs.failed_ids (m.id ∷ [])))
  ]

  start_all-counts :
      (ms : List (OutputModule N)) (s : Starting)
      → let after = start_all fails config ms s in
        length after.outputs.handles + length after.outputs.failed_ids
        ≡ (length s.outputs.handles + length s.outputs.failed_ids)
          + length (enabled_outputs config ms)
  unfolding start_all
  start_all-counts [] s = omega arith
  start_all-counts (m ∷ ms) s = elim (Bool-cases (m.is_enabled config)) [
    | inl e ↦
        rw (e, start_all)
          (omega
            (arith, start_module-counts m s, start_all-counts ms (start_module fails config m s)))
    | inr e ↦ rw (e, start_all) (start_all-counts ms s)
  ]

  start_enabled-counts :
      (ms : List (OutputModule N)) (w : World)
      → let after = start_enabled fails config ms w in
        length after.outputs.handles + length after.outputs.failed_ids
        ≡ length (enabled_outputs config ms)
  unfolding start_enabled
  start_enabled-counts ms w = omega (
    arith,
    start_all-counts ms (record {
      outputs = record { handles = []; started_ids = []; failed_ids = [] };
      world = w;
    }),
  )

says_ready-report_outputs :
    (ids : List Text) (w : World) → says_ready (report_outputs ids w).events ≡ is_empty ids
says_ready-report_outputs [] w = refl
says_ready-report_outputs (i ∷ ids) w = refl

is_empty-counts : (ids : List Text) (h e : ℕ) → h + length ids ≡ e → is_empty ids ≡ nat_beq h e
is_empty-counts [] h e c = ground (arith, c)
is_empty-counts (i ∷ ids) h e c = ground (arith, c)

module _ {N S : Type 0} (fails : ℕ → Option Text) (config : Fields N) where
  start_monitor-ready :
      (source : AggregateSource S) (s : Starting) (status : PluginStatus) (enabled : ℕ)
      (r : Runtime S)
      → length s.outputs.handles + length s.outputs.failed_ids ≡ enabled
      → (start_monitor fails config source s status).runtime ≡ some r
      → says_ready (start_monitor fails config source s status).world.events
        ≡ (nat_beq (length r.handles) enabled && is_some r.monitor)
  unfolding start_monitor
  start_monitor-ready source s status enabled r c h = ground (
    arith,
    h,
    says_ready-report_outputs s.outputs.failed_ids (acquire s.world),
    is_empty-counts s.outputs.failed_ids (length s.outputs.handles) enabled c,
  )

  module _ (source_fails : ℕ → Option Text) (inputs : Fields N → List (InputModule S))
      (outputs : List (OutputModule N)) where
    start_parts-ready :
        (p : Plugin S) (r : Runtime S)
        → p.runtime ≡ none
        → (start_parts fails source_fails inputs outputs config p).plugin.runtime ≡ some r
        → says_ready (start_parts fails source_fails inputs outputs config p).plugin.world.events
          ≡ (nat_beq (length r.handles) (length (enabled_outputs config outputs))
              && is_some r.monitor)
    unfolding start_parts start_enabled
    start_parts-ready p r h =
        let made = create_source source_fails (filter (λ m. m.enabled) (inputs config)) p.world in
        elim (Option-cases made.error) [
          | inr (reason, e) ↦ rw (e, start_parts) (λ g. ground (arith, h, g))
          | inl e ↦
              rw (e, start_parts)
                (start_monitor-ready (record { sources = made.sources })
                  (start_enabled fails config outputs made.world) p.status
                  (length (enabled_outputs config outputs)) r
                  (start_enabled-counts fails config outputs made.world))
        ]

    -- When a start leaves a runtime, the last thing that the admin UI is told is the healthy status
    -- exactly when all enabled outputs have a handle and the monitor was created.
    pub start_ready :
        (now now_started : Text) (p : Plugin S) (r : Runtime S)
        → (start fails source_fails inputs outputs now now_started config p).plugin.runtime ≡ some r
        → says_ready
            (start fails source_fails inputs outputs now now_started config p).plugin.world.events
          ≡ (nat_beq (length r.handles) (length (enabled_outputs config outputs))
              && is_some r.monitor)
    unfolding start teardown
    start_ready now now_started p r = start_parts-ready _ r refl
