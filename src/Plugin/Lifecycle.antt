-- ===== src/Plugin/Lifecycle.antt =====
-- src/plugin/plugin.ts: the state that the closure of `createPlugin` keeps, and `start` and `stop`.
-- Debug logging is left out, as is the router, whose status snapshot is `status_snapshot`. A part of
-- the plugin (a source, an output, the monitor) is what `start` gets from its factory. The loops over
-- the sources are the ones of src/inputs/input-registry.ts. `fails` says what the calls of the outputs
-- and of the monitor throw, `source_fails` what those of the sources throw.
pub mod Balance
pub mod Closing
pub mod Laws
pub mod Reports
pub mod Sources
use signalk_activecaptain_re.Base.{
  ℕ, ◌+◌, Bool, true, false, Option, none, some, List, [], ◌∷◌, ◌++◌, map, filter,
}
use signalk_activecaptain_re.Base.Text.{Text, txt, join_with, text_eq}
use signalk_activecaptain_re.Base.JsMap
use signalk_activecaptain_re.Base.JsMap.{JsMap}
use signalk_activecaptain_re.Types.{Fields}
use signalk_activecaptain_re.Shared.PoiTypeSelection.{build_poi_types_string, ensure_poi_types}
use signalk_activecaptain_re.Inputs.Registry.{InputModule}
use signalk_activecaptain_re.Status
use signalk_activecaptain_re.Status.{PluginStatus, StatusSnapshot}
use signalk_activecaptain_re.Plugin.World.{
  World, closed, plugin_error, plugin_status, say, called, acquire, open_source, log_failure,
  failure_logged, release,
}
use signalk_activecaptain_re.Plugin.OutputRegistry.{
  OutputHandle, OutputModule, StartedOutputs, Starting, start_enabled,
}

-- The aggregate source: the sources under their slugs, each with its number.
pub record AggregateSource (S : Type 0) : Type 0 where
  pub sources : JsMap Text (ℕ × S)

-- The monitor: its number and the `poiTypes` that it lists.
pub record MonitorHandle : Type 0 where
  pub number : ℕ
  pub poi_types : Text

pub record Runtime (S : Type 0) : Type 0 where
  pub source : AggregateSource S
  pub handles : List OutputHandle
  pub monitor : Option MonitorHandle

pub record Plugin (S : Type 0) : Type 0 where
  pub runtime : Option (Runtime S)
  pub status : PluginStatus
  pub world : World

-- The variables of `createPlugin` before the first start.
abbrev pub create_plugin : {S : Type 0} → Text → Plugin S
create_plugin now = record {
  runtime = none;
  status = Status.create now [];
  world = record { calls = 0; created = 0; sources = 0; events = [] };
}

-- How `start` ends: with the error that it throws, if it throws one.
pub record Ended (S : Type 0) : Type 0 where
  pub error : Option Text
  pub plugin : Plugin S

-- How the loop that creates the sources ends: with the error that one of them throws, if one does.
pub record Created (S : Type 0) : Type 0 where
  pub error : Option Text
  pub sources : JsMap Text (ℕ × S)
  pub world : World

unfoldable pub create_sources :
    {S : Type 0} → (ℕ → Option Text) → List (InputModule S) → JsMap Text (ℕ × S) → World → Created S
create_sources source_fails [] sources w = record { error = none; sources = sources; world = w }
create_sources source_fails (m ∷ ms) sources w =
    let others =
      create_sources source_fails ms (JsMap.set m.id (w.sources, m.source) sources)
        (open_source w) in
    elim (source_fails w.calls) [
      | none ↦ others
      | some reason ↦ record { error = some reason; sources = sources; world = called w }
    ]

-- `createSource` of the registry.
unfoldable pub create_source :
    {S : Type 0} → (ℕ → Option Text) → List (InputModule S) → World → Created S
unfolding create_sources
create_source source_fails [] w = record {
  error = some (txt "Cannot build a POI source: no input is enabled");
  sources = [];
  world = w;
}
create_source source_fails (m ∷ ms) w = create_sources source_fails (m ∷ ms) [] w

-- `close` of the aggregate: the first source that throws ends the loop.
unfoldable pub close_sources :
    {S : Type 0} → (ℕ → Option Text) → JsMap Text (ℕ × S) → World → Option Text × World
close_sources source_fails [] w = (none, w)
close_sources source_fails ((slug, (n, s)) ∷ rest) w =
    let after = say (closed n) (called w) in
    let others = close_sources source_fails rest after in
    elim (source_fails w.calls) [ none ↦ others | some reason ↦ (some reason, after) ]

unfoldable pub close_aggregate :
    {S : Type 0} → (ℕ → Option Text) → AggregateSource S → World → World
unfolding close_sources
close_aggregate source_fails source w =
    let ended = close_sources source_fails source.sources w in
    failure_logged (txt "Cannot close the POI source") ended.0 ended.1

unfoldable pub stop_handles : (ℕ → Option Text) → List OutputHandle → World → World
stop_handles fails [] w = w
stop_handles fails (h ∷ hs) w =
    stop_handles fails hs (release fails (txt "Cannot stop an output") h.number w)

abbrev pub stop_monitor : (ℕ → Option Text) → Option MonitorHandle → World → World
stop_monitor fails none w = w
stop_monitor fails (some m) w = release fails (txt "Cannot stop the position monitor") m.number w

abbrev pub stop_runtime :
    {S : Type 0} → (ℕ → Option Text) → (ℕ → Option Text) → Option (Runtime S) → World → World
stop_runtime fails source_fails none w = w
stop_runtime fails source_fails (some r) w =
    close_aggregate source_fails r.source
      (stop_handles fails r.handles (stop_monitor fails r.monitor w))

-- `now` is the clock's reading for the new recorder.
unfoldable pub teardown :
    {S : Type 0} → (ℕ → Option Text) → (ℕ → Option Text) → Text → Plugin S → Plugin S
unfolding stop_handles close_aggregate
teardown fails source_fails now p = record {
  runtime = none;
  status = Status.create now [];
  world = stop_runtime fails source_fails p.runtime p.world;
}

-- `handles.map(h => h.positionScan).filter(scan => scan !== undefined)`
abbrev pub contributors : List OutputHandle → List (List Text)
contributors [] = []
contributors (h ∷ hs) = elim h.position_scan [
  | none ↦ contributors hs
  | some scan ↦ scan ∷ contributors hs
]

abbrev flat : List (List Text) → List Text
flat [] = []
flat (ts ∷ tss) = ts ++ flat tss

abbrev pub ready : Text
ready = txt "Ready, waiting for resource requests"

-- What the admin UI is told of the outputs, when the monitor runs.
abbrev pub report_outputs : List Text → World → World
report_outputs [] w = say (plugin_status ready) w
report_outputs (i ∷ ids) w =
    say
      (plugin_error (
        txt "Outputs failed to start: "
        ++ (join_with (txt ", ") (i ∷ ids) ++ txt " (see server log for details)")))
      w

abbrev report_monitor_failure : Text → World → World
report_monitor_failure reason w =
    say
      (plugin_error
        (txt "Position monitor failed to start; proximity and route-hazard alarms are not running"))
      (log_failure (txt "Cannot start the position monitor") reason (called w))

module _ {N S : Type 0} (fails : ℕ → Option Text) where
  -- The part of `start` behind the start of the outputs.
  unfoldable pub start_monitor : Fields N → AggregateSource S → Starting → PluginStatus → Plugin S
  start_monitor config source s status = elim (fails s.world.calls) [
    | none ↦ record {
      runtime = some (record {
        source = source;
        handles = s.outputs.handles;
        monitor = some (record {
          number = s.world.created;
          poi_types =
              ensure_poi_types (build_poi_types_string config)
                (flat (contributors s.outputs.handles));
        });
      });
      status = status;
      world = report_outputs s.outputs.failed_ids (acquire s.world);
    }
    | some reason ↦ record {
      runtime = some (record { source = source; handles = s.outputs.handles; monitor = none });
      status = status;
      world = report_monitor_failure reason s.world;
    }
  ]

  module _ (source_fails : ℕ → Option Text) (inputs : Fields N → List (InputModule S))
      (outputs : List (OutputModule N)) where
    -- The part of `start` behind the new status recorder.
    unfoldable pub start_parts : Fields N → Plugin S → Ended S
    unfolding start_monitor create_source
    start_parts config p =
        let made = create_source source_fails (filter (λ m. m.enabled) (inputs config)) p.world in
        elim made.error [
          | some reason ↦ record { error = some reason; plugin = record p { world = made.world } }
          | none ↦ record {
            error = none;
            plugin =
                start_monitor config (record { sources = made.sources })
                  (start_enabled fails config outputs made.world) p.status;
          }
        ]

    -- `now` and `now_started` are the clock's readings for the two new recorders.
    unfoldable pub start : Text → Text → Fields N → Plugin S → Ended S
    unfolding teardown start_parts
    start now now_started config p =
        start_parts config (record (teardown fails source_fails now p) {
          status =
              Status.create now_started
                (map (λ m. (m.id, m.name)) (filter (λ m. m.enabled) (inputs config)));
        })

unfoldable pub stop :
    {S : Type 0} → (ℕ → Option Text) → (ℕ → Option Text) → Text → Plugin S → Plugin S
unfolding teardown
stop fails source_fails now p = teardown fails source_fails now p

abbrev pub cache_size : {S : Type 0} → (S → ℕ) → JsMap Text (ℕ × S) → ℕ
cache_size size [] = 0
cache_size size ((slug, (n, s)) ∷ sources) = size s + cache_size size sources

abbrev runtime_cache_size : {S : Type 0} → (S → ℕ) → Option (Runtime S) → ℕ
runtime_cache_size size none = 0
runtime_cache_size size (some r) = cache_size size r.source.sources

unfoldable pub status_snapshot : {S : Type 0} → (S → ℕ) → Plugin S → StatusSnapshot
status_snapshot size p = Status.snapshot (runtime_cache_size size p.runtime) p.status
