-- ===== src/Tests/Startup.antt =====
-- Runs of the plugin's start and stop, and of the schema's assembly.
use signalk_activecaptain_re.Base.{
  ℕ, ◌≡◌, refl, true, ◌&&◌, Option, none, some, List, [], ◌∷◌, ◌↔◌, length, nat_beq, ltb, is_some,
  if◌then◌else◌,
}
use signalk_activecaptain_re.Base.Text.{Text, txt, text_eq}
use signalk_activecaptain_re.Base.JsMap
use signalk_activecaptain_re.Types.{Fields, end, field, num}
use signalk_activecaptain_re.Shared.PoiTypeSelection.{ensure_poi_types, build_poi_types_string}
use signalk_activecaptain_re.Inputs.Registry.{InputModule}
use signalk_activecaptain_re.Plugin.OutputRegistry.{
  OutputModule, start_module, start_all, start_enabled,
}
use signalk_activecaptain_re.Plugin.Lifecycle.{
  Runtime, create_source, create_sources, create_plugin, stop, start, start_parts, start_monitor,
  teardown,
}
use signalk_activecaptain_re.Plugin.Lifecycle.Laws.{Command, starts, run, IsReleased, run_releases}
use signalk_activecaptain_re.Plugin.Lifecycle.Reports.{enabled_outputs, says_ready, start_ready}
use signalk_activecaptain_re.Plugin.Lifecycle.Sources.{openings, closings}
use signalk_activecaptain_re.Plugin.Lifecycle.Closing.{run_closes}
use signalk_activecaptain_re.Plugin.Schema.{assemble_plugin_schema, assembled}
use signalk_activecaptain_re.Plugin.Schema.Laws.{
  is_assembled, schema_of, assemble_plugin_schema-assembled,
}

abbrev sample_inputs : Fields ℕ → List (InputModule ℕ)
sample_inputs config =
    record { id = txt "openseamap"; name = txt "OpenSeaMap"; enabled = true; source = 1 } ∷ []

abbrev sample_output : Text → OutputModule ℕ
sample_output id = record {
  id = id;
  name = id;
  config_schema = end;
  is_enabled = λ c. true;
  position_scan = λ c. none;
}

abbrev two_outputs : List (OutputModule ℕ)
two_outputs = sample_output (txt "notes") ∷ sample_output (txt "alarms") ∷ []

-- The second output does not start.
abbrev third_call_fails : ℕ → Option Text
third_call_fails i = if nat_beq i 2 then some (txt "boom") else none

abbrev no_failure : ℕ → Option Text
no_failure i = none

abbrev two_starts : List (Command ℕ)
two_starts = starts [] [] end ∷ starts [] [] end ∷ []

run_releases_example : IsReleased 1 (
    stop third_call_fails no_failure []
      (run third_call_fails no_failure sample_inputs two_outputs two_starts (create_plugin [])))
run_releases_example =
    run_releases third_call_fails no_failure sample_inputs two_outputs [] [] two_starts 1

-- The inputs of every configuration are the one sample.
run_closes_example :
    let p =
      stop third_call_fails no_failure []
        (run third_call_fails no_failure sample_inputs two_outputs two_starts (create_plugin [])) in
    (openings 1 p.world.events ≡ (if ltb 1 p.world.sources then 1 else 0))
    × (closings 1 p.world.events ≡ openings 1 p.world.events)
run_closes_example =
    run_closes third_call_fails no_failure sample_inputs two_outputs (λ i. refl) (λ c. refl) 1 [] []
      two_starts

abbrev two_inputs : Fields ℕ → List (InputModule ℕ)
two_inputs config =
    record { id = txt "openseamap"; name = txt "OpenSeaMap"; enabled = true; source = 1 }
    ∷ record { id = txt "usace"; name = txt "USACE"; enabled = true; source = 2 }
    ∷ []

abbrev second_call_fails : ℕ → Option Text
second_call_fails i = if nat_beq i 1 then some (txt "boom") else none

-- A start in which the second source is not created leaves the first open, also behind a stop.
source_left_open :
    let p =
      stop no_failure second_call_fails []
        (start no_failure second_call_fails two_inputs two_outputs [] [] end
          (create_plugin [])).plugin in
    (openings 0 p.world.events ≡ 1) × (closings 0 p.world.events ≡ 0)
unfolding start stop teardown start_parts create_source create_sources JsMap.set
source_left_open = (refl, refl)

abbrev half_started : Runtime ℕ
half_started = record {
  source = record { sources = (txt "openseamap", (0, 1)) ∷ [] };
  handles = record { number = 0; position_scan = none } ∷ [];
  monitor =
      some (record {
        number = 1;
        poi_types = ensure_poi_types (build_poi_types_string {N = ℕ} end) [];
      });
}

half_started_lem :
    (start third_call_fails no_failure sample_inputs two_outputs [] [] end
      (create_plugin [])).plugin.runtime
    ≡ some half_started
unfolding start teardown start_parts start_monitor start_enabled start_all start_module
    create_source create_sources JsMap.set
half_started_lem = refl

start_ready_example :
    says_ready
      (start third_call_fails no_failure sample_inputs two_outputs [] [] end
        (create_plugin [])).plugin.world.events
    ≡ (nat_beq (length half_started.handles) (length (enabled_outputs {N = ℕ} end two_outputs))
        && is_some half_started.monitor)
start_ready_example =
    start_ready third_call_fails end no_failure sample_inputs two_outputs [] [] (create_plugin [])
      half_started half_started_lem

abbrev sample_fragments : List (Fields ℕ)
sample_fragments =
    field (txt "cachingDurationMinutes") (num 60) end ∷ field (txt "b") (num 1) end ∷ []

assemble_plugin_schema-assembled_example :
    (assemble_plugin_schema [] [] sample_fragments ≡ assembled (schema_of [] [] sample_fragments))
    ↔ ((is_assembled sample_fragments ≡ true)
        × (schema_of [] [] sample_fragments ≡ schema_of [] [] sample_fragments))
assemble_plugin_schema-assembled_example =
    assemble_plugin_schema-assembled [] [] sample_fragments (schema_of [] [] sample_fragments)
