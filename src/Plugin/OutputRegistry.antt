-- ===== src/Plugin/OutputRegistry.antt =====
-- src/outputs/output-registry.ts: the start of the enabled outputs.
use signalk_activecaptain_re.Base.{
  ℕ, Bool, not, Option, none, some, List, [], ◌∷◌, ◌++◌, map, if◌then◌else◌,
}
use signalk_activecaptain_re.Base.Text.{Text, txt}
use signalk_activecaptain_re.Types.{Fields}
use signalk_activecaptain_re.Plugin.World.{World, called, acquire, log_failure}

-- `OutputHandle`: its number, and the `poiTypes` of the scan contributor that a position-driven
-- output has.
pub record OutputHandle : Type 0 where
  pub number : ℕ
  pub position_scan : Option (List Text)

-- `OutputModule`. What `start` gives, when it does not throw, is a handle with this contributor.
pub record OutputModule (N : Type 0) : Type 0 where
  pub id : Text
  pub name : Text
  pub config_schema : Fields N
  pub is_enabled : Fields N → Bool
  pub position_scan : Fields N → Option (List Text)

pub record StartedOutputs : Type 0 where
  pub handles : List OutputHandle
  pub started_ids : List Text
  pub failed_ids : List Text

abbrev pub config_schema_fragments : {N : Type 0} → List (OutputModule N) → List (Fields N)
config_schema_fragments modules = map (λ m. m.config_schema) modules

-- The loop's lists, with the world.
pub record Starting : Type 0 where
  pub outputs : StartedOutputs
  pub world : World

abbrev started : {N : Type 0} → Fields N → OutputModule N → Starting → Starting
started config m s = record {
  outputs = record s.outputs {
    handles =
        s.outputs.handles
        ++ (record { number = s.world.created; position_scan = m.position_scan config } ∷ []);
    started_ids = s.outputs.started_ids ++ (m.id ∷ []);
  };
  world = acquire s.world;
}

abbrev not_started : {N : Type 0} → OutputModule N → Text → Starting → Starting
not_started m reason s = record {
  outputs = record s.outputs { failed_ids = s.outputs.failed_ids ++ (m.id ∷ []) };
  world = log_failure (txt "Cannot start output " ++ m.id) reason (called s.world);
}

module _ {N : Type 0} (fails : ℕ → Option Text) (config : Fields N) where
  -- One round of the loop, behind the test of `isEnabled`.
  unfoldable pub start_module : OutputModule N → Starting → Starting
  start_module m s = elim (fails s.world.calls) [
    | none ↦ started config m s
    | some reason ↦ not_started m reason s
  ]

  unfoldable pub start_all : List (OutputModule N) → Starting → Starting
  unfolding start_module
  start_all [] s = s
  start_all (m ∷ ms) s = start_all ms (if not (m.is_enabled config) then s else start_module m s)

  unfoldable pub start_enabled : List (OutputModule N) → World → Starting
  unfolding start_all
  start_enabled modules w =
      start_all modules
        (record { outputs = record { handles = []; started_ids = []; failed_ids = [] }; world = w })
