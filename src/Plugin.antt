-- ===== src/Plugin.antt =====
-- src/plugin and src/outputs/output-registry.ts: the configuration schema, the start of the outputs,
-- and the plugin's start and stop.
pub mod World
pub mod Schema
pub mod OutputRegistry
pub mod Lifecycle
