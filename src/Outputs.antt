-- ===== src/Outputs.antt =====
-- The outputs of src/outputs: the consumers of the points of interest.
pub mod ProximityAlarm
pub mod BridgeAirDraft
pub mod RouteHazard
pub mod NotesResource
