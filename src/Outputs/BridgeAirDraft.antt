-- ===== src/Outputs/BridgeAirDraft.antt =====
-- src/outputs/bridge-air-draft: the clearance resolver and the bridge clearance alarms.
pub mod Resolver
pub mod Evaluate
