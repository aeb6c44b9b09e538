-- ===== src/Inputs/ActiveCaptain.antt =====
-- src/inputs/active-captain.
pub mod PoiStore
pub mod RatingFilter
pub mod BridgeClearance
pub mod Source
