-- ===== src/Inputs/LightList.antt =====
-- src/inputs/uscg-light-list: the store of the USCG Light List.
pub mod Store
pub mod Files
