-- ===== src/Inputs/NoaaEnc.antt =====
-- src/inputs/noaa-enc.
pub mod Mapping
pub mod Source
pub mod Listing
pub mod Laws
