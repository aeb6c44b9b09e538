-- ===== src/Inputs.antt =====
-- The inputs of src/inputs: the aggregate of the sources, and the client that the sources share.
pub mod Registry
pub mod Http
pub mod UsWaters
pub mod LightList
pub mod Dedupe
pub mod ActiveCaptain
pub mod Aggregate
pub mod NoaaEnc
