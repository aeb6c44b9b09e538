-- ===== src/Outputs/RouteHazard.antt =====
-- src/outputs/route-hazard: the active route, the corridor along it and the alarms for what lies there.
pub mod CourseReader
pub mod Corridor
pub mod Alarms
pub mod Output
