-- ===== src/Tests.antt =====
-- Concrete runs of the models, at whole numbers for the number type of the program.
pub mod Sample
mod Values
mod Proximity
mod Bridge
mod Course
mod Flow
mod Startup
mod Notes
mod Enc
mod Caches
mod LightList
mod Dedupe
mod Route
