-- ===== src/Shared.antt =====
-- The pure helpers of src/shared.
pub mod Numbers
pub mod BridgeClearance
pub mod NamespacedId
pub mod PoiTypeSelection
pub mod HtmlEscape
pub mod BboxDebounce
pub mod YearFilter
