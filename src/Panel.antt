-- ===== src/Panel.antt =====
-- src/panel, as far as it computes.
pub mod NormalizeConfig
