-- ===== src/Config.antt =====
-- The configuration of pkg/config/config.go.
pub mod Types
pub mod Defaults
