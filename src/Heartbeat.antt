-- ===== src/Heartbeat.antt =====
-- The heartbeat service of pkg/heartbeat/service.go.
pub mod Service
pub mod Silence
mod Tests
