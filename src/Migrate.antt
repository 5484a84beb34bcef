-- ===== src/Migrate.antt =====
-- pkg/migrate: the keys and the configuration of an OpenClaw installation are converted and
-- merged, and a workspace is copied. `Keys`, `Convert`, `Channels`, `Merge`, `Plan` and `Execute` have
-- the operations; the other children prove.
pub mod Keys
pub mod Convert
pub mod Channels
pub mod Merge
pub mod Snake
pub mod Laws
pub mod Choice
pub mod Plan
pub mod Execute
pub mod Backup
pub mod Count
pub mod Guard
mod Tests
