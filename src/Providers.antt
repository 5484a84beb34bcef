-- ===== src/Providers.antt =====
-- pkg/providers: `Types` has the messages exchanged with a model, `Select` the choice of a provider
-- from the configuration, `Http` the provider that speaks to an HTTP API, `Codex` that of Codex; the
-- other children prove.
pub mod Types
pub mod Select
pub mod Http
pub mod Codex
pub mod Calls
pub mod Fresh
pub mod Owner
pub mod Answered
mod Tests
