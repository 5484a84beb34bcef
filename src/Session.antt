-- ===== src/Session.antt =====
-- pkg/session/manager.go: the conversations, by session key. `Manager` has the state and the
-- operations, `Encode` what JSON makes of a session, `Storage` the files; the other children prove.
pub mod Manager
pub mod Encode
pub mod Storage
pub mod History
pub mod Reload
pub mod Race
mod Tests
