-- ===== src/Agent.antt =====
-- pkg/agent: the loop that answers messages with a model and its tools. `State` has the state,
-- `Loop` the processing of a message, `Summary` the shortening of long sessions, `Route` the origin
-- of system messages; the other children prove.
pub mod State
pub mod Memory
pub mod Context
pub mod Route
pub mod Loop
pub mod Process
pub mod Summary
pub mod Transcript
pub mod Bounds
pub mod Answer
pub mod Nameless
mod Tests
