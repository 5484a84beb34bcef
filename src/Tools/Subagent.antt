-- ===== src/Tools/Subagent.antt =====
-- pkg/tools/subagent.go, spawn.go and message.go: tasks that run beside the agent, the tool that
-- starts them, and the tool that sends a message. `Manager` has the operations, `Chat` the two tools,
-- `Run` the threads; the other children prove.
pub mod Manager
pub mod Chat
pub mod Run
pub mod Ids
pub mod Outcome
pub mod Return
mod Tests
