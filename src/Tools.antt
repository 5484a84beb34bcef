-- ===== src/Tools.antt =====
-- pkg/tools: `Registry` has the registry of the tools, `Files` the tools that read and write files,
-- `CronTool`, `Subagent`, `Shell` and `Web` the tools of these names; `Dispatch` proves.
pub mod Registry
pub mod Dispatch
pub mod Files
pub mod CronTool
pub mod Subagent
pub mod Shell
pub mod Web
mod Tests
