-- ===== src/Tools/Shell.antt =====
-- pkg/tools/shell.go: the tool that runs commands. `Exec` has the guard and the call; the other
-- children prove.
pub mod Exec
pub mod Guard
mod Tests
