-- ===== src/Tools/CronTool.antt =====
-- pkg/tools/cron.go: the tool with which the model schedules jobs. `Actions` has what it does when
-- the model calls it, `Firing` what it does when a job is due; the other children prove.
pub mod Actions
pub mod Firing
pub mod Ids
pub mod Reminder
pub mod Silent
mod Tests
