-- ===== src/Cron.antt =====
-- pkg/cron/service.go: the scheduler of timed jobs. `Types` has the stored data, `Schedule` the
-- next run of a job, `Store` the file, `Jobs` the operations of clients, `Run` the ticking loop.
-- The other children prove.
pub mod Types
pub mod Schedule
pub mod Store
pub mod Jobs
pub mod Run
pub mod Future
pub mod Effects
pub mod Distinct
pub mod Filed
pub mod Ids
pub mod Due
pub mod Finish
pub mod Wake
pub mod Durable
mod Tests
