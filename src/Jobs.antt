-- ===== src/Jobs.antt =====
-- packages/jobs/src/index.ts: the job queue and the cron schedules.
pub mod Table
pub mod Queue
pub mod Cron
pub mod Worker
pub mod Invariant
pub mod Reclaim
pub mod Claims
pub mod Exclusion
pub mod Firing
pub mod Materializing
pub mod Runs
pub mod Attempts
pub mod Settling
mod Tests
