-- ===== src/Jobs.antt =====
-- The persistent job queue, api/src/jobs/queue.ts, over the jobs table as a list of rows.
pub mod Record
pub mod Enqueue
pub mod Claim
pub mod Outcome
pub mod Cancel
pub mod Serial
pub mod Choice
pub mod Retry
pub mod Sound
pub mod Kept
pub mod Purge
pub mod History
pub mod Worker
pub mod Capacity
mod Tests
