-- ===== src/Scheduler.antt =====
-- Which synchronizations are queued when (api/src/scheduler.ts).
pub mod Profiles
pub mod Coverage
pub mod Cycle
pub mod Backfills
pub mod Spacing
mod Tests
