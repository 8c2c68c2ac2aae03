-- ===== src/Retention.antt =====
-- How long rows are kept (api/src/services/retention.ts).
pub mod Service
pub mod Daily
mod Tests
