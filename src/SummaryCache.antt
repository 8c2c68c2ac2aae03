-- ===== src/SummaryCache.antt =====
-- The cache of dashboard summaries (api/src/services/summary-cache.ts).
pub mod Fills
pub mod History
pub mod Sound
pub mod Kept
pub mod Outdated
pub mod Current
mod Tests
