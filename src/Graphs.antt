-- ===== src/Graphs.antt =====
-- The points, granularities and bounds of the graphs (api/src/domain/graphs.ts).
pub mod Granularity
pub mod Nearest
pub mod Buckets
pub mod Filed
pub mod Latest
pub mod Counts
pub mod Series
pub mod Limits
mod Tests
