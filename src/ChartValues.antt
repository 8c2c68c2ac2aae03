-- ===== src/ChartValues.antt =====
-- Historical prices for charts (api/src/services/chart-values.ts).
pub mod Lookup
pub mod Search
mod Tests
