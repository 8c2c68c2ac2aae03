-- ===== src/Market.antt =====
-- Prices and candles of several providers combined (api/src/domain/market.ts).
pub mod Prices
pub mod Candles
pub mod Shape
pub mod Median
pub mod Preference
mod Tests
