-- ===== src/Balances.antt =====
-- Balances of tracked addresses over time, and their value (api/src/domain/addresses.ts).
pub mod Reconstruct
pub mod Order
pub mod Replay
pub mod Value
pub mod Coverage
mod Tests
