-- ===== src/Providers.antt =====
-- The limiter in front of each provider: its circuit, its slots and its retries
-- (api/src/providers/rate-limiter.ts).
pub mod Circuit
pub mod Slots
pub mod Attempts
pub mod Opening
pub mod Gate
pub mod Outcomes
mod Tests
