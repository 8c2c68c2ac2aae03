-- ===== src/Transfers.antt =====
-- Matching of Kraken deposits and withdrawals with chain events of tracked addresses
-- (api/src/domain/reconciliation.ts, api/src/services/transfers.ts).
pub mod Match
pub mod Service
pub mod Best
pub mod Once
mod Tests
