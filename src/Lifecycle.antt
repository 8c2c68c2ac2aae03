-- ===== src/Lifecycle.antt =====
-- Migrations, redenominations and swaps of assets (api/src/domain/lifecycle.ts).
pub mod Events
pub mod Applied
mod Tests
