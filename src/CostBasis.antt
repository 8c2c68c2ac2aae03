-- ===== src/CostBasis.antt =====
-- The cost basis of a user's events by average cost, FIFO or LIFO (api/src/domain/cost-basis.ts).
pub mod Events
pub mod Lots
pub mod Acb
pub mod Method
pub mod Greedy
pub mod Disposal
pub mod Run
pub mod Average
mod Tests
