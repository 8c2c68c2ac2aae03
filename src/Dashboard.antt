-- ===== src/Dashboard.antt =====
-- The dashboard's queue of graph loads (wui/src/lib/dashboard-load-queue.ts).
pub mod LoadQueue
pub mod Turns
mod Tests
