-- ===== src/SingleFlight.antt =====
-- Equal requests share one load (api/src/utils/single-flight.ts).
pub mod Flights
pub mod Shared
mod Tests
