-- ===== src/SingleFlight/Tests.antt =====
-- Calls that share a load (api/src/utils/single-flight.ts), and the theorems at them.

use cryptotracker.Base.{◌≡◌, refl}
use cryptotracker.SingleFlight.Flights.{SingleFlight, no_flights, run, end_load}
use cryptotracker.SingleFlight.Shared.{Run, IsSingle, Run-IsSingle}

abbrev two_keys : SingleFlight
two_keys = (run "balances" (run "prices" no_flights).1).1

second_call_joins : run "prices" two_keys ≡ (0, two_keys)
unfolding run
second_call_joins = refl

call_after_the_end : (run "prices" (end_load "prices" 0 two_keys)).0 ≡ 2
unfolding run end_load
call_after_the_end = refl

Run-IsSingle_example : IsSingle two_keys
Run-IsSingle_example = Run-IsSingle (Run.called (Run.called Run.start "prices") "balances")
