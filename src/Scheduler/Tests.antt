-- ===== src/Scheduler/Tests.antt =====
-- Runs of the scheduler (api/src/scheduler.ts), and the theorems at them.
use cryptotracker.Base.{
  ◌≤◌, ◌≡◌, refl, Bool, true, String, none, some, List, [], ◌∷◌, count, filter,
}
use cryptotracker.Base.Maps.{get}
use cryptotracker.Scheduler.Profiles.{Provider, coingecko, kraken, market_history_profiles}
use cryptotracker.Scheduler.Cycle.{Backfill, Settings, World, asset_loop, schedule_cycle}
use cryptotracker.Scheduler.Backfills.{is_recent, is_new, recents_of_assets, asset_loop-backfills}
use cryptotracker.Scheduler.Spacing.{Check, triggers, IsSpaced, triggers-IsSpaced}

abbrev settings : Settings
settings = record {
  asset_catalog = 60;
  market_coingecko = 5;
  market_coinbase = 5;
  market_kraken = 5;
  addresses = 15;
  kraken_account = 15;
  retention_days = some 400;
  failed_job_retention_hours = none;
  market_history_backfill_days = none;
  quote_currencies = "CAD" ∷ "USD" ∷ [];
}

abbrev all_new : Backfill → Bool
all_new backfill = true

abbrev both : String → List Provider
both asset_id = coingecko ∷ kraken ∷ []

abbrev world : World
world = record {
  settings = settings;
  overlap_buckets = 2;
  asset_ids = "bitcoin" ∷ "ethereum" ∷ [];
  providers_for_asset = both;
  anew = all_new;
  address_ids = [];
  kraken_configured = true;
}

six_of_history : count (is_new all_new) (schedule_cycle world 1700000000000 []).0 ≡ 6
unfolding schedule_cycle market_history_profiles
six_of_history = refl

nothing_a_minute_later :
    (schedule_cycle world 1700000060000 (schedule_cycle world 1700000000000 []).1).0 ≡ []
unfolding schedule_cycle market_history_profiles
nothing_a_minute_later = refl

asset_loop-backfills_example :
    (filter is_recent
        (asset_loop settings all_new 1700000000000 1699999100000 both ("bitcoin" ∷ []) 0).0
      ≡ recents_of_assets settings all_new 1700000000000 1699999100000 both ("bitcoin" ∷ []))
    × (count
          (is_new all_new)
          (asset_loop settings all_new 1700000000000 1699999100000 both ("bitcoin" ∷ []) 0).0
        ≤ 6)
asset_loop-backfills_example =
    asset_loop-backfills settings all_new 1700000000000 1699999100000 both ("bitcoin" ∷ [])

abbrev checks : List Check
checks =
    record { key = "retention"; interval_minutes = 30; now = 1000 }
    ∷ record { key = "addresses"; interval_minutes = 1; now = 1000 }
    ∷ record { key = "retention"; interval_minutes = 30; now = 61000 }
    ∷ record { key = "retention"; interval_minutes = 30; now = 1801000 }
    ∷ []

triggers-IsSpaced_example : IsSpaced (get "retention" []) (triggers "retention" checks [])
triggers-IsSpaced_example = triggers-IsSpaced "retention" checks []
