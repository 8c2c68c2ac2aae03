-- ===== src/Scheduler/Profiles.antt =====
-- The history that a market provider is asked for (api/src/scheduler.ts).
use cryptotracker.Base.{
  ℕ, ◌*◌, min, ltb, Bool, true, false, ◌&&◌, not, Option, none, some, List, [], ◌∷◌, ◌++◌,
  get_or_else, if◌then◌else◌,
}

abbrev pub day_ms : ℕ
day_ms = 24 * 60 * 60000

abbrev pub hour_history_days : ℕ
hour_history_days = 90

abbrev pub daily_history_days : ℕ
daily_history_days = 2 * 365

abbrev pub coingecko_daily_history_days : ℕ
coingecko_daily_history_days = 365

pub data Provider : Type 0 where
  coingecko coinbase kraken : Provider

pub record MarketHistoryProfile : Type 0 where
  pub duration_ms : Option ℕ
  pub granularity_seconds : ℕ

unfoldable pub effective_market_history_backfill_days : Option ℕ → Option ℕ → Option ℕ
effective_market_history_backfill_days none retention_days = retention_days
effective_market_history_backfill_days (some days) none = some days
effective_market_history_backfill_days (some days) (some retention_days) =
    some (min days retention_days)

abbrev pub is_coingecko : Provider → Bool
is_coingecko coingecko = true
is_coingecko _ = false

-- `effectiveDays === null || effectiveDays > limit`
abbrev pub is_beyond : Option ℕ → ℕ → Bool
is_beyond none limit = true
is_beyond (some days) limit = ltb limit days

-- `Math.min(effectiveDays ?? limit, limit) * DAY_MS`
abbrev pub at_most : Option ℕ → ℕ → ℕ
at_most days limit = min (get_or_else days limit) limit * day_ms

abbrev pub full_duration : Option ℕ → Option ℕ
full_duration none = none
full_duration (some days) = some (days * day_ms)

-- The profiles of given effective days.
unfoldable pub profiles_of : Provider → Option ℕ → List MarketHistoryProfile
profiles_of provider effective_days =
    let daily_limit_days =
      if is_coingecko provider then coingecko_daily_history_days else daily_history_days in
    record {
      duration_ms = some (at_most effective_days hour_history_days);
      granularity_seconds = 3600;
    }
    ∷ ((if is_beyond effective_days hour_history_days
          then record {
            duration_ms = some (at_most effective_days daily_limit_days);
            granularity_seconds = 86400;
          }
            ∷ []
          else [])
        ++ (if not (is_coingecko provider) && is_beyond effective_days daily_history_days
            then record { duration_ms = full_duration effective_days; granularity_seconds = 604800 }
              ∷ []
            else []))

unfoldable pub market_history_profiles : Provider → Option ℕ → Option ℕ → List MarketHistoryProfile
unfolding effective_market_history_backfill_days profiles_of
market_history_profiles provider market_history_backfill_days retention_days =
    profiles_of provider
      (effective_market_history_backfill_days market_history_backfill_days retention_days)
