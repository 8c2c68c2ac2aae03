-- ===== src/Scheduler/Coverage.antt =====
-- The profiles cover the history that is kept (api/src/scheduler.ts).
use mathlib.Core.List.{Memᴰ}
use native.Mathlib.Nat.{le_refl}
use cryptotracker.Base.{
  ℕ, ◌*◌, ◌≤◌, min, ltb, ◌≡◌, refl, ap, false, Option, none, some, List, All, arith, Bool-cases,
  inl, inr, if◌then◌else◌,
}
use cryptotracker.Scheduler.Profiles.{
  day_ms, hour_history_days, daily_history_days, coingecko_daily_history_days, Provider, coingecko,
  coinbase, kraken, MarketHistoryProfile, effective_market_history_backfill_days, is_coingecko,
  at_most, full_duration, profiles_of, market_history_profiles,
}

-- A duration within the effective days, and within the points that a provider is asked for at a granularity.
abbrev IsWithin : Option ℕ → MarketHistoryProfile → Type 0
IsWithin none p = Unit
IsWithin (some days) p = (ms : ℕ) × (p.duration_ms ≡ some ms) × (ms ≤ days * day_ms)

-- What a provider can reach of the effective days.
abbrev reachable : Provider → Option ℕ → Option ℕ
reachable provider days =
    if is_coingecko provider
    then some (at_most days coingecko_daily_history_days)
    else full_duration days

pub record IsCovering (provider : Provider) (days : Option ℕ) (profiles : List MarketHistoryProfile)
    : Type 0 where
  pub within : All (IsWithin days) profiles
  pub reached :
      (p : MarketHistoryProfile) × Memᴰ p profiles × (p.duration_ms ≡ reachable provider days)

at_most-le : (days limit : ℕ) → at_most (some days) limit ≤ days * day_ms
at_most-le days limit = grind arith

leb_of_not_ltb : (a b : ℕ) → ltb a b ≡ false → b ≤ a
leb_of_not_ltb a b h = ground (arith, h)

IsWithin-limit :
    (days limit granularity : ℕ)
    → IsWithin (some days) (record {
      duration_ms = some (at_most (some days) limit);
      granularity_seconds = granularity;
    })
IsWithin-limit days limit granularity = (at_most (some days) limit, refl, at_most-le days limit)

coingecko_profiles :
    (days : ℕ) → IsCovering coingecko (some days) (profiles_of coingecko (some days))
unfolding profiles_of
coingecko_profiles days = elim (Bool-cases (ltb hour_history_days days)) [
  | inl e ↦
      rw (e, profiles_of)
        (record {
          within = (
            IsWithin-limit days hour_history_days 3600,
            (IsWithin-limit days coingecko_daily_history_days 86400, tt),
          );
          reached = (_, Memᴰ.tail (Memᴰ.head refl), refl);
        })
  | inr e ↦
      let few : min days 90 ≡ min days 365 = grind (arith, leb_of_not_ltb 90 days e) in
      rw (e, profiles_of)
        (record {
          within = (IsWithin-limit days hour_history_days 3600, tt);
          reached = (_, Memᴰ.head refl, ap (λ d. some (d * day_ms)) few);
        })
]

-- The profiles of the two exchanges, which differ in name only.
exchange_profiles :
    (provider : Provider) (days : ℕ)
    → is_coingecko provider ≡ false
    → IsCovering provider (some days) (profiles_of provider (some days))
unfolding profiles_of
exchange_profiles provider days x = elim (Bool-cases (ltb hour_history_days days)) [
  | inr e ↦
      let few : min days 90 ≡ days = grind (arith, leb_of_not_ltb 90 days e) in
      let fewer : ltb 730 days ≡ false = ground (arith, e) in
      rw (x, e, fewer, profiles_of)
        (record {
          within = (IsWithin-limit days hour_history_days 3600, tt);
          reached = (_, Memᴰ.head refl, rw x (ap (λ d. some (d * day_ms)) few));
        })
  | inl e ↦ elim (Bool-cases (ltb daily_history_days days)) [
    | inr f ↦
        let few : min days 730 ≡ days = grind (arith, leb_of_not_ltb 730 days f) in
        rw (x, e, f, profiles_of)
          (record {
            within = (
              IsWithin-limit days hour_history_days 3600,
              (IsWithin-limit days daily_history_days 86400, tt),
            );
            reached = (_, Memᴰ.tail (Memᴰ.head refl), rw x (ap (λ d. some (d * day_ms)) few));
          })
    | inl f ↦
        rw (x, e, f, profiles_of)
          (record {
            within = (
              IsWithin-limit days hour_history_days 3600,
              (
                IsWithin-limit days daily_history_days 86400,
                ((days * day_ms, refl, le_refl _), tt),
              ),
            );
            reached = (_, Memᴰ.tail (Memᴰ.tail (Memᴰ.head refl)), rw x refl);
          })
  ]
]

profiles_of-IsCovering :
    (provider : Provider) (days : Option ℕ) → IsCovering provider days (profiles_of provider days)
unfolding profiles_of
profiles_of-IsCovering coingecko none = record {
  within = (tt, (tt, tt));
  reached = (_, Memᴰ.tail (Memᴰ.head refl), refl);
}
profiles_of-IsCovering coinbase none = record {
  within = (tt, (tt, (tt, tt)));
  reached = (_, Memᴰ.tail (Memᴰ.tail (Memᴰ.head refl)), refl);
}
profiles_of-IsCovering kraken none = record {
  within = (tt, (tt, (tt, tt)));
  reached = (_, Memᴰ.tail (Memᴰ.tail (Memᴰ.head refl)), refl);
}
profiles_of-IsCovering coingecko (some days) = coingecko_profiles days
profiles_of-IsCovering coinbase (some days) = exchange_profiles coinbase days refl
profiles_of-IsCovering kraken (some days) = exchange_profiles kraken days refl

-- The profiles of a provider ask for no history beyond the effective days, the lesser of the two settings; and one of
-- them reaches them in full, or a year back where CoinGecko has no more.
market_history_profiles-IsCovering :
    (provider : Provider) (market_history_backfill_days retention_days : Option ℕ)
    → IsCovering provider
        (effective_market_history_backfill_days market_history_backfill_days retention_days)
        (market_history_profiles provider market_history_backfill_days retention_days)
unfolding market_history_profiles
market_history_profiles-IsCovering provider backfill retention =
    profiles_of-IsCovering provider (effective_market_history_backfill_days backfill retention)
