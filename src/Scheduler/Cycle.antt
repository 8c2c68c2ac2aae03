-- ===== src/Scheduler/Cycle.antt =====
-- The checks of `due`, and `scheduleCycle` as the list of the calls that it makes (api/src/scheduler.ts). No call of
-- another service throws; times before the epoch are written 0.
use cryptotracker.Base.{
  ℕ, suc, ◌+◌, ◌-◌, ◌*◌, ◌/◌, min, max, ltb, leb, Bool, true, false, ◌&&◌, String, Option, none,
  some, List, [], ◌∷◌, ◌++◌, map, filter, any, if◌then◌else◌,
}
use cryptotracker.Base.Maps.{get, set}
use cryptotracker.Scheduler.Profiles.{
  Provider, coingecko, coinbase, kraken, MarketHistoryProfile, market_history_profiles,
}

abbrev pub Schedule : Type 0
Schedule = List (String × ℕ)

-- `Math.max(5, Math.floor(intervalMinutes)) * 60_000`
abbrev pub interval_ms : ℕ → ℕ
interval_ms interval_minutes = max 5 interval_minutes * 60000

abbrev pub is_soon : ℕ → ℕ → Option ℕ → Bool
is_soon interval_minutes now none = false
is_soon interval_minutes now (some previous) = ltb now (previous + interval_ms interval_minutes)

unfoldable pub due : String → ℕ → ℕ → Schedule → Bool × Schedule
unfolding get set
due key interval_minutes now last =
    if is_soon interval_minutes now (get key last) then (false, last) else (true, set key now last)

pub record Backfill : Type 0 where
  pub provider : Provider
  pub asset_id : String
  pub quote_currency : String
  pub from_ms : ℕ
  pub to_ms : ℕ
  pub granularity_seconds : ℕ

-- The calls of the services: `queueBackfill` and `queueBackfillIfNeeded` are `recent` and `history`.
pub data Call : Type 0 where
  refresh_catalog : Call
  apply_retention : Option ℕ → Option ℕ → Call
  capture_portfolio : Call
  recent : Backfill → Call
  history : Backfill → Call
  refresh_address : String → ℕ → Call
  refresh_kraken : ℕ → Call

pub record Settings : Type 0 where
  pub asset_catalog : ℕ
  pub market_coingecko : ℕ
  pub market_coinbase : ℕ
  pub market_kraken : ℕ
  pub addresses : ℕ
  pub kraken_account : ℕ
  pub retention_days : Option ℕ
  pub failed_job_retention_hours : Option ℕ
  pub market_history_backfill_days : Option ℕ
  pub quote_currencies : List String  -- the primary and the tooltip currencies, each once

abbrev pub same_provider : Provider → Provider → Bool
same_provider coingecko coingecko = true
same_provider coinbase coinbase = true
same_provider kraken kraken = true
same_provider _ _ = false

abbrev pub history_limit : ℕ
history_limit = 6

-- Kraken gives at most 720 points.
abbrev pub provider_duration : Provider → ℕ → ℕ → ℕ
provider_duration kraken granularity_seconds ms = min ms (720 * granularity_seconds * 1000)
provider_duration _ granularity_seconds ms = ms

abbrev pub history_from : Provider → ℕ → MarketHistoryProfile → ℕ
history_from provider now profile = elim profile.duration_ms [
  | none ↦ 0
  | some ms ↦ now - provider_duration provider profile.granularity_seconds ms
]

abbrev pub history_backfill : ℕ → Provider → String → String → MarketHistoryProfile → Backfill
history_backfill now provider asset_id quote_currency profile = record {
  provider = provider;
  asset_id = asset_id;
  quote_currency = quote_currency;
  from_ms = history_from provider now profile;
  to_ms = now;
  granularity_seconds = profile.granularity_seconds;
}

abbrev pub recent_backfill : ℕ → ℕ → String → String → Provider → Backfill
recent_backfill now from_ms asset_id quote_currency provider = record {
  provider = provider;
  asset_id = asset_id;
  quote_currency = quote_currency;
  from_ms = from_ms;
  to_ms = now;
  granularity_seconds = 300;
}

-- `anew` is whether a history backfill is answered with `coalesced: false`.
module _ (settings : Settings) (anew : Backfill → Bool) (now from_ms : ℕ) where
  -- The loop over the profiles, from a number of history backfills that are queued already.
  unfoldable pub profile_loop :
      Provider → String → String → List MarketHistoryProfile → ℕ → List Call × ℕ
  profile_loop provider asset_id quote_currency [] queued = ([], queued)
  profile_loop provider asset_id quote_currency (profile ∷ profiles) queued =
      let request = history_backfill now provider asset_id quote_currency profile in
      let rest =
        profile_loop provider asset_id quote_currency profiles
          (if anew request then suc queued else queued) in
      if leb history_limit queued then ([], queued) else (history request ∷ rest.0, rest.1)

  unfoldable pub provider_loop : String → String → List Provider → ℕ → List Call × ℕ
  unfolding profile_loop
  provider_loop asset_id quote_currency [] queued = ([], queued)
  provider_loop asset_id quote_currency (provider ∷ providers) queued =
      let (older, after) =
        profile_loop provider asset_id quote_currency
          (market_history_profiles provider settings.market_history_backfill_days
            settings.retention_days)
          queued in
      let (later, last) = provider_loop asset_id quote_currency providers after in
      (
        recent (recent_backfill now from_ms asset_id quote_currency provider) ∷ (older ++ later),
        last,
      )

  unfoldable pub currency_loop : String → List Provider → List String → ℕ → List Call × ℕ
  unfolding provider_loop
  currency_loop asset_id providers [] queued = ([], queued)
  currency_loop asset_id providers (quote_currency ∷ currencies) queued =
      let (calls, after) = provider_loop asset_id quote_currency providers queued in
      let (later, last) = currency_loop asset_id providers currencies after in
      (calls ++ later, last)

  -- `providers_of` are the due providers of an asset, of which `providersForAsset` tells.
  unfoldable pub asset_loop : (String → List Provider) → List String → ℕ → List Call × ℕ
  unfolding currency_loop
  asset_loop providers_of [] queued = ([], queued)
  asset_loop providers_of (asset_id ∷ assets) queued =
      let (calls, after) =
        currency_loop asset_id (providers_of asset_id) settings.quote_currencies queued in
      let (later, last) = asset_loop providers_of assets after in (calls ++ later, last)

pub record World : Type 0 where
  pub settings : Settings
  pub overlap_buckets : ℕ
  pub asset_ids : List String  -- the enabled watched assets, each once
  pub providers_for_asset : String → List Provider
  pub anew : Backfill → Bool
  pub address_ids : List String  -- the enabled addresses
  pub kraken_configured : Bool

abbrev pub interval_of : Settings → Provider → ℕ
interval_of settings coingecko = settings.market_coingecko
interval_of settings coinbase = settings.market_coinbase
interval_of settings kraken = settings.market_kraken

abbrev pub market_key : Provider → String
market_key coingecko = "market:coingecko"
market_key coinbase = "market:coinbase"
market_key kraken = "market:kraken"

-- The providers that are due, checked one by one.
unfoldable pub due_providers : Settings → ℕ → List Provider → Schedule → List Provider × Schedule
unfolding due
due_providers settings now [] last = ([], last)
due_providers settings now (provider ∷ providers) last =
    let (is_due, marked) = due (market_key provider) (interval_of settings provider) now last in
    let (others, final) = due_providers settings now providers marked in
    (if is_due then provider ∷ others else others, final)

abbrev pub when_due : Bool → List Call → List Call
when_due true calls = calls
when_due false calls = []

unfoldable pub schedule_cycle : World → ℕ → Schedule → List Call × Schedule
unfolding due due_providers asset_loop
schedule_cycle world now last =
    let settings = world.settings in
    let from_ms = now - (world.overlap_buckets + 1) * 300000 in
    let (catalog_due, s₁) = due "asset-catalog" settings.asset_catalog now last in
    let (retention_due, s₂) = due "retention" 30 now s₁ in
    let (portfolio_due, s₃) = due "portfolio-snapshot" 30 now s₂ in
    let (providers, s₄) = due_providers settings now (coingecko ∷ coinbase ∷ kraken ∷ []) s₃ in
    let market =
      asset_loop settings world.anew now from_ms
        (λ asset_id.
          filter (λ candidate. any (same_provider candidate) providers)
            (world.providers_for_asset asset_id))
        world.asset_ids 0 in
    let (addresses_due, s₅) = due "addresses" settings.addresses now s₄ in
    let (kraken_due, s₆) = due "kraken-account" settings.kraken_account now s₅ in
    (
      when_due catalog_due (refresh_catalog ∷ [])
          ++ (when_due retention_due
                (apply_retention settings.retention_days settings.failed_job_retention_hours ∷ [])
              ++ (when_due portfolio_due (capture_portfolio ∷ [])
                  ++ (market.0
                      ++ (when_due addresses_due (
                            map (λ id. refresh_address id (now / (settings.addresses * 60000)))
                              world.address_ids)
                          ++ when_due (kraken_due && world.kraken_configured)
                              (refresh_kraken (now / (settings.kraken_account * 60000)) ∷ []))))),
      s₆,
    )
