-- ===== src/Scheduler/Backfills.antt =====
-- The backfills of a cycle: one recent one for each asset, currency and due provider, and few of history
-- (api/src/scheduler.ts).
use cryptotracker.Base.{
  ℕ, suc, ◌+◌, ◌≤◌, leb, ◌≡◌, refl, ap, ap₂, ◌∙◌, Bool, true, false, String, List, [], ◌∷◌, ◌++◌,
  map, filter, count, count-append, filter-append, Bool-cases, inl, inr, arith,
}
use cryptotracker.Scheduler.Profiles.{Provider, MarketHistoryProfile, market_history_profiles}
use cryptotracker.Scheduler.Cycle.{
  Backfill, Call, recent, history, Settings, history_limit, history_backfill, profile_loop,
  recent_backfill, provider_loop, currency_loop, asset_loop,
}

abbrev pub is_recent : Call → Bool
is_recent (recent backfill) = true
is_recent _ = false

-- A history backfill that was queued anew.
abbrev pub is_new : (Backfill → Bool) → Call → Bool
is_new anew (history backfill) = anew backfill
is_new anew _ = false

below : (queued : ℕ) → leb history_limit queued ≡ false → suc queued ≤ history_limit
below queued h = ground (arith, h)

module _ (settings : Settings) (anew : Backfill → Bool) (now from_ms : ℕ) where
  -- From a number of history backfills on, calls with a further number of them, and which of them are recent.
  record IsCounted (queued : ℕ) (wanted : List Call) (result : List Call × ℕ) : Type 0 where
    pub counted : count (is_new anew) result.0 + queued ≡ result.1
    pub limited : queued ≤ history_limit → result.1 ≤ history_limit
    pub recents : filter is_recent result.0 ≡ wanted

  IsCounted-append :
      (queued middle last : ℕ) (xs ys calls later : List Call)
      → IsCounted queued xs (calls, middle)
      → IsCounted middle ys (later, last)
      → IsCounted queued (xs ++ ys) (calls ++ later, last)
  IsCounted-append queued middle last xs ys calls later h k = record {
    counted =
        let first = h.counted in
        let second = k.counted in
        omega (arith, first, second, count-append (is_new anew) calls later);
    limited = λ q. k.limited (h.limited q);
    recents = filter-append is_recent calls later ∙ ap₂ ◌++◌ h.recents k.recents;
  }

  profile_loop-IsCounted :
      (provider : Provider) (asset_id quote_currency : String)
      (profiles : List MarketHistoryProfile) (queued : ℕ)
      → IsCounted queued []
          (profile_loop settings anew now from_ms provider asset_id quote_currency profiles queued)
  unfolding profile_loop
  profile_loop-IsCounted provider asset_id quote_currency [] queued = record {
    counted = omega arith;
    limited = λ q. q;
    recents = refl;
  }
  profile_loop-IsCounted provider asset_id quote_currency (profile ∷ profiles) queued =
      elim (Bool-cases (leb history_limit queued)) [
        | inl e ↦
            rw (e, profile_loop)
              (record { counted = omega arith; limited = λ q. q; recents = refl })
        | inr e ↦
            elim (Bool-cases
              (anew (history_backfill now provider asset_id quote_currency profile))) [
                | inl f ↦
                    let h =
                      profile_loop-IsCounted provider asset_id quote_currency profiles
                        (suc queued) in
                    let counted = h.counted in
                    rw (e, f, profile_loop)
                      (record {
                        counted = rw f (omega (arith, counted));
                        limited = λ q. h.limited (below queued e);
                        recents = h.recents;
                      })
                | inr f ↦
                    let h =
                      profile_loop-IsCounted provider asset_id quote_currency profiles queued in
                    rw (e, f, profile_loop)
                      (record {
                        counted = rw f h.counted;
                        limited = h.limited;
                        recents = h.recents;
                      })
              ]
      ]

  abbrev pub recents_of : String → String → List Provider → List Call
  recents_of asset_id quote_currency providers =
      map (λ provider. recent (recent_backfill now from_ms asset_id quote_currency provider))
        providers

  provider_loop-IsCounted :
      (asset_id quote_currency : String) (providers : List Provider) (queued : ℕ)
      → IsCounted queued
          (recents_of asset_id quote_currency providers)
          (provider_loop settings anew now from_ms asset_id quote_currency providers queued)
  unfolding provider_loop
  provider_loop-IsCounted asset_id quote_currency [] queued = record {
    counted = omega arith;
    limited = λ q. q;
    recents = refl;
  }
  provider_loop-IsCounted asset_id quote_currency (provider ∷ providers) queued =
      let profiles =
        market_history_profiles provider settings.market_history_backfill_days
          settings.retention_days in
      let older =
        profile_loop settings anew now from_ms provider asset_id quote_currency profiles queued in
      let later =
        provider_loop settings anew now from_ms asset_id quote_currency providers older.1 in
      let h =
        IsCounted-append queued older.1 later.1 _ _ older.0 later.0
          (profile_loop-IsCounted provider asset_id quote_currency profiles queued)
          (provider_loop-IsCounted asset_id quote_currency providers older.1) in
      record {
        counted = h.counted;
        limited = h.limited;
        recents =
            ap
              (λ calls.
                recent (recent_backfill now from_ms asset_id quote_currency provider) ∷ calls)
              h.recents;
      }

  abbrev pub recents_of_asset : String → List Provider → List String → List Call
  recents_of_asset asset_id providers [] = []
  recents_of_asset asset_id providers (quote_currency ∷ currencies) =
      recents_of asset_id quote_currency providers ++ recents_of_asset asset_id providers currencies

  currency_loop-IsCounted :
      (asset_id : String) (providers : List Provider) (currencies : List String) (queued : ℕ)
      → IsCounted queued
          (recents_of_asset asset_id providers currencies)
          (currency_loop settings anew now from_ms asset_id providers currencies queued)
  unfolding currency_loop
  currency_loop-IsCounted asset_id providers [] queued = record {
    counted = omega arith;
    limited = λ q. q;
    recents = refl;
  }
  currency_loop-IsCounted asset_id providers (quote_currency ∷ currencies) queued =
      let first =
        provider_loop settings anew now from_ms asset_id quote_currency providers queued in
      let rest = currency_loop settings anew now from_ms asset_id providers currencies first.1 in
      IsCounted-append queued first.1 rest.1 _ _ first.0 rest.0
        (provider_loop-IsCounted asset_id quote_currency providers queued)
        (currency_loop-IsCounted asset_id providers currencies first.1)

  abbrev pub recents_of_assets : (String → List Provider) → List String → List Call
  recents_of_assets providers_of [] = []
  recents_of_assets providers_of (asset_id ∷ assets) =
      recents_of_asset asset_id (providers_of asset_id) settings.quote_currencies
      ++ recents_of_assets providers_of assets

  asset_loop-IsCounted :
      (providers_of : String → List Provider) (assets : List String) (queued : ℕ)
      → IsCounted queued
          (recents_of_assets providers_of assets)
          (asset_loop settings anew now from_ms providers_of assets queued)
  unfolding asset_loop
  asset_loop-IsCounted providers_of [] queued = record {
    counted = omega arith;
    limited = λ q. q;
    recents = refl;
  }
  asset_loop-IsCounted providers_of (asset_id ∷ assets) queued =
      let first =
        currency_loop settings anew now from_ms asset_id (providers_of asset_id)
          settings.quote_currencies queued in
      let rest = asset_loop settings anew now from_ms providers_of assets first.1 in
      IsCounted-append queued first.1 rest.1 _ _ first.0 rest.0
        (currency_loop-IsCounted asset_id (providers_of asset_id) settings.quote_currencies queued)
        (asset_loop-IsCounted providers_of assets first.1)

  -- The market loops of a cycle queue exactly one recent backfill for each watched asset, currency and due provider of the asset, in this
  -- order and whatever is queued of history; and of history at most six backfills anew.
  pub asset_loop-backfills :
      (providers_of : String → List Provider) (assets : List String)
      → (filter is_recent (asset_loop settings anew now from_ms providers_of assets 0).0
          ≡ recents_of_assets providers_of assets)
        × (count (is_new anew) (asset_loop settings anew now from_ms providers_of assets 0).0 ≤ 6)
  asset_loop-backfills providers_of assets =
      let h = asset_loop-IsCounted providers_of assets 0 in
      let counted = h.counted in (h.recents, omega (arith, counted, h.limited (omega arith)))
