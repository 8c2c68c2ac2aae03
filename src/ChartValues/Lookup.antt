-- ===== src/ChartValues/Lookup.antt =====
-- `chartDenominationsAt` and the lookups of `historicalPriceLookups` (api/src/services/chart-values.ts). The candidates
-- of an asset and a currency are the rows of the query, which orders them by the start of their buckets.
use cryptotracker.Base.{
  ℕ, zero, suc, ◌+◌, ◌-◌, ◌*◌, ◌/◌, min, ltb, leb, ◌==◌, Bool, String, str_eq, Option, none, some,
  ◌>>=◌, List, [], ◌∷◌, map, filter, drop, length, if◌then◌else◌,
}
use cryptotracker.Base.Decimals.{Decimals}
use cryptotracker.Base.Maps
use cryptotracker.Market.Prices.{MarketDataKind, PriceObservation, combine_price_observations}

pub record HistoricalPriceRow : Type 0 where
  pub provider : String
  pub bucket_start_ms : ℕ
  pub granularity_seconds : ℕ
  pub close_value : String
  pub data_kind : MarketDataKind

abbrev pub start_at : List HistoricalPriceRow → ℕ → ℕ
start_at [] i = 0
start_at (row ∷ rows) zero = row.bucket_start_ms
start_at (row ∷ rows) (suc i) = start_at rows i

-- The loop over `left`, `right` and `found`; `stop` is `right + 1`.
unfoldable pub search : ℕ → List HistoricalPriceRow → ℕ → ℕ → ℕ → Option ℕ → Option ℕ
search zero candidates timestamp_ms left stop found = found
search (suc fuel) candidates timestamp_ms left stop found =
    let middle = (left + (stop - 1)) / 2 in
    let above = search fuel candidates timestamp_ms (middle + 1) stop (some middle) in
    let below = search fuel candidates timestamp_ms left middle found in
    if ltb left stop
    then if leb (start_at candidates middle) timestamp_ms then above else below
    else found

-- Each round leaves fewer candidates.
unfoldable pub found_at : List HistoricalPriceRow → ℕ → Option ℕ
unfolding search
found_at candidates timestamp_ms =
    search (length candidates) candidates timestamp_ms 0 (length candidates) none

-- The loop from `found` back to the first candidate of its bucket.
unfoldable pub first_of : List HistoricalPriceRow → ℕ → ℕ → ℕ
first_of candidates bucket zero = zero
first_of candidates bucket (suc first) =
    let earlier = first_of candidates bucket first in
    if start_at candidates first == bucket then earlier else suc first

-- The loop from an index on while the bucket is the same.
unfoldable pub while_in : ℕ → List HistoricalPriceRow → List HistoricalPriceRow
while_in bucket [] = []
while_in bucket (row ∷ rows) =
    if row.bucket_start_ms == bucket then row ∷ while_in bucket rows else []

abbrev pub finest_of : ℕ → List HistoricalPriceRow → ℕ
finest_of finest [] = finest
finest_of finest (row ∷ rows) = finest_of (min finest row.granularity_seconds) rows

-- The observations of the finest granularity among those of a bucket.
unfoldable pub finest : List HistoricalPriceRow → List PriceObservation
finest [] = []
finest (row ∷ rows) =
    map
      (λ (observation : HistoricalPriceRow). record {
        provider = observation.provider;
        value = observation.close_value;
        data_kind = observation.data_kind;
      })
      (filter
        (λ observation. observation.granularity_seconds == finest_of row.granularity_seconds rows)
        (row ∷ rows))

abbrev pub week_ms : ℕ
week_ms = 7 * 24 * 60 * 60000

unfoldable pub observations_at : List HistoricalPriceRow → ℕ → List HistoricalPriceRow
unfolding first_of while_in
observations_at candidates found =
    let bucket = start_at candidates found in
    while_in bucket (drop (first_of candidates bucket found) candidates)

module _ (decimals : Decimals) (text_le : String → String → Bool)
    (disagreement_threshold_percent : ℕ) where
  open decimals use {parse, show, is_zero, divided_by}

  unfoldable pub combined_value : List HistoricalPriceRow → Option (Option String)
  unfolding finest combine_price_observations
  combined_value observations = do
    combined ←
        combine_price_observations decimals text_le disagreement_threshold_percent
          (finest observations)
    some combined.value

  -- What is found for a time, after the test for the currency itself and before the cache; none of the outer option is an error of decimal.js.
  unfoldable pub value_at : List HistoricalPriceRow → ℕ → Option (Option String)
  unfolding found_at observations_at combined_value
  value_at candidates timestamp_ms = elim (found_at candidates timestamp_ms) [
    | none ↦ some none
    | some found ↦
        if ltb (start_at candidates found + week_ms) timestamp_ms
        then some none
        else combined_value (observations_at candidates found)
  ]

  -- `priceAt` of an asset and a currency is what it gives in the primary currency and, for the options that it has none
  -- for, in USD.
  unfoldable pub denomination_in :
      List (String × Option String)
      → (String → Option String)
      → List String
      → Option (Option (String × String))
  denomination_in quote_values price_at [] = some none
  denomination_in quote_values price_at (currency ∷ currencies) =
      let rest = denomination_in quote_values price_at currencies in
      elim (Maps.get currency quote_values) [
        | none ↦ rest
        | some none ↦ rest
        | some (some quote_value) ↦ elim (price_at currency) [
          | none ↦ rest
          | some unit_price ↦ parse unit_price >>= λ price.
              if is_zero price
              then rest
              else parse quote_value >>= λ quote.
                  some (some (show (divided_by quote price), currency))
        ]
      ]

  -- `primary`, in upper case, and USD, each once.
  abbrev pub currencies_of : String → List String
  currencies_of primary = if str_eq primary "USD" then primary ∷ [] else primary ∷ "USD" ∷ []

  -- The denominations of the options, whose ids differ, none for null, and the currencies of those that are not in the primary one.
  unfoldable pub chart_denominations_at :
      List String
      → List (String × Option String)
      → String
      → (String → String → Option String)
      → Option (List (String × Option String) × List (String × String))
  unfolding denomination_in
  chart_denominations_at [] quote_values primary price_at = some ([], [])
  chart_denominations_at (option ∷ options) quote_values primary price_at = do
    found ← denomination_in quote_values (price_at option) (currencies_of primary)
    (denominations, fallbacks) ← chart_denominations_at options quote_values primary price_at
    some (elim found [
      | none ↦ ((option, none) ∷ denominations, fallbacks)
      | some (value, currency) ↦ (
        (option, some value) ∷ denominations,
        if str_eq currency primary then fallbacks else (option, currency) ∷ fallbacks,
      )
    ])
