-- ===== src/ChartValues/Tests.antt =====
-- Lookups of prices for charts (api/src/services/chart-values.ts), and the theorem at one.
use cryptotracker.Base.{ℕ, ◌≡◌, refl, arith, none, some, List, [], ◌∷◌, String}
use cryptotracker.Market.Prices.{native}
use cryptotracker.ChartValues.Lookup.{HistoricalPriceRow, found_at, observations_at}
use cryptotracker.ChartValues.Search.{IsLatest, found_at-IsLatest}

abbrev row_at : ℕ → String → HistoricalPriceRow
row_at start provider = record {
  provider = provider;
  bucket_start_ms = start;
  granularity_seconds = 60;
  close_value = "1";
  data_kind = native;
}

abbrev rows : List HistoricalPriceRow
rows = row_at 10 "a" ∷ row_at 20 "b" ∷ row_at 20 "c" ∷ row_at 30 "a" ∷ []

last_of_bucket : found_at rows 25 ≡ some 2
unfolding found_at
last_of_bucket = refl

whole_bucket : observations_at rows 2 ≡ row_at 20 "b" ∷ row_at 20 "c" ∷ []
unfolding observations_at
whole_bucket = refl

none_before : found_at rows 5 ≡ none
unfolding found_at
none_before = refl

found_at-IsLatest_example : IsLatest rows 25 (found_at rows 25)
found_at-IsLatest_example = found_at-IsLatest rows 25 (
  (omega arith, (omega arith, (omega arith, tt))),
  ((omega arith, (omega arith, tt)), ((omega arith, tt), (tt, tt))),
)
