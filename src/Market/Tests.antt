-- ===== src/Market/Tests.antt =====
-- Runs of the market functions (api/src/domain/market.ts) on whole numbers, and the theorems at them.
use Prim.Native.String.{compare}
use text.Mathlib.Text.{is_le}
use cryptotracker.Base.{ℕ, String, ◌≡◌, refl, arith, Bool, none, some, List, [], ◌∷◌}
use cryptotracker.Base.Whole.{whole, whole_exact}
use cryptotracker.Market.Prices.{
  native, derived, PriceObservation, CombinedValue, median, missing_value,
  combine_price_observations,
}
use cryptotracker.Market.Candles.{PointSample, DerivedCandle, derive_candle}
use cryptotracker.Market.Shape.{IsCandle, derive_candle-IsCandle}
use cryptotracker.Market.Median.{IsOrdered}
use cryptotracker.Market.Preference.{IsCombined, combine_price_observations-IsCombined}

abbrev text_le : String → String → Bool
text_le a b = is_le (compare a b)

median_of_four : median whole ("30" ∷ "10" ∷ "40" ∷ "20" ∷ []) ≡ some (some "25")
unfolding median
median_of_four = refl

abbrev sample : ℕ → String → PointSample
sample time value = record { timestamp_ms = time; value = value; volume = none }

abbrev samples : List PointSample
samples = sample 3000 "12" ∷ sample 1000 "10" ∷ sample 2000 "15" ∷ []

candle : DerivedCandle
unfolding derive_candle
candle = elim (derive_candle whole samples 0) [
  | some (some c) ↦ c
  | _ ↦ record {
    bucket_start_ms = 0;
    open_value = "";
    high = "";
    low = "";
    close = "";
    volume = none;
    sample_count = 0;
  }
]

candle-high : candle.high ≡ "15"
unfolding candle derive_candle
candle-high = refl

derive_candle-IsCandle_example : IsCandle whole whole_exact 3 candle
unfolding candle derive_candle
derive_candle-IsCandle_example =
    derive_candle-IsCandle whole whole_exact samples 0 candle
      ((λ v e. tt), ((λ v e. tt), ((λ v e. tt), tt))) refl

abbrev observations : List PriceObservation
observations =
    record { provider = "kraken"; value = "100"; data_kind = native }
    ∷ record { provider = "coingecko"; value = "140"; data_kind = derived }
    ∷ record { provider = "binance"; value = "200"; data_kind = native }
    ∷ []

combined : CombinedValue
unfolding combine_price_observations
combined = elim (combine_price_observations whole text_le 5 observations) [
  | none ↦ missing_value whole
  | some c ↦ c
]

native_price : combined.value ≡ some "150"
unfolding combined combine_price_observations
native_price = refl

whole_ordered : IsOrdered whole
whole_ordered = record {
  total = λ x y _ _ h. ground (arith, h);
  trans = λ x y z _ _ _ h k. ground (arith, h, k);
}

combine_price_observations-IsCombined_example : IsCombined whole text_le 5 observations combined
unfolding combined combine_price_observations
combine_price_observations-IsCombined_example =
    combine_price_observations-IsCombined whole text_le 5 whole_ordered observations combined refl
