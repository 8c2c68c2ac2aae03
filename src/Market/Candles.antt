-- ===== src/Market/Candles.antt =====
-- `combineCandles` and `deriveCandle` (api/src/domain/market.ts).
use cryptotracker.Base.{
  unique, is_truthy, ℕ, ltb, leb, ◌==◌, String, Bool, true, ◌&&◌, ◌||◌, Option, none, some, List,
  [], ◌∷◌, map, ◌>>=◌, if◌then◌else◌, length,
}
use cryptotracker.Base.Sorting.{sort}
use cryptotracker.Base.Decimals.{Decimals, least, greatest}
use cryptotracker.Market.Prices.{
  MarketDataKind, CombinedValue, is_native, kind_of, every, prefer_native, to_decimals,
  combine_price_observations,
}

pub record CandleObservation : Type 0 where
  pub provider : String
  pub open_value : String
  pub high : String
  pub low : String
  pub close : String
  pub data_kind : MarketDataKind

pub record CombinedCandle : Type 0 where
  pub open_value : Option String
  pub high : Option String
  pub low : Option String
  pub close : Option String
  pub disputed : Bool
  pub open_component : CombinedValue
  pub high_component : CombinedValue
  pub low_component : CombinedValue
  pub close_component : CombinedValue
  pub providers : List String
  pub data_kind : Option MarketDataKind

pub record PointSample : Type 0 where
  pub timestamp_ms : ℕ
  pub value : String
  pub volume : Option String

pub record DerivedCandle : Type 0 where
  pub bucket_start_ms : ℕ
  pub open_value : String
  pub high : String
  pub low : String
  pub close : String
  pub volume : Option String
  pub sample_count : ℕ

module _ (decimals : Decimals) where
  open decimals use {Decimal, parse, show, lesser, greater, total}

  unfoldable pub component :
      (String → String → Bool)
      → ℕ
      → (CandleObservation → String)
      → List CandleObservation
      → Option CombinedValue
  unfolding combine_price_observations
  component text_le threshold_percent key usable =
      combine_price_observations decimals text_le threshold_percent (
        map
          (λ (c : CandleObservation). record {
            provider = c.provider;
            value = key c;
            data_kind = c.data_kind;
          })
          usable)

  -- A high or a low, widened by the open and the close where all three are there.
  unfoldable pub widen :
      (Decimal → Decimal → Decimal)
      → Option String
      → Option String
      → Option String
      → Option (Option String)
  widen pick opened closed extreme =
      if is_truthy opened && is_truthy closed && is_truthy extreme
      then elim opened [
        | none ↦ some extreme
        | some o ↦ elim closed [
          | none ↦ some extreme
          | some c ↦ elim extreme [
            | none ↦ some none
            | some e ↦ do
              extreme_value ← parse e
              open_decimal ← parse o
              close_decimal ← parse c
              some (some (show (pick (pick extreme_value open_decimal) close_decimal)))
          ]
        ]
      ]
      else some extreme

  unfoldable pub combine_candles :
      (String → String → Bool) → ℕ → List CandleObservation → Option CombinedCandle
  unfolding component widen unique sort
  combine_candles text_le threshold_percent candles = do
    let usable = prefer_native (λ (c : CandleObservation). is_native c.data_kind) candles
    opened ← component text_le threshold_percent (λ (c : CandleObservation). c.open_value) usable
    highest ← component text_le threshold_percent (λ (c : CandleObservation). c.high) usable
    lowest ← component text_le threshold_percent (λ (c : CandleObservation). c.low) usable
    closed ← component text_le threshold_percent (λ (c : CandleObservation). c.close) usable
    high ← widen greater opened.value closed.value highest.value
    low ← widen lesser opened.value closed.value lowest.value
    some (record {
      open_value = opened.value;
      high = high;
      low = low;
      close = closed.value;
      disputed = opened.disputed || highest.disputed || lowest.disputed || closed.disputed;
      open_component = opened;
      high_component = highest;
      low_component = lowest;
      close_component = closed;
      providers = sort text_le (unique (map (λ (c : CandleObservation). c.provider) usable) []);
      data_kind =
          if length usable == 0
          then none
          else some (kind_of (every (λ (c : CandleObservation). is_native c.data_kind) usable));
    })

  -- `uniqueTimestamps.size < 2`, of samples in the order of their times.
  abbrev pub same_time : List PointSample → Bool
  same_time [] = true
  same_time (s ∷ samples) = every (λ (t : PointSample). t.timestamp_ms == s.timestamp_ms) samples

  abbrev pub last_of : Decimal → List Decimal → Decimal
  last_of value [] = value
  last_of value (other ∷ others) = last_of other others

  -- The volumes that are there.
  abbrev pub volumes_of : List PointSample → List String
  volumes_of [] = []
  volumes_of (s ∷ samples) = elim s.volume [
    | none ↦ volumes_of samples
    | some text ↦ text ∷ volumes_of samples
  ]

  -- The candle of samples in order, of which `first` is the value of the first and `others` those of the others.
  unfoldable pub candle_of : ℕ → Decimal → List Decimal → List Decimal → DerivedCandle
  candle_of bucket_start_ms first others volumes = record {
    bucket_start_ms = bucket_start_ms;
    open_value = show first;
    high = show (greatest decimals first others);
    low = show (least decimals first others);
    close = show (last_of first others);
    volume = if length volumes == 0 then none else some (show (total volumes));
    sample_count = length (first ∷ others);
  }

  -- The outer option is a failure, the inner one the null of too few samples. The times are finite.
  unfoldable pub derive_candle : List PointSample → ℕ → Option (Option DerivedCandle)
  unfolding candle_of to_decimals sort
  derive_candle samples bucket_start_ms =
      let ordered = sort (λ (l r : PointSample). leb l.timestamp_ms r.timestamp_ms) samples in
      if ltb (length ordered) 2 || same_time ordered then some none else do
        values ← to_decimals decimals (map (λ (s : PointSample). s.value) ordered)
        volumes ← to_decimals decimals (volumes_of ordered)
        elim values [
          | [] ↦ some none
          | first ∷ others ↦ some (some (candle_of bucket_start_ms first others volumes))
        ]
