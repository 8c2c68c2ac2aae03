-- ===== src/Market/Prices.antt =====
-- `median`, `providerSpread`, `combinePriceObservations`, `convertQuote` and `hasMeaningfulVolume`
-- (api/src/domain/market.ts). `none` is where the source throws, and `text_le` is the order of `sort` on texts.
use cryptotracker.Base.{
  ℕ, ◌-◌, ◌/◌, ◌%◌, ltb, ◌==◌, String, Bool, true, false, ◌&&◌, not, Option, none, some, List, [],
  ◌∷◌, map, ◌>>=◌, if◌then◌else◌, filter, length, get_elem?,
}
use cryptotracker.Base.Sorting.{sort}
use cryptotracker.Base.Decimals.{Decimals, least, greatest}
use cryptotracker.Base.Maps

pub data MarketDataKind : Type 0 where
  native derived : MarketDataKind

pub data PriceStatus : Type 0 where
  native_status derived_status fallback converted disputed_status missing : PriceStatus

pub data SpreadKind : Type 0 where
  relative absolute : SpreadKind

pub record PriceObservation : Type 0 where
  pub provider : String
  pub value : String
  pub data_kind : MarketDataKind

pub record CombinedValue : Type 0 where
  pub value : Option String
  pub providers : List String
  pub data_kind : Option MarketDataKind
  pub status : PriceStatus
  pub disputed : Bool
  pub spread : Option String
  pub spread_kind : Option SpreadKind
  pub contributing_values : List (String × String)

pub record ProviderSpread : Type 0 where
  pub spread : Option String
  pub kind : Option SpreadKind

abbrev pub is_native : MarketDataKind → Bool
is_native native = true
is_native derived = false

abbrev pub kind_of : Bool → MarketDataKind
kind_of true = native
kind_of false = derived

abbrev pub status_of_kind : MarketDataKind → PriceStatus
status_of_kind native = native_status
status_of_kind derived = derived_status

abbrev pub every {ℓ} : {A : Type ℓ} → (A → Bool) → List A → Bool
every test [] = true
every test (x ∷ xs) = test x && every test xs

-- The native ones where there are any, or else all.
abbrev pub prefer_native {ℓ} : {A : Type ℓ} → (A → Bool) → List A → List A
prefer_native test xs = if length (filter test xs) == 0 then xs else filter test xs

unfoldable pub preferred_observations : List PriceObservation → List PriceObservation
preferred_observations observations =
    prefer_native (λ (o : PriceObservation). is_native o.data_kind) observations

module _ (decimals : Decimals) where
  open decimals use {
    Decimal, parse, show, of_ℕ, plus, minus, times, divided_by, abs, is_zero, is_finite,
    greater_than, at_least, at_most, lesser, greater,
  }

  unfoldable pub to_decimal : String → Option Decimal
  to_decimal text = do value ← parse text; if is_finite value then some value else none

  unfoldable pub to_decimals : List String → Option (List Decimal)
  unfolding to_decimal
  to_decimals [] = some []
  to_decimals (text ∷ texts) = do
    value ← to_decimal text
    values ← to_decimals texts
    some (value ∷ values)

  -- The middle of sorted values, or half the sum of the middle two.
  unfoldable pub middle_of : List Decimal → Option Decimal
  middle_of sorted =
      let middle = length sorted / 2 in
      if length sorted % 2 == 1 then get_elem? sorted middle else do
        low ← get_elem? sorted (middle - 1)
        high ← get_elem? sorted middle
        some (divided_by (plus low high) (of_ℕ 2))

  -- The outer option is a failure, the inner one the null of no values.
  unfoldable pub median : List String → Option (Option String)
  unfolding to_decimals middle_of sort
  median [] = some none
  median (text ∷ texts) = do
    values ← to_decimals (text ∷ texts)
    middle ← middle_of (sort at_most values)
    some (some (show middle))

  unfoldable pub provider_spread : List String → Option ProviderSpread
  unfolding median to_decimals to_decimal
  provider_spread texts =
      if ltb (length texts) 2 then some (record { spread = none; kind = none }) else do
        values ← to_decimals texts
        middle ← median texts
        elim values [
          | [] ↦ none
          | value ∷ others ↦ elim middle [
            | none ↦ none
            | some text ↦ do
              median_value ← to_decimal text
              let difference = minus (greatest decimals value others) (least decimals value others)
              some (
                  if is_zero median_value
                  then record { spread = some (show difference); kind = some absolute }
                  else record {
                    spread = some (show (divided_by difference (abs median_value)));
                    kind = some relative;
                  })
          ]
        ]

  -- Whether a spread is a dispute, for a threshold in percent.
  unfoldable pub is_disputed : ℕ → ProviderSpread → Option Bool
  is_disputed threshold_percent s = elim s.spread [
    | none ↦ some false
    | some text ↦ do
      spread ← parse text
      some (elim s.kind [
        | some absolute ↦ not (is_zero spread)
        | _ ↦ greater_than spread (divided_by (of_ℕ threshold_percent) (of_ℕ 100))
      ])
  ]

  abbrev pub missing_value : CombinedValue
  missing_value = record {
    value = none;
    providers = [];
    data_kind = none;
    status = missing;
    disputed = false;
    spread = none;
    spread_kind = none;
    contributing_values = [];
  }

  -- `Object.fromEntries`: a later entry of the same provider replaces the earlier one.
  unfoldable pub contributions :
      List PriceObservation → List (String × String) → List (String × String)
  unfolding Maps.set
  contributions [] m = m
  contributions (o ∷ observations) m = contributions observations (Maps.set o.provider o.value m)

  -- The usable observations, of which there are some.
  unfoldable pub combine_usable :
      (String → String → Bool) → ℕ → List PriceObservation → Option CombinedValue
  unfolding median provider_spread is_disputed contributions sort
  combine_usable text_le threshold_percent usable = do
    let texts = map (λ (o : PriceObservation). o.value) usable
    value ← median texts
    spread ← provider_spread texts
    disputed ← is_disputed threshold_percent spread
    let kind = kind_of (every (λ (o : PriceObservation). is_native o.data_kind) usable)
    some (record {
      value = value;
      providers = sort text_le (map (λ (o : PriceObservation). o.provider) usable);
      data_kind = some kind;
      status =
          if disputed
          then disputed_status
          else if length usable == 1
          then fallback
          else status_of_kind kind;
      disputed = disputed;
      spread = spread.spread;
      spread_kind = spread.kind;
      contributing_values = contributions usable [];
    })

  unfoldable pub combine_price_observations :
      (String → String → Bool) → ℕ → List PriceObservation → Option CombinedValue
  unfolding preferred_observations combine_usable
  combine_price_observations text_le threshold_percent observations =
      let usable = preferred_observations observations in
      if length usable == 0
      then some missing_value
      else combine_usable text_le threshold_percent usable

  -- The value of a converted quote; its status is 'converted' and its provider the given one.
  unfoldable pub convert_quote : Option String → Option String → Option (Option String)
  unfolding to_decimal
  convert_quote none ratio = some none
  convert_quote (some source) none = some none
  convert_quote (some source) (some ratio) = do
    value ← to_decimal source
    factor ← to_decimal ratio
    some (some (show (times value factor)))

  -- `is_combined` is the test of the source's name. `some` stops at the first volume that passes.
  unfoldable pub has_meaningful_volume : Bool → List (Option String) → Option Bool
  has_meaningful_volume true volumes = some false
  has_meaningful_volume false [] = some false
  has_meaningful_volume false (none ∷ volumes) = has_meaningful_volume false volumes
  has_meaningful_volume false (some text ∷ volumes) =
      let rest = has_meaningful_volume false volumes in
      elim (parse text) [
        | none ↦ none
        | some volume ↦ if at_least volume (of_ℕ 0) then some true else rest
      ]
