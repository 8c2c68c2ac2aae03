-- ===== src/Graphs/Series.antt =====
-- `normalizeSeries`, `canUseLogScale`, `resolveBounds` and `filterEventMarkers` (api/src/domain/graphs.ts). A failure of
-- decimal.js is `none` where the source lets it through.
use cryptotracker.Base.{
  ℕ, ltb, ◌==◌, String, Bool, true, false, ◌&&◌, ◌||◌, not, Option, none, some, List, [], ◌∷◌, ◌++◌,
  ◌>>=◌, map, if◌then◌else◌, str_eq, filter, any,
}
use cryptotracker.Base.Sorting.{sort}
use cryptotracker.Base.Decimals.{Decimals, least, greatest}
use cryptotracker.Graphs.Buckets.{SeriesPoint}

pub record NormalizedPoint : Type 0 where
  pub timestamp_ms : ℕ
  pub raw_value : Option String
  pub normalized_percent : Option String

pub record NormalizedSeries : Type 0 where
  pub base_timestamp_ms : Option ℕ
  pub base_value : Option String
  pub points : List NormalizedPoint

pub data BoundSetting : Type 0 where
  auto : BoundSetting
  absolute : String → BoundSetting
  relative : String → BoundSetting

pub record Bounds : Type 0 where
  pub valid : Bool
  pub minimum : Option String
  pub maximum : Option String
  pub reason : Option String

pub record EventMarker : Type 0 where
  pub id : String
  pub category : String
  pub timestamp_ms : ℕ

unfoldable pub filter_event_markers :
    (String → String → Bool) → List EventMarker → List String → List EventMarker
unfolding sort
filter_event_markers locale_le events enabled_categories =
    sort
      (λ (left right : EventMarker).
        ltb left.timestamp_ms right.timestamp_ms
        || (left.timestamp_ms == right.timestamp_ms && locale_le left.id right.id))
      (filter
        (λ (event : EventMarker).
          any (λ category. str_eq category event.category) enabled_categories)
        events)

module _ (decimals : Decimals) where
  open decimals use {
    Decimal, parse, show, of_ℕ, plus, minus, times, divided_by, abs, is_zero, greater_than,
    at_least, lesser, greater,
  }

  -- `points.find((point) => point.value !== null && !new Decimal(point.value).isZero())`
  unfoldable pub find_base : List SeriesPoint → Option (Option (SeriesPoint × Decimal))
  find_base [] = some none
  find_base (point ∷ points) =
      let rest = find_base points in
      elim point.value [
        | none ↦ rest
        | some text ↦ elim (parse text) [
          | none ↦ none
          | some value ↦ if is_zero value then rest else some (some (point, value))
        ]
      ]

  -- One point, against the base value.
  unfoldable pub normalize_point : Decimal → SeriesPoint → Option NormalizedPoint
  normalize_point base point = elim point.value [
    | none ↦
        some (record {
          timestamp_ms = point.timestamp_ms;
          raw_value = none;
          normalized_percent = none;
        })
    | some text ↦ do
      value ← parse text
      some (record {
        timestamp_ms = point.timestamp_ms;
        raw_value = some text;
        normalized_percent = some (show (times (divided_by (minus value base) base) (of_ℕ 100)));
      })
  ]

  unfoldable pub normalize_points : Decimal → List SeriesPoint → Option (List NormalizedPoint)
  unfolding normalize_point
  normalize_points base [] = some []
  normalize_points base (point ∷ points) = do
    first ← normalize_point base point
    rest ← normalize_points base points
    some (first ∷ rest)

  unfoldable pub normalize_series : List SeriesPoint → Option NormalizedSeries
  unfolding find_base normalize_points
  normalize_series points = elim (find_base points) [
    | none ↦ none
    | some none ↦ some (record {
      base_timestamp_ms = none;
      base_value = none;
      points =
          map
            (λ (p : SeriesPoint). record {
              timestamp_ms = p.timestamp_ms;
              raw_value = p.value;
              normalized_percent = none;
            })
            points;
    })
    | some (some (base, value)) ↦ do
      normalized ← normalize_points value points
      some (record {
        base_timestamp_ms = some base.timestamp_ms;
        base_value = base.value;
        points = normalized;
      })
  ]

  -- The numbers of the points that have one.
  unfoldable pub values_of : List SeriesPoint → Option (List Decimal)
  values_of [] = some []
  values_of (point ∷ points) =
      let rest = values_of points in
      elim point.value [
        | none ↦ rest
        | some text ↦ do value ← parse text; values ← rest; some (value ∷ values)
      ]

  abbrev pub all_positive : List Decimal → Bool
  all_positive [] = true
  all_positive (value ∷ values) = greater_than value (of_ℕ 0) && all_positive values

  abbrev pub is_empty : List Decimal → Bool
  is_empty [] = true
  is_empty (value ∷ values) = false

  abbrev pub flat : List (List SeriesPoint) → List SeriesPoint
  flat [] = []
  flat (points ∷ series) = points ++ flat series

  unfoldable pub can_use_log_scale : List (List SeriesPoint) → Option Bool
  unfolding values_of
  can_use_log_scale series = do
    values ← values_of (flat series)
    some (not (is_empty values) && all_positive values)

  unfoldable pub parse_all : List String → Option (List Decimal)
  parse_all [] = some []
  parse_all (text ∷ texts) = do value ← parse text; values ← parse_all texts; some (value ∷ values)

  -- A bound; `outwards` subtracts for the minimum and adds for the maximum.
  unfoldable pub resolve_bound :
      BoundSetting → Decimal → (Decimal → Decimal → Decimal) → Decimal → Option Decimal
  resolve_bound auto data_bound outwards safe_range = some data_bound
  resolve_bound (absolute text) data_bound outwards safe_range = parse text
  resolve_bound (relative text) data_bound outwards safe_range = do
    percent ← parse text
    some (outwards data_bound (times safe_range (divided_by percent (of_ℕ 100))))

  abbrev pub invalid : String → Bounds
  invalid reason = record { valid = false; minimum = none; maximum = none; reason = some reason }

  -- The tests of two resolved bounds.
  unfoldable pub judge_bounds : Bool → Decimal → Decimal → Bounds
  judge_bounds log_scale low high =
      if at_least low high
      then invalid "Minimum must be less than maximum."
      else if log_scale && (not (greater_than low (of_ℕ 0)) || not (greater_than high (of_ℕ 0)))
      then invalid "Logarithmic bounds must be positive."
      else record {
        valid = true;
        minimum = some (show low);
        maximum = some (show high);
        reason = none;
      }

  unfoldable pub judge_resolved : Bool → Option Decimal → Option Decimal → Bounds
  unfolding judge_bounds
  judge_resolved log_scale none high = invalid "Bound input is not a valid decimal."
  judge_resolved log_scale (some low) none = invalid "Bound input is not a valid decimal."
  judge_resolved log_scale (some low) (some high) = judge_bounds log_scale low high

  -- The bounds of data that lie between two values.
  unfoldable pub bounds_of : Decimal → Decimal → BoundSetting → BoundSetting → Bool → Bounds
  unfolding resolve_bound judge_resolved
  bounds_of data_minimum data_maximum minimum maximum log_scale =
      let range = minus data_maximum data_minimum in
      let safe_range = if is_zero range then greater (abs data_maximum) (of_ℕ 1) else range in
      judge_resolved log_scale (resolve_bound minimum data_minimum minus safe_range)
        (resolve_bound maximum data_maximum plus safe_range)

  unfoldable pub resolve_bounds : List String → BoundSetting → BoundSetting → Bool → Option Bounds
  unfolding parse_all bounds_of
  resolve_bounds texts minimum maximum log_scale = do
    values ← parse_all texts
    some (elim values [
      | [] ↦ record { valid = true; minimum = none; maximum = none; reason = none }
      | value ∷ others ↦
          bounds_of (least decimals value others) (greatest decimals value others) minimum maximum
            log_scale
    ])
