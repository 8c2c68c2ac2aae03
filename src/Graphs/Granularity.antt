-- ===== src/Graphs/Granularity.antt =====
-- `resolveAutoGranularity` and `boundedOverviewGranularity` (api/src/domain/graphs.ts), on whole numbers.
use cryptotracker.Base.{
  ℕ, ◌+◌, ◌-◌, ◌*◌, ◌/◌, max, leb, ◌&&◌, Option, none, some, List, [], ◌∷◌, if◌then◌else◌, find?,
  get_or_else,
}
use cryptotracker.Base.Sorting.{sort}

abbrev pub hour : ℕ
hour = 3600000

abbrev pub day : ℕ
day = 86400000

-- The granularity that suits a duration.
unfoldable pub preferred : ℕ → ℕ
preferred duration =
    if leb duration (48 * hour)
    then 300
    else if leb duration (14 * day)
    then 1800
    else if leb duration (90 * day)
    then 3600
    else if leb duration (2 * 365 * day)
    then 86400
    else 604800

abbrev pub default_granularities : List ℕ
default_granularities = 300 ∷ 900 ∷ 1800 ∷ 3600 ∷ 14400 ∷ 86400 ∷ 604800 ∷ []

-- `xs.at(-1)`
abbrev pub last? : List ℕ → Option ℕ
last? [] = none
last? (x ∷ []) = some x
last? (x ∷ y ∷ ys) = last? (y ∷ ys)

abbrev pub or_last : Option ℕ → Option ℕ → ℕ
or_last (some x) last = x
or_last none last = get_or_else last 86400

unfoldable pub resolve_auto_granularity : ℕ → ℕ → List ℕ → ℕ
unfolding preferred sort
resolve_auto_granularity from_ms to_ms available =
    let sorted = sort leb available in
    or_last (find? (λ granularity. leb (preferred (to_ms - from_ms)) granularity) sorted)
      (last? sorted)

-- `Math.ceil(a / b)`, for `b` above 0.
abbrev pub ceil_div : ℕ → ℕ → ℕ
ceil_div a b = (a + (b - 1)) / b

unfoldable pub bounded_overview_granularity : ℕ → ℕ → ℕ → ℕ → ℕ → ℕ → ℕ
unfolding resolve_auto_granularity
bounded_overview_granularity requested_granularity from_ms to_ms series_count max_buckets_per_series
      max_buckets_per_response =
    let requested = max 1 requested_granularity in
    let requested_buckets = ceil_div (to_ms - from_ms) (requested * 1000) in
    if leb requested_buckets max_buckets_per_series
      && leb (requested_buckets * max 1 series_count) max_buckets_per_response
    then requested
    else max requested (resolve_auto_granularity from_ms to_ms default_granularities)
