-- ===== src/Graphs/Buckets.antt =====
-- `aggregateLinePoints` (api/src/domain/graphs.ts). The map of buckets keeps the order of first use; the samples of a
-- bucket keep theirs.
use cryptotracker.Base.{
  ℕ, ◌*◌, ◌/◌, ◌==◌, leb, String, Bool, not, Option, none, List, [], ◌∷◌, ◌++◌, map, if◌then◌else◌,
  filter, is_none, length,
}
use cryptotracker.Base.Sorting.{sort}

pub record SeriesPoint : Type 0 where
  pub timestamp_ms : ℕ
  pub value : Option String

pub record LinePoint : Type 0 where
  pub timestamp_ms : ℕ
  pub value : Option String
  pub sample_count : ℕ

abbrev pub Bucket : Type 0
Bucket = ℕ × List SeriesPoint

-- `Math.floor(timestampMs / bucketMs) * bucketMs`
abbrev pub bucket_of : ℕ → SeriesPoint → ℕ
bucket_of bucket_ms point = point.timestamp_ms / bucket_ms * bucket_ms

unfoldable pub put : ℕ → SeriesPoint → List Bucket → List Bucket
put bucket point [] = (bucket, point ∷ []) ∷ []
put bucket point ((other, samples) ∷ buckets) =
    let rest = put bucket point buckets in
    if other == bucket then (other, samples ++ point ∷ []) ∷ buckets else (other, samples) ∷ rest

unfoldable pub put_all : ℕ → List SeriesPoint → List Bucket → List Bucket
unfolding put
put_all bucket_ms [] buckets = buckets
put_all bucket_ms (point ∷ points) buckets =
    put_all bucket_ms points (put (bucket_of bucket_ms point) point buckets)

abbrev pub has_value : SeriesPoint → Bool
has_value point = not (is_none point.value)

abbrev pub last_value : List SeriesPoint → Option String
last_value [] = none
last_value (p ∷ []) = p.value
last_value (p ∷ q ∷ ps) = last_value (q ∷ ps)

unfoldable pub line_point : Bucket → LinePoint
unfolding sort
line_point (bucket, samples) =
    let valid =
      sort (λ (l r : SeriesPoint). leb l.timestamp_ms r.timestamp_ms) (filter has_value samples) in
    record { timestamp_ms = bucket; value = last_value valid; sample_count = length valid }

unfoldable pub aggregate_line_points : List SeriesPoint → ℕ → List LinePoint
unfolding put_all line_point sort
aggregate_line_points points granularity_seconds =
    map line_point
      (sort (λ (l r : Bucket). leb l.0 r.0) (put_all (granularity_seconds * 1000) points []))
