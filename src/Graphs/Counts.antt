-- ===== src/Graphs/Counts.antt =====
-- The buckets of a line keep every sample that has a value, in ascending order (api/src/domain/graphs.ts).
use mathlib.Core.Logic.{◌≢◌}
use cryptotracker.Base.{
  length-filter, count-push, length, leb, any, true, All-imp, subst, ◌||◌, ◌/◌, ℕ, ◌+◌, ◌*◌, ◌≤◌,
  ◌<◌, ◌==◌, ◌≡◌, ◌⊎◌, refl, sym, ap, ◌∙◌, Bool, List, [], ◌∷◌, map, arith, All, AllPairs, sum,
  count, filter, inl, inr, if◌then◌else◌,
}
use cryptotracker.Base.Sorting.{
  sort, insert, length-sort, All-sort, AllPairs-sort, sort-AllPairs_by,
}
use cryptotracker.Graphs.Buckets.{
  SeriesPoint, LinePoint, Bucket, bucket_of, put, put_all, has_value, line_point,
  aggregate_line_points,
}
use cryptotracker.Graphs.Filed.{in_bucket, has_bucket, Apart, put_all-IsFiled, has_bucket-sort}
use cryptotracker.Graphs.Latest.{IsLatest, last_value-sorted}

-- The samples with a value, in one bucket and in all.
abbrev held_in : Bucket → ℕ
held_in bucket = count has_value bucket.1

abbrev held : List Bucket → ℕ
held buckets = sum (map held_in buckets)

put-held :
    (bucket : ℕ) (point : SeriesPoint) (buckets : List Bucket)
    → held (put bucket point buckets) ≡ held buckets + (if has_value point then 1 else 0)
unfolding put
put-held bucket point [] = ground arith
put-held bucket point ((other, samples) ∷ buckets) =
    ground (arith, put-held bucket point buckets, count-push has_value samples point)

put_all-held :
    (bucket_ms : ℕ) (points : List SeriesPoint) (buckets : List Bucket)
    → held (put_all bucket_ms points buckets) ≡ held buckets + count has_value points
unfolding put_all
put_all-held bucket_ms [] buckets = omega arith
put_all-held bucket_ms (point ∷ points) buckets =
    put_all-held bucket_ms points (put (bucket_of bucket_ms point) point buckets)
    ∙ ground (arith, put-held (bucket_of bucket_ms point) point buckets)

insert-held :
    (le : Bucket → Bucket → Bool) (b : Bucket) (bs : List Bucket)
    → held (insert le b bs) ≡ held_in b + held bs
unfolding insert
insert-held le b [] = refl
insert-held le b (c ∷ bs) = ground (arith, insert-held le b bs)

sort-held : (le : Bucket → Bucket → Bool) (bs : List Bucket) → held (sort le bs) ≡ held bs
unfolding sort
sort-held le [] = refl
sort-held le (b ∷ bs) = insert-held le b (sort le bs) ∙ ap (λ n. held_in b + n) (sort-held le bs)

abbrev pub count_of : LinePoint → ℕ
count_of p = p.sample_count

line_point-count : (b : Bucket) → (line_point b).sample_count ≡ held_in b
unfolding line_point
line_point-count b = length-sort _ (filter has_value b.1) ∙ length-filter has_value b.1

counts-held : (bs : List Bucket) → sum (map count_of (map line_point bs)) ≡ held bs
counts-held [] = refl
counts-held (b ∷ bs) = ground (arith, line_point-count b, counts-held bs)

abbrev pub Before : LinePoint → LinePoint → Type 0
Before p q = p.timestamp_ms < q.timestamp_ms

line_point-time : (b : Bucket) → (line_point b).timestamp_ms ≡ b.0
unfolding line_point
line_point-time b = refl

order : (b c : ℕ) → b ≤ c → (b < c) ⊎ (b ≡ c)
order b c le = ground arith

strictly : {p q : ℕ} (b c : ℕ) → p ≡ b → q ≡ c → b ≤ c → b ≢ c → p < q
strictly b c e f le ne = elim (order b c le) [
  | inl less ↦ omega (arith, e, f, less)
  | inr same ↦ absurd (ne same)
]

ascending_all :
    (b : Bucket) (bs : List Bucket)
    → All (λ (c : Bucket). b.0 ≤ c.0) bs
    → All (Apart b) bs
    → All (Before (line_point b)) (map line_point bs)
ascending_all b [] h k = tt
ascending_all b (c ∷ bs) h k = (less (h.0) (k.0), ascending_all b bs h.1 k.1)
  where
    less : b.0 ≤ c.0 → b.0 ≢ c.0 → (line_point b).timestamp_ms < (line_point c).timestamp_ms
    less le ne = strictly b.0 c.0 (line_point-time b) (line_point-time c) le ne

ascending :
    (bs : List Bucket)
    → AllPairs (λ (b c : Bucket). b.0 ≤ c.0) bs
    → AllPairs Apart bs
    → AllPairs Before (map line_point bs)
ascending [] h k = tt
ascending (b ∷ bs) h k = (ascending_all b bs h.0 k.0, ascending bs h.1 k.1)

-- What a point of a line says of the samples in its bucket.
pub record IsPointOf (points : List SeriesPoint) (bucket_ms : ℕ) (p : LinePoint) : Type 0 where
  pub inhabited : 0 < length (filter (in_bucket bucket_ms p.timestamp_ms) points)
  pub counted :
      p.sample_count ≡ count has_value (filter (in_bucket bucket_ms p.timestamp_ms) points)
  pub latest :
      IsLatest (filter has_value (filter (in_bucket bucket_ms p.timestamp_ms) points)) p.value

pub record IsLine (points : List SeriesPoint) (bucket_ms : ℕ) (line : List LinePoint) : Type 0 where
  pub ascending : AllPairs Before line
  pub each : All (IsPointOf points bucket_ms) line
  pub covering :
      All
        (λ q.
          any (λ (p : LinePoint). p.timestamp_ms == q.timestamp_ms / bucket_ms * bucket_ms) line
          ≡ true)
        points
  pub total : sum (map count_of line) ≡ count has_value points

line_point-IsPointOf :
    (points : List SeriesPoint) (bucket_ms : ℕ) (b : Bucket)
    → b.1 ≡ filter (in_bucket bucket_ms b.0) points
    → 0 < length b.1
    → IsPointOf points bucket_ms (line_point b)
unfolding line_point
line_point-IsPointOf points bucket_ms b e positive = record {
  inhabited = subst (λ l. 0 < length l) e positive;
  counted = line_point-count b ∙ ap (count has_value) e;
  latest =
      subst (λ l. IsLatest (filter has_value l) (line_point b).value) e
        (last_value-sorted (filter has_value b.1));
}

line_points-each :
    (points : List SeriesPoint) (bucket_ms : ℕ) (bs : List Bucket)
    → All (λ (b : Bucket). b.1 ≡ filter (in_bucket bucket_ms b.0) points) bs
    → All (λ (b : Bucket). 0 < length b.1) bs
    → All (IsPointOf points bucket_ms) (map line_point bs)
line_points-each points bucket_ms [] h k = tt
line_points-each points bucket_ms (b ∷ bs) h k =
    (line_point-IsPointOf points bucket_ms b h.0 k.0, line_points-each points bucket_ms bs h.1 k.1)

line_points-any :
    (start : ℕ) (bs : List Bucket)
    → any (λ (p : LinePoint). p.timestamp_ms == start) (map line_point bs) ≡ has_bucket bs start
unfolding line_point
line_points-any start [] = refl
line_points-any start (b ∷ bs) = ap (λ t. (b.0 == start) || t) (line_points-any start bs)

-- The line has one point for each bucket that has a sample, in ascending order and for no other; it counts the samples
-- of its bucket that have a value and has the value of the latest of them; and no sample with a value is left out of
-- the counts or counted twice.
pub aggregate_line_points-IsLine :
    (points : List SeriesPoint) (granularity_seconds : ℕ)
    → IsLine points (granularity_seconds * 1000) (aggregate_line_points points granularity_seconds)
unfolding aggregate_line_points
aggregate_line_points-IsLine points granularity_seconds =
    let bucket_ms = granularity_seconds * 1000 in
    let le : Bucket → Bucket → Bool = λ l r. leb l.0 r.0 in
    let buckets = put_all bucket_ms points [] in
    let filed = put_all-IsFiled bucket_ms points in
    record {
      ascending =
          ascending (sort le buckets)
            (sort-AllPairs_by (λ (b c : Bucket). b.0 ≤ c.0) le (λ x y h. ground (arith, h))
              (λ x y h. ground (arith, h)) (λ x y z h k. omega arith) buckets)
            (AllPairs-sort Apart (λ b c ne e. ne (sym e)) le buckets filed.apart);
      each =
          line_points-each points bucket_ms (sort le buckets) (All-sort _ le buckets filed.filed)
            (All-sort _ le buckets filed.inhabited);
      covering =
          All-imp _ _ points
            (λ q h.
              line_points-any (bucket_of bucket_ms q) (sort le buckets)
              ∙ has_bucket-sort le buckets (bucket_of bucket_ms q)
              ∙ h)
            filed.covered;
      total =
          counts-held (sort le buckets)
          ∙ sort-held le buckets
          ∙ put_all-held bucket_ms points []
          ∙ omega arith;
    }
