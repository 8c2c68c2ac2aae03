-- ===== src/Graphs/Filed.antt =====
-- Which samples a bucket holds (api/src/domain/graphs.ts).

use mathlib.Core.Logic.{◌≢◌}
use cryptotracker.Base.{
  ℕ, ◌*◌, ◌/◌, ◌<◌, ◌==◌, ==_iff, ◌≡◌, refl, sym, ap, ◌∙◌, subst, Bool, true, false, List, [], ◌∷◌,
  ◌++◌, arith, All, All-imp, All-append, AllPairs, ◌||◌, any, filter, filter-append, append_nil,
  push_append, length, length-push, inl, inr, Bool-cases, if◌then◌else◌,
}
use cryptotracker.Base.Sorting.{sort, insert}
use cryptotracker.Graphs.Buckets.{SeriesPoint, Bucket, bucket_of, put, put_all}

-- Whether the bucket of a sample starts at a time.
abbrev pub in_bucket : ℕ → ℕ → SeriesPoint → Bool
in_bucket bucket_ms start point = (point.timestamp_ms / bucket_ms * bucket_ms) == start

abbrev pub has_bucket : List Bucket → ℕ → Bool
has_bucket buckets start = any (λ (b : Bucket). b.0 == start) buckets

abbrev pub Apart : Bucket → Bucket → Type 0
Apart b c = b.0 ≢ c.0

module _ (bucket_ms : ℕ) where
  -- Every bucket holds the samples of its time, in their order, and every sample has its bucket.
  pub record IsFiled (done : List SeriesPoint) (buckets : List Bucket) : Type 0 where
    pub apart : AllPairs Apart buckets
    pub filed : All (λ (b : Bucket). b.1 ≡ filter (in_bucket bucket_ms b.0) done) buckets
    pub inhabited : All (λ (b : Bucket). 0 < length b.1) buckets
    pub covered : All (λ q. has_bucket buckets (bucket_of bucket_ms q) ≡ true) done

  put-away :
      (k bucket : ℕ) (point : SeriesPoint) (bs : List Bucket)
      → k ≢ bucket
      → All (λ (b : Bucket). k ≢ b.0) bs
      → All (λ (b : Bucket). k ≢ b.0) (put bucket point bs)
  unfolding put
  put-away k bucket point [] ne h = (ne, tt)
  put-away k bucket point ((other, samples) ∷ bs) ne h = elim (Bool-cases (other == bucket)) [
    | inl e ↦ rw e (h.0, h.1)
    | inr e ↦ rw e (h.0, put-away k bucket point bs ne h.1)
  ]

  put-AllPairs :
      (bucket : ℕ) (point : SeriesPoint) (bs : List Bucket)
      → AllPairs Apart bs
      → AllPairs Apart (put bucket point bs)
  unfolding put
  put-AllPairs bucket point [] h = (tt, tt)
  put-AllPairs bucket point ((other, samples) ∷ bs) h = elim (Bool-cases (other == bucket)) [
    | inl e ↦ rw e (h.0, h.1)
    | inr e ↦ rw e (
      put-away other bucket point bs (λ same. absurd (ground (arith, e, same))) h.0,
      put-AllPairs bucket point bs h.1,
    )
  ]

  put-inhabited :
      (bucket : ℕ) (point : SeriesPoint) (bs : List Bucket)
      → All (λ (b : Bucket). 0 < length b.1) bs
      → All (λ (b : Bucket). 0 < length b.1) (put bucket point bs)
  unfolding put
  put-inhabited bucket point [] h = (omega arith, tt)
  put-inhabited bucket point ((other, samples) ∷ bs) h = elim (Bool-cases (other == bucket)) [
    | inl e ↦ rw e (omega (arith, length-push samples point), h.1)
    | inr e ↦ rw e (h.0, put-inhabited bucket point bs h.1)
  ]

  has_bucket-put :
      (start bucket : ℕ) (point : SeriesPoint) (bs : List Bucket)
      → has_bucket (put bucket point bs) start
        ≡ (if bucket == start then true else has_bucket bs start)
  unfolding put
  has_bucket-put start bucket point [] = ground arith
  has_bucket-put start bucket point ((other, samples) ∷ bs) =
      ground (arith, has_bucket-put start bucket point bs)

  -- One sample more changes the samples of its own bucket only.
  filter-other :
      (start : ℕ) (done : List SeriesPoint) (point : SeriesPoint)
      → in_bucket bucket_ms start point ≡ false
      → filter (in_bucket bucket_ms start) (done ++ point ∷ [])
        ≡ filter (in_bucket bucket_ms start) done
  filter-other start done point e =
      filter-append (in_bucket bucket_ms start) done (point ∷ []) ∙ rw e (append_nil _)

  filter-own :
      (start : ℕ) (done : List SeriesPoint) (point : SeriesPoint)
      → in_bucket bucket_ms start point ≡ true
      → filter (in_bucket bucket_ms start) (done ++ point ∷ [])
        ≡ filter (in_bucket bucket_ms start) done ++ point ∷ []
  filter-own start done point e =
      filter-append (in_bucket bucket_ms start) done (point ∷ []) ∙ rw e refl

  filed-others :
      (done : List SeriesPoint) (point : SeriesPoint) (bs : List Bucket)
      → All (λ (b : Bucket). bucket_of bucket_ms point ≢ b.0) bs
      → All (λ (b : Bucket). b.1 ≡ filter (in_bucket bucket_ms b.0) done) bs
      → All (λ (b : Bucket). b.1 ≡ filter (in_bucket bucket_ms b.0) (done ++ point ∷ [])) bs
  filed-others done point [] away h = tt
  filed-others done point (b ∷ bs) away h = (
    h.0
        ∙ sym (
            filter-other b.0 done point
              (ground (arith, away.0, ==_iff (bucket_of bucket_ms point) b.0))),
    filed-others done point bs away.1 h.1,
  )

  put-filed :
      (done : List SeriesPoint) (point : SeriesPoint) (bs : List Bucket)
      → (All (λ (b : Bucket). bucket_of bucket_ms point ≢ b.0) bs
          → filter (in_bucket bucket_ms (bucket_of bucket_ms point)) done ≡ [])
      → AllPairs Apart bs
      → All (λ (b : Bucket). b.1 ≡ filter (in_bucket bucket_ms b.0) done) bs
      → All
          (λ (b : Bucket). b.1 ≡ filter (in_bucket bucket_ms b.0) (done ++ point ∷ []))
          (put (bucket_of bucket_ms point) point bs)
  unfolding put
  put-filed done point [] absent apart h = (
    sym (
        filter-own (bucket_of bucket_ms point) done point
          ((==_iff (bucket_of bucket_ms point) (bucket_of bucket_ms point)).1 refl)
        ∙ ap (λ l. l ++ point ∷ []) (absent tt)),
    tt,
  )
  put-filed done point ((other, samples) ∷ bs) absent apart h =
      elim (Bool-cases (other == bucket_of bucket_ms point)) [
        | inl e ↦
            let same : other ≡ bucket_of bucket_ms point =
              (==_iff other (bucket_of bucket_ms point)).0 e in
            rw e (
              ap (λ l. l ++ point ∷ []) h.0
                  ∙ sym (
                      filter-own other done point
                        ((==_iff (bucket_of bucket_ms point) other).1 (sym same))),
              filed-others done point bs
                  (subst (λ k. All (λ (b : Bucket). k ≢ b.0) bs) same apart.0) h.1,
            )
        | inr e ↦
            let ne : bucket_of bucket_ms point ≢ other =
              λ same. ground (arith, e, same, ==_iff other (bucket_of bucket_ms point)) in
            rw e (
              h.0
                  ∙ sym (
                      filter-other other done point (
                        ground (
                          arith,
                          e,
                          ==_iff (bucket_of bucket_ms point) other,
                          ==_iff other (bucket_of bucket_ms point),
                        ))),
              put-filed done point bs (λ away. absent (ne, away)) apart.1 h.1,
            )
      ]

  -- A bucket that is not there has no sample.
  absent-nil :
      (start : ℕ) (done : List SeriesPoint) (bs : List Bucket)
      → All (λ q. has_bucket bs (bucket_of bucket_ms q) ≡ true) done
      → All (λ (b : Bucket). start ≢ b.0) bs
      → filter (in_bucket bucket_ms start) done ≡ []
  absent-nil start [] bs covered away = refl
  absent-nil start (q ∷ done) bs covered away = elim (Bool-cases (in_bucket bucket_ms start q)) [
    | inr e ↦ rw e (absent-nil start done bs covered.1 away)
    | inl e ↦
        let same : bucket_of bucket_ms q ≡ start = (==_iff (bucket_of bucket_ms q) start).0 e in
        let missing : has_bucket bs start ≡ false = missing-bucket bs away in
        absurd (ground (arith, missing, subst (λ k. has_bucket bs k ≡ true) same covered.0))
  ]
    where
      missing-bucket :
          (cs : List Bucket) → All (λ (b : Bucket). start ≢ b.0) cs → has_bucket cs start ≡ false
      missing-bucket [] h = refl
      missing-bucket (c ∷ cs) h = ground (arith, h.0, ==_iff c.0 start, missing-bucket cs h.1)

  put-IsFiled :
      (done : List SeriesPoint) (point : SeriesPoint) (bs : List Bucket)
      → IsFiled done bs
      → IsFiled (done ++ point ∷ []) (put (bucket_of bucket_ms point) point bs)
  put-IsFiled done point bs f = record {
    apart = put-AllPairs (bucket_of bucket_ms point) point bs f.apart;
    filed =
        put-filed done point bs (absent-nil (bucket_of bucket_ms point) done bs f.covered) f.apart
          f.filed;
    inhabited = put-inhabited (bucket_of bucket_ms point) point bs f.inhabited;
    covered =
        All-append _ done (point ∷ [])
          (All-imp _ _ done
            (λ q h. ground (
              arith,
              h,
              has_bucket-put (bucket_of bucket_ms q) (bucket_of bucket_ms point) point bs,
            ))
            f.covered)
          (
            ground (
              arith,
              has_bucket-put (bucket_of bucket_ms point) (bucket_of bucket_ms point) point bs,
            ),
            tt,
          );
  }

  put_all-go :
      (points done : List SeriesPoint) (bs : List Bucket)
      → IsFiled done bs
      → IsFiled (done ++ points) (put_all bucket_ms points bs)
  unfolding put_all
  put_all-go [] done bs f = subst (λ l. IsFiled l bs) (sym (append_nil done)) f
  put_all-go (point ∷ points) done bs f =
      subst (λ l. IsFiled l (put_all bucket_ms points (put (bucket_of bucket_ms point) point bs)))
        (push_append done point points)
        (put_all-go points (done ++ point ∷ []) (put (bucket_of bucket_ms point) point bs)
          (put-IsFiled done point bs f))

  pub put_all-IsFiled : (points : List SeriesPoint) → IsFiled points (put_all bucket_ms points [])
  put_all-IsFiled points =
      put_all-go points [] [] (record { apart = tt; filed = tt; inhabited = tt; covered = tt })

pub has_bucket-sort :
    (le : Bucket → Bucket → Bool) (bs : List Bucket) (start : ℕ)
    → has_bucket (sort le bs) start ≡ has_bucket bs start
unfolding sort insert
has_bucket-sort le [] start = refl
has_bucket-sort le (b ∷ bs) start =
    has_bucket-insert b (sort le bs) ∙ ap (λ t. (b.0 == start) || t) (has_bucket-sort le bs start)
  where
    has_bucket-insert :
        (c : Bucket) (cs : List Bucket)
        → has_bucket (insert le c cs) start ≡ has_bucket (c ∷ cs) start
    has_bucket-insert c [] = refl
    has_bucket-insert c (d ∷ cs) = ground (arith, has_bucket-insert c cs)
