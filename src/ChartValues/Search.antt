-- ===== src/ChartValues/Search.antt =====
-- The binary search finds the last candidate that is not later than a time (api/src/services/chart-values.ts).
use cryptotracker.Base.{
  ℕ, zero, suc, ◌+◌, ◌-◌, ◌/◌, ◌≤◌, ◌<◌, ltb, leb, ◌≡◌, refl, true, Option, none, some, List, [],
  ◌∷◌, length, arith, Bool-cases, inl, inr, AllPairs, All,
}
use cryptotracker.ChartValues.Lookup.{HistoricalPriceRow, start_at, search, found_at}

abbrev pub NotLater : HistoricalPriceRow → HistoricalPriceRow → Type 0
NotLater a b = a.bucket_start_ms ≤ b.bucket_start_ms

start_at_least :
    (bound : ℕ) (rows : List HistoricalPriceRow) (j : ℕ)
    → All (λ row. bound ≤ row.bucket_start_ms) rows
    → j < length rows
    → bound ≤ start_at rows j
start_at_least bound [] j h lt = absurd (omega arith)
start_at_least bound (row ∷ rows) zero h lt = h.0
start_at_least bound (row ∷ rows) (suc j) h lt = start_at_least bound rows j h.1 (omega arith)

pub start_at_mono :
    (rows : List HistoricalPriceRow) (i j : ℕ)
    → AllPairs NotLater rows
    → i ≤ j
    → j < length rows
    → start_at rows i ≤ start_at rows j
start_at_mono [] i j h le lt = absurd (omega arith)
start_at_mono (row ∷ rows) zero zero h le lt = omega arith
start_at_mono (row ∷ rows) (suc i) zero h le lt = absurd (omega arith)
start_at_mono (row ∷ rows) zero (suc j) h le lt =
    start_at_least row.bucket_start_ms rows j h.0 (omega arith)
start_at_mono (row ∷ rows) (suc i) (suc j) h le lt =
    start_at_mono rows i j h.1 (omega arith) (omega arith)

-- What the loop knows: all before `left` are not later than the time, the last of them is found, and all from `stop`
-- on are later.
record IsBracketed (rows : List HistoricalPriceRow) (time left stop : ℕ) (found : Option ℕ)
    : Type 0 where
  inside : stop ≤ length rows
  later : (j : ℕ) → stop ≤ j → j < length rows → time < start_at rows j
  last : (elim found as (λ _. Type 0) [
    | none ↦ left ≡ 0
    | some f ↦ (left ≡ suc f) × (f < length rows) × (start_at rows f ≤ time)
  ])

-- The last candidate that is not later, or none where all are later.
abbrev pub IsLatest : List HistoricalPriceRow → ℕ → Option ℕ → Type 0
IsLatest rows time none = (j : ℕ) → j < length rows → time < start_at rows j
IsLatest rows time (some f) =
    (f < length rows)
    × (start_at rows f ≤ time)
    × ((j : ℕ) → f < j → j < length rows → time < start_at rows j)

bracket_closed :
    (rows : List HistoricalPriceRow) (time left stop : ℕ) (found : Option ℕ)
    → stop ≤ left
    → IsBracketed rows time left stop found
    → IsLatest rows time found
bracket_closed rows time left stop none le b =
    let at_start = b.last in λ j lt. b.later j (omega (arith, le, at_start)) lt
bracket_closed rows time left stop (some f) le b =
    let (next, within, small) = b.last in
    (within, small, λ j above lt. b.later j (omega (arith, le, next, above)) lt)

middle_low : (left stop : ℕ) → ltb left stop ≡ true → left ≤ (left + (stop - 1)) / 2
middle_low left stop more = ground (arith, more)

middle_high : (left stop : ℕ) → ltb left stop ≡ true → (left + (stop - 1)) / 2 < stop
middle_high left stop more = ground (arith, more)

search-IsLatest :
    (fuel : ℕ) (rows : List HistoricalPriceRow) (time left stop : ℕ) (found : Option ℕ)
    → AllPairs NotLater rows
    → stop ≤ left + fuel
    → IsBracketed rows time left stop found
    → IsLatest rows time (search fuel rows time left stop found)
unfolding search
search-IsLatest zero rows time left stop found sorted enough b =
    bracket_closed rows time left stop found (omega arith) b
search-IsLatest (suc fuel) rows time left stop found sorted enough b =
    let middle = (left + (stop - 1)) / 2 in
    elim (Bool-cases (ltb left stop)) [
      | inr done ↦
          rw (done, search) (bracket_closed rows time left stop found (ground (arith, done)) b)
      | inl more ↦
          let low : left ≤ middle = middle_low left stop more in
          let high : middle < stop = middle_high left stop more in
          let within = b.inside in
          elim (Bool-cases (leb (start_at rows middle) time)) [
            | inl e ↦
                rw (more, e, search)
                  (search-IsLatest fuel rows time (middle + 1) stop (some middle) sorted
                    (omega (arith, low, enough))
                    (record {
                      inside = b.inside;
                      later = b.later;
                      last = (omega arith, omega (arith, high, within), ground (arith, e));
                    }))
            | inr e ↦
                rw (more, e, search)
                  (search-IsLatest fuel rows time left middle found sorted
                    (omega (arith, high, enough))
                    (record {
                      inside = omega (arith, high, within);
                      later = λ j above lt.
                          let mono = start_at_mono rows middle j sorted above lt in
                          ground (arith, e, mono);
                      last = b.last;
                    }))
          ]
    ]

-- On candidates ordered by the start of their buckets, the binary search of `length` rounds gives the last one that is
-- not later than the time: it is one of the candidates, it is not later, and every candidate after it is later. It gives
-- none only where every candidate is later.
pub found_at-IsLatest :
    (rows : List HistoricalPriceRow) (time : ℕ)
    → AllPairs NotLater rows
    → IsLatest rows time (found_at rows time)
unfolding found_at
found_at-IsLatest rows time sorted =
    search-IsLatest (length rows) rows time 0 (length rows) none sorted (omega arith)
      (record { inside = omega arith; later = λ j above lt. absurd (omega arith); last = refl })
