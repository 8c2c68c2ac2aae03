-- ===== src/Graphs/Nearest.antt =====
-- Which granularity is chosen, and that it keeps the response small (api/src/domain/graphs.ts).
use mathlib.Core.List.{Memᴰ}
use native.Mathlib.Nat.{div-lt_iff_lt-mul, mul-le-mul_left, mul_comm}
use cryptotracker.Base.{
  ℕ, ◌+◌, ◌-◌, ◌*◌, ◌≤◌, ◌<◌, max, leb, ◌==◌, ◌≡◌, ◌⊎◌, inl, inr, refl, sym, subst, Bool, true,
  false, ◌&&◌, some, List, [], ◌∷◌, arith, All, All-imp, All-Memᴰ, AllPairs, any, any-false, find?,
  find?-none, length, Bool-cases, Option-cases,
}
use cryptotracker.Base.Sorting.{sort, length-sort, sort-All, All-sort, sort-AllPairs_by}
use cryptotracker.Graphs.Granularity.{
  preferred, last?, or_last, resolve_auto_granularity, default_granularities, ceil_div,
  bounded_overview_granularity,
}

-- The choice among the available granularities: the least that is not finer than what is wanted, or the
-- coarsest where all are finer.
pub record IsNearest (wanted : ℕ) (available : List ℕ) (chosen : ℕ) : Type 0 where
  pub listed : any (λ g. g == chosen) available ≡ true
  pub nearest :
      ((wanted ≤ chosen) × All (λ g. wanted ≤ g → chosen ≤ g) available)
      ⊎ (All (λ g. g < wanted) available × All (λ g. g ≤ chosen) available)

abbrev Ascending : List ℕ → Type 0
Ascending = AllPairs (λ g h. g ≤ h)

sort-Ascending : (xs : List ℕ) → Ascending (sort leb xs)
sort-Ascending xs =
    sort-AllPairs_by (λ g h. g ≤ h) leb (λ x y h. ground (arith, h)) (λ x y h. ground (arith, h))
      (λ x y z h k. omega arith) xs

any_of_Memᴰ : (chosen : ℕ) (xs : List ℕ) → Memᴰ chosen xs → any (λ g. g == chosen) xs ≡ true
any_of_Memᴰ chosen [] m = elim m [ ]
any_of_Memᴰ chosen (x ∷ xs) (Memᴰ.head e) = ground (arith, e)
any_of_Memᴰ chosen (x ∷ xs) (Memᴰ.tail m) = ground (arith, any_of_Memᴰ chosen xs m)

any-sort : (chosen : ℕ) (xs : List ℕ) → Memᴰ chosen (sort leb xs) → any (λ g. g == chosen) xs ≡ true
any-sort chosen xs m = elim (Bool-cases (any (λ g. g == chosen) xs)) [
  | inl e ↦ e
  | inr e ↦
      let differs : (chosen == chosen) ≡ false =
        All-Memᴰ (λ g. (g == chosen) ≡ false) (sort leb xs) chosen
          (All-sort _ leb xs (any-false (λ g. g == chosen) xs e)) m in
      absurd (ground (arith, differs))
]

-- The first that is coarse enough, in an ascending list.
find-least :
    (wanted chosen : ℕ) (xs : List ℕ)
    → Ascending xs
    → find? (λ g. leb wanted g) xs ≡ some chosen
    → Memᴰ chosen xs × (wanted ≤ chosen) × All (λ g. wanted ≤ g → chosen ≤ g) xs
find-least wanted chosen [] h e = absurd (ground (arith, e))
find-least wanted chosen (x ∷ xs) h e = elim (Bool-cases (leb wanted x)) [
  | inl f ↦
      let same : x ≡ chosen = ground (arith, e, f) in
      (
        Memᴰ.head (sym same),
        ground (arith, same, f),
        ((λ k. omega (arith, same)), All-imp _ _ xs (λ g k w. omega (arith, same, k)) h.0),
      )
  | inr f ↦
      let (m, le, rest) = find-least wanted chosen xs h.1 (ground (arith, e, f)) in
      (Memᴰ.tail m, le, ((λ k. absurd (ground (arith, f, k))), rest))
]

last-greatest :
    (x : ℕ) (xs : List ℕ)
    → Ascending (x ∷ xs)
    → (chosen : ℕ) × (last? (x ∷ xs) ≡ some chosen)
      × Memᴰ chosen (x ∷ xs)
      × All (λ g. g ≤ chosen) (x ∷ xs)
last-greatest x [] h = (x, refl, Memᴰ.head refl, (omega arith, tt))
last-greatest x (y ∷ ys) h =
    let (chosen, e, m, all) = last-greatest y ys h.1 in
    let first = h.0.0 in
    let second = all.0 in (chosen, e, Memᴰ.tail m, (omega (arith, first, second), all))

abbrev Choice : ℕ → List ℕ → ℕ → Type 0
Choice wanted xs chosen =
    Memᴰ chosen xs
    × (((wanted ≤ chosen) × All (λ g. wanted ≤ g → chosen ≤ g) xs)
        ⊎ (All (λ g. g < wanted) xs × All (λ g. g ≤ chosen) xs))

choose :
    (wanted : ℕ) (xs : List ℕ)
    → Ascending xs
    → 0 < length xs
    → Choice wanted xs (or_last (find? (λ g. leb wanted g) xs) (last? xs))
choose wanted [] h positive = absurd (omega arith)
choose wanted (x ∷ xs) h positive = elim (Option-cases (find? (λ g. leb wanted g) (x ∷ xs))) [
  | inr (chosen, e) ↦
      let (m, le, least) = find-least wanted chosen (x ∷ xs) h e in
      let same : chosen ≡ or_last (find? (λ g. leb wanted g) (x ∷ xs)) (last? (x ∷ xs)) =
        ground (arith, e) in
      subst (Choice wanted (x ∷ xs)) same (m, inl (le, least))
  | inl e ↦
      let (chosen, l, m, all) = last-greatest x xs h in
      let finer = find?-none (λ g. leb wanted g) (x ∷ xs) e in
      let same : chosen ≡ or_last (find? (λ g. leb wanted g) (x ∷ xs)) (last? (x ∷ xs)) =
        ground (arith, e, l) in
      subst (Choice wanted (x ∷ xs)) same
        (m, inr (All-imp _ _ (x ∷ xs) (λ g k. ground (arith, k)) finer, all))
]

-- The automatic granularity is one of those available, the nearest to the one that suits the duration.
resolve_auto_granularity-IsNearest :
    (from_ms to_ms : ℕ) (available : List ℕ)
    → 0 < length available
    → IsNearest
        (preferred (to_ms - from_ms))
        available
        (resolve_auto_granularity from_ms to_ms available)
unfolding resolve_auto_granularity
resolve_auto_granularity-IsNearest from_ms to_ms available positive =
    let (m, nearest) =
      choose (preferred (to_ms - from_ms)) (sort leb available) (sort-Ascending available)
        (omega (arith, positive, length-sort leb available)) in
    record {
      listed = any-sort _ available m;
      nearest = elim nearest [
        | inl (le, all) ↦ inl (le, sort-All _ leb available all)
        | inr (finer, all) ↦ inr (sort-All _ leb available finer, sort-All _ leb available all)
      ];
    }

ceil_div-le : (a b : ℕ) → 0 < b → a ≤ 2160 * b → ceil_div a b ≤ 2160
ceil_div-le a b positive h =
    let less = (div-lt_iff_lt-mul {k = b} {x = a + (b - 1)} {y = 2161} positive).1 (omega arith) in
    omega (arith, less)

preferred-covers : (d : ℕ) → d ≤ 2160 * 604800000 → d ≤ 2160 * (preferred d * 1000)
unfolding preferred
preferred-covers d h = ground (arith, h)

preferred-le : (d : ℕ) → preferred d ≤ 604800
unfolding preferred
preferred-le d = ground arith

preferred-le-auto :
    (from_ms to_ms : ℕ)
    → preferred (to_ms - from_ms) ≤ resolve_auto_granularity from_ms to_ms default_granularities
preferred-le-auto from_ms to_ms =
    elim (resolve_auto_granularity-IsNearest from_ms to_ms default_granularities
      (omega arith)).nearest [
        | inl (le, _) ↦ le
        | inr ((_, (_, (_, (_, (_, (_, (finer, _))))))), _) ↦
            absurd (omega (arith, finer, preferred-le (to_ms - from_ms)))
      ]

-- The response has at most 20,000 buckets for each series and 250,000 in all.
pub record IsSmall (from_ms to_ms series_count granularity : ℕ) : Type 0 where
  pub each : ceil_div (to_ms - from_ms) (granularity * 1000) ≤ 20000
  pub all : ceil_div (to_ms - from_ms) (granularity * 1000) * max 1 series_count ≤ 250000

covers-IsSmall :
    (from_ms to_ms series_count granularity : ℕ)
    → 0 < granularity
    → series_count ≤ 115
    → to_ms - from_ms ≤ 2160 * (granularity * 1000)
    → IsSmall from_ms to_ms series_count granularity
covers-IsSmall from_ms to_ms series_count granularity positive few h =
    let n = ceil_div-le (to_ms - from_ms) (granularity * 1000) (omega arith) h in
    let product = mul-le-mul_left (max 1 series_count) n in
    let commuted =
      mul_comm (max 1 series_count) (ceil_div (to_ms - from_ms) (granularity * 1000)) in
    record { each = omega (arith, n); all = omega (arith, product, commuted) }

abbrev keeps_limits : ℕ → ℕ → ℕ → ℕ → Bool
keeps_limits requested from_ms to_ms series_count =
    leb (ceil_div (to_ms - from_ms) (max 1 requested * 1000)) 20000
    && leb (ceil_div (to_ms - from_ms) (max 1 requested * 1000) * max 1 series_count) 250000

-- With the limits of 20,000 and 250,000 buckets, up to 115 series and a span of up to 2,160 weeks: the granularity is
-- no finer than the requested one, and the response keeps both limits.
bounded_overview_granularity-IsSmall :
    (requested from_ms to_ms series_count : ℕ)
    → series_count ≤ 115
    → to_ms - from_ms ≤ 2160 * 604800000
    → let granularity =
        bounded_overview_granularity requested from_ms to_ms series_count 20000 250000 in
      (requested ≤ granularity) × IsSmall from_ms to_ms series_count granularity
unfolding bounded_overview_granularity
bounded_overview_granularity-IsSmall requested from_ms to_ms series_count few short =
    elim (Bool-cases (keeps_limits requested from_ms to_ms series_count)) [
      | inl e ↦ rw e (omega arith, record { each = ground (arith, e); all = ground (arith, e) })
      | inr e ↦
          let auto = preferred-le-auto from_ms to_ms in
          let covers = preferred-covers (to_ms - from_ms) short in
          rw e (
            omega arith,
            covers-IsSmall from_ms to_ms series_count
                (max (max 1 requested)
                  (resolve_auto_granularity from_ms to_ms default_granularities))
                (omega arith) few (omega (arith, auto, covers)),
          )
    ]
