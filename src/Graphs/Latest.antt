-- ===== src/Graphs/Latest.antt =====
-- Which sample of a bucket is the last (api/src/domain/graphs.ts).
use mathlib.Core.List.{Memᴰ}
use mathlib.Core.List.{nil≢cons}
use cryptotracker.Base.{
  ◌≤◌, ◌≡◌, ◌⊎◌, refl, sym, ap, Bool, List, [], ◌∷◌, arith, All, All-Memᴰ, AllPairs, Option, none,
  String, length, leb, inl, inr, Bool-cases,
}
use cryptotracker.Base.Sorting.{sort, insert, length-sort, sort-All, sort-AllPairs_by}
use cryptotracker.Graphs.Buckets.{SeriesPoint, last_value}

-- The value of a sample that none of some samples is later than; none where there is no sample.
pub data IsLatest (samples : List SeriesPoint) (value : Option String) : Type 0 where
  of_none : samples ≡ [] → value ≡ none → IsLatest samples value
  of_some :
      (q : SeriesPoint)
      → Memᴰ q samples
      → value ≡ q.value
      → All (λ (r : SeriesPoint). r.timestamp_ms ≤ q.timestamp_ms) samples
      → IsLatest samples value

abbrev Sooner : SeriesPoint → SeriesPoint → Type 0
Sooner l r = l.timestamp_ms ≤ r.timestamp_ms

last_value-IsLatest :
    (samples : List SeriesPoint) → AllPairs Sooner samples → IsLatest samples (last_value samples)
last_value-IsLatest [] h = IsLatest.of_none refl refl
last_value-IsLatest (p ∷ []) h = IsLatest.of_some p (Memᴰ.head refl) refl (omega arith, tt)
last_value-IsLatest (p ∷ q ∷ ps) h = elim (last_value-IsLatest (q ∷ ps) h.1) [
  | of_none e _ ↦ absurd (nil≢cons (sym e))
  | of_some r m e l ↦ IsLatest.of_some r (Memᴰ.tail m) e (All-Memᴰ (Sooner p) (q ∷ ps) r h.0 m, l)
]

Memᴰ-cons {ℓ} : {A : Type ℓ} (a x : A) (xs : List A) → Memᴰ a (x ∷ xs) → (a ≡ x) ⊎ Memᴰ a xs
Memᴰ-cons a x xs (Memᴰ.head e) = inl e
Memᴰ-cons a x xs (Memᴰ.tail m) = inr m

insert-Memᴰ {ℓ} :
    {A : Type ℓ} (le : A → A → Bool) (a x : A) (xs : List A)
    → Memᴰ a (insert le x xs)
    → Memᴰ a (x ∷ xs)
unfolding insert
insert-Memᴰ le a x [] m = m
insert-Memᴰ le a x (y ∷ ys) m = elim (Bool-cases (le x y)) [
  | inl e ↦ rw (e, insert) at m
  | inr e ↦ elim (Memᴰ-cons a y (insert le x ys) (rw (e, insert) at m)) [
    | inl same ↦ Memᴰ.tail (Memᴰ.head same)
    | inr n ↦ elim (Memᴰ-cons a x ys (insert-Memᴰ le a x ys n)) [
      | inl same ↦ Memᴰ.head same
      | inr k ↦ Memᴰ.tail (Memᴰ.tail k)
    ]
  ]
]

sort-Memᴰ {ℓ} :
    {A : Type ℓ} (le : A → A → Bool) (a : A) (xs : List A) → Memᴰ a (sort le xs) → Memᴰ a xs
unfolding sort
sort-Memᴰ le a [] m = m
sort-Memᴰ le a (x ∷ xs) m = elim (Memᴰ-cons a x (sort le xs) (insert-Memᴰ le a x (sort le xs) m)) [
  | inl same ↦ Memᴰ.head same
  | inr k ↦ Memᴰ.tail (sort-Memᴰ le a xs k)
]

-- The last of the samples in the order of their times, as `line_point` takes it.
pub last_value-sorted :
    (samples : List SeriesPoint)
    → IsLatest samples
        (last_value (sort (λ (l r : SeriesPoint). leb l.timestamp_ms r.timestamp_ms) samples))
last_value-sorted samples =
    let le : SeriesPoint → SeriesPoint → Bool = λ l r. leb l.timestamp_ms r.timestamp_ms in
    let ordered : AllPairs Sooner (sort le samples) =
      sort-AllPairs_by Sooner le (λ x y h. ground (arith, h)) (λ x y h. ground (arith, h))
        (λ x y z h k. omega (arith, h, k)) samples in
    elim (last_value-IsLatest (sort le samples) ordered) [
      | of_none e v ↦ IsLatest.of_none (sorted-nil le samples e) v
      | of_some q m v l ↦
          IsLatest.of_some q (sort-Memᴰ le q samples m) v
            (sort-All (λ (r : SeriesPoint). r.timestamp_ms ≤ q.timestamp_ms) le samples l)
    ]
  where
    sorted-nil :
        (le : SeriesPoint → SeriesPoint → Bool) (xs : List SeriesPoint) → sort le xs ≡ [] → xs ≡ []
    sorted-nil le [] e = refl
    sorted-nil le (x ∷ xs) e = absurd (omega (arith, length-sort le (x ∷ xs), ap length e))
