-- ===== src/Market/Median.antt =====
-- The median of prices (api/src/domain/market.ts).
use mathlib.Core.List.{Perm}
use cryptotracker.Base.{
  ℕ, zero, suc, ◌+◌, ◌-◌, ◌/◌, ◌%◌, ◌<◌, ◌==◌, ◌≡◌, refl, sym, ap, ap₂, ◌∙◌, subst, String, true,
  false, Option, some, List, [], ◌∷◌, ◌++◌, map, arith, length, length-append, length-map,
  get_elem?, All, AllPairs, inl, inr, Bool-cases, some_injective, >>=-eq-some,
}
use cryptotracker.Base.Sorting.{sort, insert, sort-perm, length-sort}
use cryptotracker.Base.Decimals.{Decimals}
use cryptotracker.Market.Prices.{to_decimal, to_decimals, middle_of, median}

module _ (decimals : Decimals) where
  open decimals use {Decimal, parse, show, of_ℕ, plus, divided_by, is_finite, at_most}

  -- The middle of a list, or half the sum of the middle two.
  pub data IsMiddle (sorted : List Decimal) : Decimal → Type 0 where
    of_odd :
        (below above : List Decimal) (m : Decimal)
        → sorted ≡ below ++ m ∷ above
        → length below ≡ length above
        → IsMiddle sorted m
    of_even :
        (below above : List Decimal) (l h : Decimal)
        → sorted ≡ below ++ l ∷ h ∷ above
        → length below ≡ length above
        → IsMiddle sorted (divided_by (plus l h) (of_ℕ 2))

  -- The middle of values in ascending order.
  pub record IsMedian (values : List Decimal) (m : Decimal) : Type 0 where
    pub sorted : List Decimal
    pub same : Perm sorted values
    pub ordered : AllPairs (λ x y. at_most x y ≡ true) sorted
    pub middle : IsMiddle sorted m

  -- decimal.js orders the finite numbers.
  pub record IsOrdered : Type 0 where
    pub total :
        (x y : Decimal)
        → is_finite x ≡ true
        → is_finite y ≡ true
        → at_most x y ≡ false
        → at_most y x ≡ true
    pub trans :
        (x y z : Decimal)
        → is_finite x ≡ true
        → is_finite y ≡ true
        → is_finite z ≡ true
        → at_most x y ≡ true
        → at_most y z ≡ true
        → at_most x z ≡ true

  get_elem-split :
      (xs : List Decimal) (i : ℕ) (a : Decimal)
      → get_elem? xs i ≡ some a
      → (below : List Decimal) × (above : List Decimal) × (xs ≡ below ++ a ∷ above)
        × (length below ≡ i)
  get_elem-split [] i a h = absurd (cc h)
  get_elem-split (x ∷ xs) zero a h = ([], xs, ap (λ y. y ∷ xs) (some_injective h), refl)
  get_elem-split (x ∷ xs) (suc i) a h =
      let (below, above, e, n) = get_elem-split xs i a h in
      (x ∷ below, above, ap (λ ys. x ∷ ys) e, omega (arith, n))

  get_elem-split_two :
      (xs : List Decimal) (i : ℕ) (a b : Decimal)
      → get_elem? xs i ≡ some a
      → get_elem? xs (suc i) ≡ some b
      → (below : List Decimal) × (above : List Decimal) × (xs ≡ below ++ a ∷ b ∷ above)
        × (length below ≡ i)
  get_elem-split_two [] i a b h k = absurd (cc h)
  get_elem-split_two (x ∷ []) i a b h k = absurd (cc k)
  get_elem-split_two (x ∷ y ∷ xs) zero a b h k =
      ([], xs, rw (some_injective h, some_injective k) refl, refl)
  get_elem-split_two (x ∷ y ∷ xs) (suc i) a b h k =
      let (below, above, e, n) = get_elem-split_two (y ∷ xs) i a b h k in
      (x ∷ below, above, ap (λ ys. x ∷ ys) e, omega (arith, n))

  abbrev AreFinite : List Decimal → Type 0
  AreFinite = All (λ x. is_finite x ≡ true)

  abbrev IsSorted : List Decimal → Type 0
  IsSorted = AllPairs (λ x y. at_most x y ≡ true)

  AreFinite-insert :
      (x : Decimal) (xs : List Decimal)
      → is_finite x ≡ true
      → AreFinite xs
      → AreFinite (insert at_most x xs)
  unfolding insert
  AreFinite-insert x [] f h = (f, tt)
  AreFinite-insert x (y ∷ ys) f h = elim (Bool-cases (at_most x y)) [
    | inl e ↦ rw e (f, h)
    | inr e ↦ rw e (h.0, AreFinite-insert x ys f h.1)
  ]

  AreFinite-sort : (xs : List Decimal) → AreFinite xs → AreFinite (sort at_most xs)
  unfolding sort
  AreFinite-sort [] h = tt
  AreFinite-sort (x ∷ xs) h = AreFinite-insert x (sort at_most xs) h.0 (AreFinite-sort xs h.1)

  at_most-insert :
      (z x : Decimal) (xs : List Decimal)
      → at_most z x ≡ true
      → All (λ y. at_most z y ≡ true) xs
      → All (λ y. at_most z y ≡ true) (insert at_most x xs)
  unfolding insert
  at_most-insert z x [] p h = (p, tt)
  at_most-insert z x (y ∷ ys) p h = elim (Bool-cases (at_most x y)) [
    | inl e ↦ rw e (p, h)
    | inr e ↦ rw e (h.0, at_most-insert z x ys p h.1)
  ]

  module _ (order : IsOrdered) where
    at_most_all :
        (x y : Decimal) (ys : List Decimal)
        → is_finite x ≡ true
        → is_finite y ≡ true
        → AreFinite ys
        → at_most x y ≡ true
        → All (λ z. at_most y z ≡ true) ys
        → All (λ z. at_most x z ≡ true) ys
    at_most_all x y [] fx fy f le h = tt
    at_most_all x y (z ∷ zs) fx fy f le h =
        (order.trans x y z fx fy f.0 le h.0, at_most_all x y zs fx fy f.1 le h.1)

    insert-IsSorted :
        (x : Decimal) (xs : List Decimal)
        → is_finite x ≡ true
        → AreFinite xs
        → IsSorted xs
        → IsSorted (insert at_most x xs)
    unfolding insert
    insert-IsSorted x [] fx f s = (tt, tt)
    insert-IsSorted x (y ∷ ys) fx f s = elim (Bool-cases (at_most x y)) [
      | inl e ↦ rw e ((e, at_most_all x y ys fx f.0 f.1 e s.0), s)
      | inr e ↦
          rw e
            (at_most-insert y x ys (order.total x y fx f.0 e) s.0, insert-IsSorted x ys fx f.1 s.1)
    ]

    sort-IsSorted : (xs : List Decimal) → AreFinite xs → IsSorted (sort at_most xs)
    unfolding sort
    sort-IsSorted [] f = tt
    sort-IsSorted (x ∷ xs) f =
        insert-IsSorted x (sort at_most xs) f.0 (AreFinite-sort xs f.1) (sort-IsSorted xs f.1)

  middle_of-IsMiddle :
      (sorted : List Decimal) (m : Decimal)
      → 0 < length sorted
      → middle_of decimals sorted ≡ some m
      → IsMiddle sorted m
  unfolding middle_of
  middle_of-IsMiddle sorted m positive h = elim (Bool-cases (length sorted % 2 == 1)) [
    | inl odd ↦
        let (below, above, e, n) =
          get_elem-split sorted (length sorted / 2) m (rw (odd, middle_of) at h) in
        let size : length sorted ≡ length below + suc (length above) =
          ap length e ∙ length-append below (m ∷ above) in
        IsMiddle.of_odd below above m e (ground (arith, odd, size, n))
    | inr even ↦
        let (l, find_l, rest) =
          >>=-eq-some (get_elem? sorted (length sorted / 2 - 1)) _ (rw (even, middle_of) at h) in
        let (u, find_u, last) = >>=-eq-some (get_elem? sorted (length sorted / 2)) _ rest in
        let next : length sorted / 2 ≡ suc (length sorted / 2 - 1) =
          ground (arith, even, positive) in
        let (below, above, e, n) =
          get_elem-split_two sorted (length sorted / 2 - 1) l u find_l
            (subst (λ i. get_elem? sorted i ≡ some u) next find_u) in
        let size : length sorted ≡ length below + suc (suc (length above)) =
          ap length e ∙ length-append below (l ∷ u ∷ above) in
        subst (IsMiddle sorted) (some_injective last)
          (IsMiddle.of_even below above l u e (ground (arith, even, size, n)))
  ]

  to_decimals-parse :
      (texts : List String) (values : List Decimal)
      → to_decimals decimals texts ≡ some values
      → (map parse texts ≡ map some values) × AreFinite values
  unfolding to_decimals to_decimal
  to_decimals-parse [] values h =
      subst (λ vs. ([] ≡ map some vs) × AreFinite vs) (some_injective h) (refl, tt)
  to_decimals-parse (text ∷ texts) values h =
      let (value, read, h₁) = >>=-eq-some (to_decimal decimals text) _ h in
      let (others, read_others, h₂) = >>=-eq-some (to_decimals decimals texts) _ h₁ in
      let (parsed, is_parsed, h₃) = >>=-eq-some (parse text) _ read in
      let (same, finite) = to_decimals-parse texts others read_others in
      elim (Bool-cases (is_finite parsed)) [
        | inr not_so ↦ absurd (cc (rw not_so at h₃))
        | inl is_so ↦
            let own : parsed ≡ value = some_injective (rw is_so at h₃) in
            subst (λ vs. (map parse (text ∷ texts) ≡ map some vs) × AreFinite vs)
              (some_injective h₂)
              (
                ap₂ (λ x xs. x ∷ xs) (is_parsed ∙ ap some own) same,
                (subst (λ v. is_finite v ≡ true) own is_so, finite),
              )
      ]

  -- The median of texts of numbers, which is the text of the median of the numbers that they are.
  pub median-IsMedian :
      IsOrdered
      → (texts : List String) (result : Option String) → 0 < length texts
      → median decimals texts ≡ some result
      → (values : List Decimal) × (m : Decimal) × (map parse texts ≡ map some values)
        × (result ≡ some (show m))
        × IsMedian values m
  unfolding median
  median-IsMedian order [] result positive h = absurd (omega (arith, positive))
  median-IsMedian order (text ∷ texts) result positive h =
      let (values, read, h₁) = >>=-eq-some (to_decimals decimals (text ∷ texts)) _ h in
      let (m, found, h₂) = >>=-eq-some (middle_of decimals (sort at_most values)) _ h₁ in
      let (same, finite) = to_decimals-parse (text ∷ texts) values read in
      let size : suc (length texts) ≡ length values =
        sym (length-map parse (text ∷ texts)) ∙ ap length same ∙ length-map some values in
      (
        values,
        m,
        same,
        sym (some_injective h₂),
        record {
          sorted = sort at_most values;
          same = sort-perm at_most values;
          ordered = sort-IsSorted order values finite;
          middle =
              middle_of-IsMiddle (sort at_most values) m
                (omega (arith, size, length-sort at_most values)) found;
        },
      )
