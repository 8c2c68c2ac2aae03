-- ===== src/Base/Sorting.antt =====
-- `Array.prototype.sort`: stable, by a comparator given as the test "not after".
use mathlib.Core.List.Perm
use mathlib.Core.List.{Perm}
use cryptotracker.Base.{
  ◌≡◌, refl, Bool, true, false, List, [], ◌∷◌, if◌then◌else◌, arith, All, AllPairs, Bool-cases, inl,
  inr, length, suc,
}

module _ {ℓ} {A : Type ℓ} where
  -- `x` goes before the first element that it is not after, so equal elements keep their order.
  unfoldable pub insert : (A → A → Bool) → A → List A → List A
  insert le x [] = x ∷ []
  insert le x (y ∷ ys) = if le x y then x ∷ y ∷ ys else y ∷ insert le x ys

  unfoldable pub sort : (A → A → Bool) → List A → List A
  unfolding insert
  sort le [] = []
  sort le (x ∷ xs) = insert le x (sort le xs)

  length-insert :
      (le : A → A → Bool) (x : A) (xs : List A) → length (insert le x xs) ≡ suc (length xs)
  unfolding insert
  length-insert le x [] = refl
  length-insert le x (y ∷ ys) = ground (arith, length-insert le x ys)

  pub length-sort : (le : A → A → Bool) (xs : List A) → length (sort le xs) ≡ length xs
  unfolding sort
  length-sort le [] = refl
  length-sort le (x ∷ xs) = ground (arith, length-insert le x (sort le xs), length-sort le xs)

  insert-perm : (le : A → A → Bool) (x : A) (xs : List A) → Perm (insert le x xs) (x ∷ xs)
  unfolding insert
  insert-perm le x [] = Perm.refl _
  insert-perm le x (y ∷ ys) = elim (Bool-cases (le x y)) [
    | inl e ↦ rw e (Perm.refl _)
    | inr e ↦ rw e (Perm.trans (Perm.cons y (insert-perm le x ys)) (Perm.swap _ _ _))
  ]

  pub sort-perm : (le : A → A → Bool) (xs : List A) → Perm (sort le xs) xs
  unfolding sort
  sort-perm le [] = Perm.refl _
  sort-perm le (x ∷ xs) = Perm.trans (insert-perm le x (sort le xs)) (Perm.cons x (sort-perm le xs))

module _ {ℓ κ} {A : Type ℓ} (P : A → Type κ) (le : A → A → Bool) where
  All-insert : (x : A) (xs : List A) → P x → All P xs → All P (insert le x xs)
  unfolding insert
  All-insert x [] p h = (p, tt)
  All-insert x (y ∷ ys) p h = elim (Bool-cases (le x y)) [
    | inl e ↦ rw e (p, h)
    | inr e ↦ rw e (h.0, All-insert x ys p h.1)
  ]

  pub All-sort : (xs : List A) → All P xs → All P (sort le xs)
  unfolding sort
  All-sort [] h = tt
  All-sort (x ∷ xs) h = All-insert x (sort le xs) h.0 (All-sort xs h.1)

-- The other way: what holds of all of the result holds of all of the list.
module _ {ℓ κ} {A : Type ℓ} (P : A → Type κ) (le : A → A → Bool) where
  insert-All : (x : A) (xs : List A) → All P (insert le x xs) → P x × All P xs
  unfolding insert
  insert-All x [] h = h
  insert-All x (y ∷ ys) h = elim (Bool-cases (le x y)) [
    | inl e ↦ rw (e, insert) at h
    | inr e ↦
        let h' : P y × All P (insert le x ys) = rw (e, insert) at h in
        let (p, q) = insert-All x ys h'.1 in (p, (h'.0, q))
  ]

  pub sort-All : (xs : List A) → All P (sort le xs) → All P xs
  unfolding sort
  sort-All [] h = tt
  sort-All (x ∷ xs) h = let (p, q) = insert-All x (sort le xs) h in (p, sort-All xs q)

module _ {ℓ κ} {A : Type ℓ} (R : A → A → Type κ) (symmetric : (x y : A) → R x y → R y x)
    (le : A → A → Bool) where
  AllPairs-insert :
      (x : A) (xs : List A) → All (R x) xs → AllPairs R xs → AllPairs R (insert le x xs)
  unfolding insert
  AllPairs-insert x [] a h = (tt, tt)
  AllPairs-insert x (y ∷ ys) a h = elim (Bool-cases (le x y)) [
    | inl e ↦ rw e (a, h)
    | inr e ↦ rw e (All-insert (R y) le x ys (symmetric x y a.0) h.0, AllPairs-insert x ys a.1 h.1)
  ]

  pub AllPairs-sort : (xs : List A) → AllPairs R xs → AllPairs R (sort le xs)
  unfolding sort
  AllPairs-sort [] h = tt
  AllPairs-sort (x ∷ xs) h =
      AllPairs-insert x (sort le xs) (All-sort (R x) le xs h.0) (AllPairs-sort xs h.1)

-- With a total and transitive test the result is in order.
module _ {ℓ} {A : Type ℓ} (le : A → A → Bool) (total : (x y : A) → le x y ≡ false → le y x ≡ true)
    (trans : (x y z : A) → le x y ≡ true → le y z ≡ true → le x z ≡ true) where
  abbrev IsSortedBy : List A → Type 0
  IsSortedBy = AllPairs (λ x y. le x y ≡ true)

  below_all :
      (x y : A) (xs : List A)
      → le x y ≡ true
      → All (λ z. le y z ≡ true) xs
      → All (λ z. le x z ≡ true) xs
  below_all x y [] p h = tt
  below_all x y (z ∷ zs) p h = (trans x y z p h.0, below_all x y zs p h.1)

  insert-IsSortedBy : (x : A) (xs : List A) → IsSortedBy xs → IsSortedBy (insert le x xs)
  unfolding insert
  insert-IsSortedBy x [] h = (tt, tt)
  insert-IsSortedBy x (y ∷ ys) h = elim (Bool-cases (le x y)) [
    | inl e ↦ rw e ((e, below_all x y ys e h.0), h)
    | inr e ↦
        rw e (All-insert (λ z. le y z ≡ true) le x ys (total x y e) h.0, insert-IsSortedBy x ys h.1)
  ]

  pub sort-IsSorted : (xs : List A) → AllPairs (λ x y. le x y ≡ true) (sort le xs)
  unfolding sort
  sort-IsSorted [] = tt
  sort-IsSorted (x ∷ xs) = insert-IsSortedBy x (sort le xs) (sort-IsSorted xs)

-- So it is by a transitive relation that the test decides: equal elements may differ elsewhere.
module _ {ℓ κ} {A : Type ℓ} (R : A → A → Type κ) (le : A → A → Bool)
    (yes : (x y : A) → le x y ≡ true → R x y) (no : (x y : A) → le x y ≡ false → R y x)
    (trans : (x y z : A) → R x y → R y z → R x z) where
  related_all : (x y : A) (xs : List A) → R x y → All (R y) xs → All (R x) xs
  related_all x y [] p h = tt
  related_all x y (z ∷ zs) p h = (trans x y z p h.0, related_all x y zs p h.1)

  insert-AllPairs_by : (x : A) (xs : List A) → AllPairs R xs → AllPairs R (insert le x xs)
  unfolding insert
  insert-AllPairs_by x [] h = (tt, tt)
  insert-AllPairs_by x (y ∷ ys) h = elim (Bool-cases (le x y)) [
    | inl e ↦ rw e ((yes x y e, related_all x y ys (yes x y e) h.0), h)
    | inr e ↦ rw e (All-insert (R y) le x ys (no x y e) h.0, insert-AllPairs_by x ys h.1)
  ]

  pub sort-AllPairs_by : (xs : List A) → AllPairs R (sort le xs)
  unfolding sort
  sort-AllPairs_by [] = tt
  sort-AllPairs_by (x ∷ xs) = insert-AllPairs_by x (sort le xs) (sort-AllPairs_by xs)
