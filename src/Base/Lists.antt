-- ===== src/Base/Lists.antt =====
-- Lists measured by native numbers and filtered by Boolean tests, with the predicate `All`.
use Prim.Native.Nat.{ℕ, zero, suc, ◌+◌, ◌≤◌, ◌<◌}
use mathlib.Core.Path.{◌≡◌, refl, sym, subst, ap}
use mathlib.Core.Bool.{Bool, true, false, ◌&&◌, ◌||◌}
use mathlib.Core.Logic.{inl, inr, ◌≢◌}
use mathlib.Core.List.Memᴰ
use mathlib.Core.List.{List, [], ◌∷◌, ◌++◌, Memᴰ, nil≢cons}
use mathlib.Core.Option.{Option, none, some}
use native.Mathlib.Omega.{arith}
use cryptotracker.Base.Tests.{if◌then◌else◌, Bool-cases}

module _ {ℓ} {A : Type ℓ} where
  abbrev pub length : List A → ℕ
  length [] = 0
  length (x ∷ xs) = suc (length xs)

  pub length-append : (xs ys : List A) → length (xs ++ ys) ≡ length xs + length ys
  length-append [] ys = omega arith
  length-append (x ∷ xs) ys = omega (arith, length-append xs ys)

  abbrev pub take : ℕ → List A → List A
  take zero xs = []
  take (suc n) [] = []
  take (suc n) (x ∷ xs) = x ∷ take n xs

  abbrev pub drop : ℕ → List A → List A
  drop zero xs = xs
  drop (suc n) [] = []
  drop (suc n) (x ∷ xs) = drop n xs

  -- `xs.filter(test)`
  abbrev pub filter : (A → Bool) → List A → List A
  filter test [] = []
  filter test (x ∷ xs) = if test x then x ∷ filter test xs else filter test xs

  -- `xs.find(test)`
  abbrev pub find? : (A → Bool) → List A → Option A
  find? test [] = none
  find? test (x ∷ xs) = if test x then some x else find? test xs

  -- `xs.some(test)` and `xs.every(test)`
  abbrev pub any : (A → Bool) → List A → Bool
  any test [] = false
  any test (x ∷ xs) = test x || any test xs

  abbrev pub all : (A → Bool) → List A → Bool
  all test [] = true
  all test (x ∷ xs) = test x && all test xs

  -- The number of elements that pass a test.
  abbrev pub count : (A → Bool) → List A → ℕ
  count test [] = 0
  count test (x ∷ xs) = if test x then suc (count test xs) else count test xs

  pub count-append :
      (test : A → Bool) (xs ys : List A) → count test (xs ++ ys) ≡ count test xs + count test ys
  count-append test [] ys = omega arith
  count-append test (x ∷ xs) ys = ground (arith, count-append test xs ys)

  pub count-le-length : (test : A → Bool) (xs : List A) → count test xs ≤ length xs
  count-le-length test [] = omega arith
  count-le-length test (x ∷ xs) = ground (arith, count-le-length test xs)

  pub length-filter : (test : A → Bool) (xs : List A) → length (filter test xs) ≡ count test xs
  length-filter test [] = refl
  length-filter test (x ∷ xs) = ground (arith, length-filter test xs)

  pub find?-Memᴰ :
      (test : A → Bool) (xs : List A) (a : A) → find? test xs ≡ some a → Memᴰ a xs × (test a ≡ true)
  find?-Memᴰ test [] a h = absurd (grind arith)
  find?-Memᴰ test (x ∷ xs) a h = elim (Bool-cases (test x)) [
    | inl e ↦ let same : x ≡ a = ground arith in (Memᴰ.head (sym same), ground arith)
    | inr e ↦ let r = find?-Memᴰ test xs a (ground arith) in (Memᴰ.tail r.0, r.1)
  ]

module _ {ℓ κ} {A : Type ℓ} where
  abbrev pub All : (A → Type κ) → List A → Type κ
  All P [] = Unit
  All P (x ∷ xs) = P x × All P xs

  pub All-append : (P : A → Type κ) (xs ys : List A) → All P xs → All P ys → All P (xs ++ ys)
  All-append P [] ys hx hy = hy
  All-append P (x ∷ xs) ys hx hy = (hx.0, All-append P xs ys hx.1 hy)

  pub All-of_forall : (P : A → Type κ) (xs : List A) → ((x : A) → P x) → All P xs
  All-of_forall P [] h = tt
  All-of_forall P (x ∷ xs) h = (h x, All-of_forall P xs h)

  pub All-imp : (P Q : A → Type κ) (xs : List A) → ((x : A) → P x → Q x) → All P xs → All Q xs
  All-imp P Q [] h a = tt
  All-imp P Q (x ∷ xs) h a = (h x a.0, All-imp P Q xs h a.1)

  pub All-imp₂ :
      (P Q R : A → Type κ) (xs : List A)
      → ((x : A) → P x → Q x → R x)
      → All P xs
      → All Q xs
      → All R xs
  All-imp₂ P Q R [] h a b = tt
  All-imp₂ P Q R (x ∷ xs) h a b = (h x a.0 b.0, All-imp₂ P Q R xs h a.1 b.1)

  pub All-Memᴰ : (P : A → Type κ) (xs : List A) (a : A) → All P xs → Memᴰ a xs → P a
  All-Memᴰ P [] a h m = elim m [ ]
  All-Memᴰ P (x ∷ xs) a h (Memᴰ.head e) = subst P (sym e) h.0
  All-Memᴰ P (x ∷ xs) a h (Memᴰ.tail m) = All-Memᴰ P xs a h.1 m

-- What an empty filter, a failed search and a false `any` say of every element.
module _ {ℓ} {A : Type ℓ} (test : A → Bool) where
  pub filter-nil : (xs : List A) → filter test xs ≡ [] → All (λ x. test x ≡ false) xs
  filter-nil [] h = tt
  filter-nil (x ∷ xs) h = elim (Bool-cases (test x)) [
    | inl e ↦ absurd (nil≢cons (sym (rw e at h)))
    | inr e ↦ (e, filter-nil xs (rw e at h))
  ]

  pub filter_of_false : (xs : List A) → All (λ x. test x ≡ false) xs → filter test xs ≡ []
  filter_of_false [] h = refl
  filter_of_false (x ∷ xs) h = rw h.0 (filter_of_false xs h.1)

  pub any-false : (xs : List A) → any test xs ≡ false → All (λ x. test x ≡ false) xs
  any-false [] h = tt
  any-false (x ∷ xs) h = (ground arith, any-false xs (ground arith))

  pub any_of_false : (xs : List A) → All (λ x. test x ≡ false) xs → any test xs ≡ false
  any_of_false [] h = refl
  any_of_false (x ∷ xs) h = rw h.0 (any_of_false xs h.1)

  pub find?-none : (xs : List A) → find? test xs ≡ none → All (λ x. test x ≡ false) xs
  find?-none [] h = tt
  find?-none (x ∷ xs) h = (ground arith, find?-none xs (ground arith))

  pub find?_of_false :
      (xs ys : List A) → All (λ x. test x ≡ false) xs → find? test (xs ++ ys) ≡ find? test ys
  find?_of_false [] ys h = refl
  find?_of_false (x ∷ xs) ys h = rw h.0 (find?_of_false xs ys h.1)

  pub find?-append_some :
      (xs ys : List A) (a : A) → find? test xs ≡ some a → find? test (xs ++ ys) ≡ some a
  find?-append_some [] ys a h = absurd (grind arith)
  find?-append_some (x ∷ xs) ys a h = ground (arith, find?-append_some xs ys a)

  pub filter-append : (xs ys : List A) → filter test (xs ++ ys) ≡ filter test xs ++ filter test ys
  filter-append [] ys = refl
  filter-append (x ∷ xs) ys = ground (arith, filter-append xs ys)

  pub filter-All : (xs : List A) → All (λ x. test x ≡ true) (filter test xs)
  filter-All [] = tt
  filter-All (x ∷ xs) = elim (Bool-cases (test x)) [
    | inl e ↦ rw e (e, filter-All xs)
    | inr e ↦ rw e (filter-All xs)
  ]

  pub Memᴰ-filter : (xs : List A) (a : A) → Memᴰ a (filter test xs) → Memᴰ a xs
  Memᴰ-filter [] a m = elim m [ ]
  Memᴰ-filter (x ∷ xs) a m = elim (Bool-cases (test x)) [
    | inl e ↦ elim (Memᴰ.cases_cons (rw e at m)) [
      | inl same ↦ Memᴰ.head same
      | inr later ↦ Memᴰ.tail (Memᴰ-filter xs a later)
    ]
    | inr e ↦ Memᴰ.tail (Memᴰ-filter xs a (rw e at m))
  ]

-- Positions of a list, in which a program refers to shared objects.
module _ {ℓ} {A : Type ℓ} where
  abbrev pub get_elem? : List A → ℕ → Option A
  get_elem? [] i = none
  get_elem? (x ∷ xs) zero = some x
  get_elem? (x ∷ xs) (suc i) = get_elem? xs i

  -- A write out of bounds changes nothing.
  abbrev pub set : List A → ℕ → A → List A
  set [] i v = []
  set (x ∷ xs) zero v = v ∷ xs
  set (x ∷ xs) (suc i) v = x ∷ set xs i v

  -- Each element with its position, counted from `i`.
  abbrev pub number : ℕ → List A → List (ℕ × A)
  number i [] = []
  number i (x ∷ xs) = (i, x) ∷ number (suc i) xs

  pub get_elem?-set_self :
      (xs : List A) (i : ℕ) (u v : A) → get_elem? xs i ≡ some u → get_elem? (set xs i v) i ≡ some v
  get_elem?-set_self [] i u v h = absurd (grind arith)
  get_elem?-set_self (x ∷ xs) zero u v h = refl
  get_elem?-set_self (x ∷ xs) (suc i) u v h = get_elem?-set_self xs i u v h

  pub get_elem?-set_ne :
      (xs : List A) (i j : ℕ) (v : A) → i ≢ j → get_elem? (set xs i v) j ≡ get_elem? xs j
  get_elem?-set_ne [] i j v h = refl
  get_elem?-set_ne (x ∷ xs) zero zero v h = absurd (h refl)
  get_elem?-set_ne (x ∷ xs) zero (suc j) v h = refl
  get_elem?-set_ne (x ∷ xs) (suc i) zero v h = refl
  get_elem?-set_ne (x ∷ xs) (suc i) (suc j) v h = get_elem?-set_ne xs i j v (λ e. h (ap suc e))

  number-get_elem? :
      (xs : List A) (i : ℕ) (all : ℕ → Option A)
      → ((k : ℕ) → all (i + k) ≡ get_elem? xs k)
      → All (λ c. all c.0 ≡ some c.1) (number i xs)
  number-get_elem? [] i all h = tt
  number-get_elem? (x ∷ xs) i all h = (
    subst (λ k. all k ≡ some x) (omega arith) (h 0),
    number-get_elem? xs (suc i) all
        (λ k. subst (λ n. all n ≡ get_elem? xs k) (omega arith) (h (suc k))),
  )

  -- Every numbered element stands at its number.
  pub number-All : (xs : List A) → All (λ c. get_elem? xs c.0 ≡ some c.1) (number 0 xs)
  number-All xs = number-get_elem? xs 0 (get_elem? xs) (λ k. ap (get_elem? xs) (omega arith))

  pub number_above : (xs : List A) (i j : ℕ) → i < j → All (λ c. i ≢ c.0) (number j xs)
  number_above [] i j h = tt
  number_above (x ∷ xs) i j h = (omega arith, number_above xs i (suc j) (omega arith))

module _ {ℓ κ} {A : Type ℓ} (P : A → Type κ) (test : A → Bool) where
  pub All-filter : (xs : List A) → All P xs → All P (filter test xs)
  All-filter [] h = tt
  All-filter (x ∷ xs) h = elim (Bool-cases (test x)) [
    | inl e ↦ rw e (h.0, All-filter xs h.1)
    | inr e ↦ rw e (All-filter xs h.1)
  ]

abbrev pub sum : List ℕ → ℕ
sum [] = 0
sum (x ∷ xs) = x + sum xs
