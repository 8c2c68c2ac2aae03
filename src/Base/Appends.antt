-- ===== src/Base/Appends.antt =====
-- Lists that grow at their end, and what lengths, maps and filters do to lists.
use mathlib.Core.List.{List, [], ◌∷◌, ◌++◌, map}
use Prim.Native.Nat.{ℕ, zero, suc, ◌+◌}
use mathlib.Core.Path.{◌≡◌, refl, ap}
use mathlib.Core.Bool.{Bool, true}
use native.Mathlib.Omega.{arith}
use cryptotracker.Base.Tests.{if◌then◌else◌}
use cryptotracker.Base.Lists.{All, count, filter, length, number, set}

module _ {ℓ} {A : Type ℓ} where
  pub append_nil : (xs : List A) → xs ++ [] ≡ xs
  append_nil [] = refl
  append_nil (x ∷ xs) = ap (λ t. x ∷ t) (append_nil xs)

  pub append_assoc : (xs ys zs : List A) → (xs ++ ys) ++ zs ≡ xs ++ (ys ++ zs)
  append_assoc [] ys zs = refl
  append_assoc (x ∷ xs) ys zs = ap (λ t. x ∷ t) (append_assoc xs ys zs)

  pub push_append : (xs : List A) (y : A) (ys : List A) → (xs ++ y ∷ []) ++ ys ≡ xs ++ y ∷ ys
  push_append xs y ys = append_assoc xs (y ∷ []) ys

  pub length-push : (xs : List A) (x : A) → length (xs ++ x ∷ []) ≡ suc (length xs)
  length-push [] x = refl
  length-push (y ∷ xs) x = ap suc (length-push xs x)

  pub count-push :
      (test : A → Bool) (xs : List A) (x : A)
      → count test (xs ++ x ∷ []) ≡ count test xs + (if test x then 1 else 0)
  count-push test [] x = ground arith
  count-push test (y ∷ xs) x = ground (arith, count-push test xs x)

  pub filter_of_true :
      (test : A → Bool) (xs : List A) → All (λ x. test x ≡ true) xs → filter test xs ≡ xs
  filter_of_true test [] h = refl
  filter_of_true test (x ∷ xs) h = rw h.0 (ap (λ t. x ∷ t) (filter_of_true test xs h.1))

module _ {ℓ κ} {A : Type ℓ} {B : Type κ} (f : A → B) where
  pub length-map : (xs : List A) → length (map f xs) ≡ length xs
  length-map [] = refl
  length-map (x ∷ xs) = ap suc (length-map xs)

  pub map-push : (xs : List A) (x : A) → map f (xs ++ x ∷ []) ≡ map f xs ++ f x ∷ []
  map-push [] x = refl
  map-push (y ∷ xs) x = ap (λ t. f y ∷ t) (map-push xs x)

module _ {ℓ κ} {A : Type ℓ} (P : A → Type κ) where
  pub All-set : (xs : List A) (i : ℕ) (v : A) → P v → All P xs → All P (set xs i v)
  All-set [] i v p h = tt
  All-set (x ∷ xs) zero v p h = (p, h.1)
  All-set (x ∷ xs) (suc i) v p h = (h.0, All-set xs i v p h.1)

  pub All-number : (i : ℕ) (xs : List A) → All P xs → All (λ c. P c.1) (number i xs)
  All-number i [] h = tt
  All-number i (x ∷ xs) h = (h.0, All-number (suc i) xs h.1)

  pub All-map {μ} :
      {B : Type μ} (f : B → A) (xs : List B) → All P (map f xs) → All (λ x. P (f x)) xs
  All-map f [] h = tt
  All-map f (x ∷ xs) h = (h.0, All-map f xs h.1)
