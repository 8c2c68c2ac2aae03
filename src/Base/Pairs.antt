-- ===== src/Base/Pairs.antt =====
-- Predicates on all pairs of a list, and how maps and filters keep predicates.
use mathlib.Core.List.{List, [], ◌∷◌, ◌++◌, map}
use Prim.Native.Nat.{ℕ, suc}
use mathlib.Core.Bool.{Bool}
use mathlib.Core.Logic.{◌≢◌, inl, inr}
use native.Mathlib.Omega.{arith}
use cryptotracker.Base.Tests.{Bool-cases}
use cryptotracker.Base.Lists.{All, All-append, All-filter, filter, number, number_above}

module _ {ℓ κ} {A : Type ℓ} where
  abbrev pub AllPairs : (A → A → Type κ) → List A → Type κ
  AllPairs R [] = Unit
  AllPairs R (x ∷ xs) = All (R x) xs × AllPairs R xs

  pub All-map_of :
      (P Q : A → Type κ) (f : A → A)
      → ((x : A) → P x → Q (f x))
      → (xs : List A) → All P xs
      → All Q (map f xs)
  All-map_of P Q f keep [] h = tt
  All-map_of P Q f keep (x ∷ xs) h = (keep x h.0, All-map_of P Q f keep xs h.1)

  pub AllPairs-map :
      (R : A → A → Type κ) (f : A → A)
      → ((x y : A) → R x y → R (f x) (f y))
      → (xs : List A) → AllPairs R xs
      → AllPairs R (map f xs)
  AllPairs-map R f keep [] h = tt
  AllPairs-map R f keep (x ∷ xs) h =
      (All-map_of (R x) (R (f x)) f (keep x) xs h.0, AllPairs-map R f keep xs h.1)

  -- A new last element that fits every element before it.
  pub AllPairs-push :
      (R : A → A → Type κ) (xs : List A) (y : A)
      → All (λ x. R x y) xs
      → AllPairs R xs
      → AllPairs R (xs ++ y ∷ [])
  AllPairs-push R [] y fits h = (tt, tt)
  AllPairs-push R (x ∷ xs) y fits h =
      (All-append (R x) xs (y ∷ []) h.0 (fits.0, tt), AllPairs-push R xs y fits.1 h.1)

  pub AllPairs-filter :
      (R : A → A → Type κ) (test : A → Bool) (xs : List A)
      → AllPairs R xs
      → AllPairs R (filter test xs)
  AllPairs-filter R test [] h = tt
  AllPairs-filter R test (x ∷ xs) h = elim (Bool-cases (test x)) [
    | inl e ↦ rw e (All-filter (R x) test xs h.0, AllPairs-filter R test xs h.1)
    | inr e ↦ rw e (AllPairs-filter R test xs h.1)
  ]

-- The positions of a numbered list differ.
module _ {ℓ} {A : Type ℓ} where
  abbrev pub Elsewhere : ℕ × A → ℕ × A → Type 0
  Elsewhere c d = c.0 ≢ d.0

  pub number-AllPairs : (xs : List A) (i : ℕ) → AllPairs Elsewhere (number i xs)
  number-AllPairs [] i = tt
  number-AllPairs (x ∷ xs) i = (number_above xs i (suc i) (omega arith), number-AllPairs xs (suc i))
