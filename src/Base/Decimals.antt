-- ===== src/Base/Decimals.antt =====
-- What the program uses of decimal.js, as an interface, and the documented behaviour of its exact
-- range. decimal.js rounds each result to 20 significant digits, so nothing is assumed of a result
-- outside that range, nor of quotients.
use cryptotracker.Base.{
  [], ◌∷◌, ℕ, ◌+◌, ◌-◌, ◌≤◌, min, max, String, ◌≡◌, Bool, Option, List, ltb, ◌==◌,
}

pub record Decimals : Type 1 where
  pub Decimal : Type 0
  pub parse : String → Option Decimal  -- `new Decimal(text)`, none where it throws
  pub show : Decimal → String  -- `toString`
  pub rounded_to : ℕ → Decimal → Decimal  -- `toDecimalPlaces`
  pub of_ℕ : ℕ → Decimal
  pub plus : Decimal → Decimal → Decimal
  pub minus : Decimal → Decimal → Decimal
  pub times : Decimal → Decimal → Decimal
  pub divided_by : Decimal → Decimal → Decimal
  pub abs : Decimal → Decimal
  pub is_zero : Decimal → Bool
  pub is_finite : Decimal → Bool
  pub equals : Decimal → Decimal → Bool
  pub greater_than : Decimal → Decimal → Bool
  pub at_least : Decimal → Decimal → Bool  -- `greaterThanOrEqualTo`
  pub at_most : Decimal → Decimal → Bool  -- `lessThanOrEqualTo`
  pub lesser : Decimal → Decimal → Decimal  -- `Decimal.min` of two
  pub greater : Decimal → Decimal → Decimal  -- `Decimal.max` of two
  pub total : List Decimal → Decimal  -- `Decimal.sum`, of none 0

module _ (decimals : Decimals) where
  open decimals use {Decimal, of_ℕ, plus, minus, is_zero, greater_than, lesser, greater}

  -- `Decimal.min(...values)` and `Decimal.max(...values)`, of a first value and the others.
  abbrev pub least : Decimal → List Decimal → Decimal
  least value [] = value
  least value (other ∷ others) = least (lesser value other) others

  abbrev pub greatest : Decimal → List Decimal → Decimal
  greatest value [] = value
  greatest value (other ∷ others) = greatest (greater value other) others

  -- The quantities on a decimal grid: the non-negative multiples of one step below a bound that fits the
  -- precision, where sums, differences and comparisons are exact. `units` counts the steps.
  pub record Exact : Type 1 where
    pub IsQuantity : Decimal → Type 0
    pub units : Decimal → ℕ
    pub bound : ℕ
    pub zero_exact : IsQuantity (of_ℕ 0) × (units (of_ℕ 0) ≡ 0)
    pub lesser_exact :
        (a b : Decimal)
        → IsQuantity a
        → IsQuantity b
        → IsQuantity (lesser a b) × (units (lesser a b) ≡ min (units a) (units b))
    pub greater_exact :
        (a b : Decimal)
        → IsQuantity a
        → IsQuantity b
        → IsQuantity (greater a b) × (units (greater a b) ≡ max (units a) (units b))
    pub minus_exact :
        (a b : Decimal)
        → IsQuantity a
        → IsQuantity b
        → units b ≤ units a
        → IsQuantity (minus a b) × (units (minus a b) ≡ units a - units b)
    pub plus_exact :
        (a b : Decimal)
        → IsQuantity a
        → IsQuantity b
        → units a + units b ≤ bound
        → IsQuantity (plus a b) × (units (plus a b) ≡ units a + units b)
    pub is_zero_exact : (a : Decimal) → IsQuantity a → is_zero a ≡ (units a == 0)
    pub greater_than_exact :
        (a b : Decimal) → IsQuantity a → IsQuantity b → greater_than a b ≡ ltb (units b) (units a)
