-- ===== src/Balances/Value.antt =====
-- `valueHoldings` (api/src/domain/addresses.ts). The prices are a function: none for a missing or null price.
use cryptotracker.Base.{
  ℕ, suc, ◌==◌, String, Option, none, some, List, [], ◌∷◌, ◌++◌, ◌>>=◌, if◌then◌else◌, length,
}
use cryptotracker.Base.Decimals.{Decimals}

pub record HoldingsValue : Type 0 where
  pub total : String
  pub values : List (String × Option String)
  pub priced_assets : ℕ
  pub total_assets : ℕ
  pub coverage_percent : String

module _ (decimals : Decimals) where
  open decimals use {Decimal, parse, show, of_ℕ, plus, times, divided_by}

  -- The loop over the assets, with the running total and the count of the priced assets.
  pub record Valuation : Type 0 where
    pub total : Decimal
    pub priced_assets : ℕ
    pub values : List (String × Option String)

  unfoldable pub value_one :
      (String → Option String) → String × String → Valuation → Option Valuation
  value_one price_of (asset, quantity) v = elim (price_of asset) [
    | none ↦ some (record v { values = v.values ++ (asset, none) ∷ [] })
    | some price ↦ do
      amount ← parse quantity
      unit ← parse price
      some (record {
        total = plus v.total (times amount unit);
        priced_assets = suc v.priced_assets;
        values = v.values ++ (asset, some (show (times amount unit))) ∷ [];
      })
  ]

  unfoldable pub value_all :
      (String → Option String) → List (String × String) → Valuation → Option Valuation
  unfolding value_one
  value_all price_of [] v = some v
  value_all price_of (holding ∷ holdings) v = elim (value_one price_of holding v) [
    | none ↦ none
    | some next ↦ value_all price_of holdings next
  ]

  unfoldable pub value_holdings :
      List (String × String) → (String → Option String) → Option HoldingsValue
  unfolding value_all
  value_holdings quantities price_of = do
    v ← value_all price_of quantities (record { total = of_ℕ 0; priced_assets = 0; values = [] })
    some (record {
      total = show v.total;
      values = v.values;
      priced_assets = v.priced_assets;
      total_assets = length quantities;
      coverage_percent =
          if length quantities == 0
          then "100"
          else show
              (times (divided_by (of_ℕ v.priced_assets) (of_ℕ (length quantities))) (of_ℕ 100));
    })
