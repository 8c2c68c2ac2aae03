-- ===== src/CostBasis/Method.antt =====
-- `calculateCostBasis` and `carryTransferBasis` (api/src/domain/cost-basis.ts).
use cryptotracker.Base.{
  ltb, ◌==◌, String, Bool, ◌&&◌, ◌||◌, Option, none, some, List, ◌>>=◌, if◌then◌else◌,
}
use cryptotracker.Base.Sorting.{sort}
use cryptotracker.Base.Decimals.{Decimals}
use cryptotracker.CostBasis.Events.{CostBasisMethod, acb, BasisEvent, CostBasis}
use cryptotracker.CostBasis.Acb.{calculate_acb}
use cryptotracker.CostBasis.Lots.{calculate_lot_method}

-- The order of the events: by time, then by `localeCompare` of the ids, given as "not after".
abbrev pub event_le : (String → String → Bool) → BasisEvent → BasisEvent → Bool
event_le locale_le left right =
    ltb left.occurred_at_ms right.occurred_at_ms
    || (left.occurred_at_ms == right.occurred_at_ms && locale_le left.id right.id)

pub record CarriedBasis : Type 0 where
  pub carried_basis_cad : Option String
  pub fee_basis_cad : Option String
  pub remaining_basis_cad : Option String

module _ (decimals : Decimals) where
  open decimals use {parse, show, plus, minus, times, divided_by, greater_than}

  pub calculate_cost_basis :
      (String → String → Bool) → List BasisEvent → CostBasisMethod → Option CostBasis
  unfolding sort calculate_acb calculate_lot_method
  calculate_cost_basis locale_le events acb =
      calculate_acb decimals (sort (event_le locale_le) events)
  calculate_cost_basis locale_le events method =
      calculate_lot_method decimals method (sort (event_le locale_le) events)

  -- `none` where the source throws: an unreadable number, or more taken than there is.
  pub carry_transfer_basis : String → Option String → String → String → Option CarriedBasis
  carry_transfer_basis source_quantity source_basis transferred_quantity network_fee = do
    quantity ← parse source_quantity
    transferred ← parse transferred_quantity
    fee ← parse network_fee
    if greater_than (plus transferred fee) quantity then none else elim source_basis [
      | none ↦
          some
            (record { carried_basis_cad = none; fee_basis_cad = none; remaining_basis_cad = none })
      | some text ↦ do
        basis ← parse text
        let unit_basis = divided_by basis quantity
        some (record {
          carried_basis_cad = some (show (times unit_basis transferred));
          fee_basis_cad = some (show (times unit_basis fee));
          remaining_basis_cad =
              some (show (times unit_basis (minus (minus quantity transferred) fee)));
        })
    ]
