-- ===== src/Balances/Reconstruct.antt =====
-- `reconstructBalance` (api/src/domain/addresses.ts). `locale` is `localeCompare`; `none` is where decimal.js rejects a
-- quantity. Texts are in the order of their characters' numbers.
use Prim.Native.String
use text.Mathlib.Text.{is_le}
use cryptotracker.Base.{
  unique, ℕ, leb, compare, Ordering, String, Bool, true, false, Option, none, some, List, [], ◌∷◌,
  ◌++◌, map, get_or_else, ◌>>=◌,
}
use cryptotracker.Base.Maps
use cryptotracker.Base.Sorting.{sort}
use cryptotracker.Base.Decimals.{Decimals}

pub record BalanceEvent : Type 0 where
  pub id : String
  pub asset_id : String
  pub occurred_at_ms : ℕ
  pub ordering_key : String
  pub quantity_delta : String

pub record BalancePoint : Type 0 where
  pub timestamp_ms : ℕ
  pub asset_id : String
  pub quantity : String

abbrev pub not_greater : Ordering → Bool
not_greater Ordering.gt = false
not_greater _ = true

-- `a || b` of two comparisons: the first that is not 0.
abbrev pub then_by : Ordering → Ordering → Ordering
then_by Ordering.eq other = other
then_by order other = order

-- The comparator of the events, as the test "not after".
unfoldable pub event_le : (String → String → Ordering) → BalanceEvent → BalanceEvent → Bool
event_le locale left right = not_greater (
    then_by (compare left.occurred_at_ms right.occurred_at_ms)
      (then_by (locale left.ordering_key right.ordering_key) (locale left.id right.id)))

unfoldable pub asset_ids_of : List BalanceEvent → List String
unfolding unique sort
asset_ids_of events =
    sort (λ a b. is_le (String.compare a b))
      (unique (map (λ (e : BalanceEvent). e.asset_id) events) [])

module _ (decimals : Decimals) where
  open decimals use {Decimal, parse, show, of_ℕ, plus}

  abbrev pub Balances : Type 0
  Balances = List (String × Decimal)

  unfoldable pub balance_of : String → Balances → Decimal
  unfolding Maps.get
  balance_of asset balances = get_or_else (Maps.get asset balances) (of_ℕ 0)

  unfoldable pub apply_event : BalanceEvent → Balances → Option Balances
  unfolding balance_of Maps.set
  apply_event event balances = do
    delta ← parse event.quantity_delta
    some (Maps.set event.asset_id (plus (balance_of event.asset_id balances) delta) balances)

  -- The inner loop: the events up to a time are applied; what is left are the later ones.
  unfoldable pub advance : ℕ → List BalanceEvent → Balances → Option (List BalanceEvent × Balances)
  unfolding apply_event
  advance time [] balances = some ([], balances)
  advance time (event ∷ events) balances = elim (leb event.occurred_at_ms time) [
    | false ↦ some (event ∷ events, balances)
    | true ↦ elim (apply_event event balances) [
      | none ↦ none
      | some next ↦ advance time events next
    ]
  ]

  unfoldable pub points_at : ℕ → List String → Balances → List BalancePoint
  unfolding balance_of
  points_at time assets balances =
      map
        (λ asset. record {
          timestamp_ms = time;
          asset_id = asset;
          quantity = show (balance_of asset balances);
        })
        assets

  -- The outer loop.
  unfoldable pub run_buckets :
      List ℕ → List String → List BalanceEvent → Balances → Option (List BalancePoint)
  unfolding advance points_at
  run_buckets [] assets events balances = some []
  run_buckets (time ∷ times) assets events balances = elim (advance time events balances) [
    | none ↦ none
    | some a ↦ elim (run_buckets times assets a.0 a.1) [
      | none ↦ none
      | some points ↦ some (points_at time assets a.1 ++ points)
    ]
  ]

  abbrev pub no_balances : List String → Balances
  no_balances = map (λ asset. (asset, of_ℕ 0))

  unfoldable pub reconstruct_balance :
      (String → String → Ordering) → List BalanceEvent → List ℕ → Option (List BalancePoint)
  unfolding run_buckets event_le sort asset_ids_of
  reconstruct_balance locale events buckets =
      let ordered = sort (event_le locale) events in
      run_buckets (sort leb buckets) (asset_ids_of ordered) ordered
        (no_balances (asset_ids_of ordered))
