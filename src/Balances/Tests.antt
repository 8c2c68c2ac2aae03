-- ===== src/Balances/Tests.antt =====
-- Runs of the balances (api/src/domain/addresses.ts) on whole numbers, and the theorems at them.
use Prim.Native.String.{compare}
use cryptotracker.Base.{ℕ, String, ◌≡◌, refl, Option, none, some, List, [], ◌∷◌, map, length, count}
use cryptotracker.Base.Whole.{whole}
use cryptotracker.Base.{leb}
use cryptotracker.Base.Sorting.{sort}
use cryptotracker.Balances.Replay.{replay_buckets, reconstruct_balance-replay}
use cryptotracker.Balances.Reconstruct.{
  event_le, asset_ids_of, no_balances, BalanceEvent, BalancePoint, reconstruct_balance,
}
use cryptotracker.Balances.Value.{HoldingsValue, value_holdings}

abbrev event : String → ℕ → String → BalanceEvent
event id time delta = record {
  id = id;
  asset_id = "bitcoin";
  occurred_at_ms = time;
  ordering_key = id;
  quantity_delta = delta;
}

points : List BalancePoint
unfolding reconstruct_balance
points =
    elim (reconstruct_balance whole compare
      (event "b" 20 "5" ∷ event "a" 10 "3" ∷ event "c" 40 "9" ∷ []) (30 ∷ 10 ∷ [])) [
        | none ↦ []
        | some ps ↦ ps
      ]

points_in_order : map (λ (p : BalancePoint). p.quantity) points ≡ "3" ∷ "8" ∷ []
unfolding points reconstruct_balance
points_in_order = refl

abbrev holdings : List (String × String)
holdings = ("bitcoin", "2") ∷ ("unknown", "7") ∷ []

abbrev price_of : String → Option String
price_of asset =
    cryptotracker.Base.if◌then◌else◌ (cryptotracker.Base.str_eq asset "bitcoin") (some "50") none

valued : HoldingsValue
unfolding value_holdings
valued = elim (value_holdings whole holdings price_of) [
  | none ↦ record {
    total = "";
    values = [];
    priced_assets = 0;
    total_assets = 0;
    coverage_percent = "";
  }
  | some v ↦ v
]

total_of_the_priced : valued.total ≡ "100"
unfolding valued value_holdings
total_of_the_priced = refl

reconstruct_balance-replay_example :
    reconstruct_balance whole compare (event "b" 20 "5" ∷ event "a" 10 "3" ∷ []) (30 ∷ 10 ∷ [])
    ≡ replay_buckets whole
        (sort leb (30 ∷ 10 ∷ []))
        (asset_ids_of (sort (event_le compare) (event "b" 20 "5" ∷ event "a" 10 "3" ∷ [])))
        (sort (event_le compare) (event "b" 20 "5" ∷ event "a" 10 "3" ∷ []))
        (no_balances whole
          (asset_ids_of (sort (event_le compare) (event "b" 20 "5" ∷ event "a" 10 "3" ∷ []))))
reconstruct_balance-replay_example =
    reconstruct_balance-replay whole compare (event "b" 20 "5" ∷ event "a" 10 "3" ∷ [])
      (30 ∷ 10 ∷ [])
