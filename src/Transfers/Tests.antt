-- ===== src/Transfers/Tests.antt =====
-- Runs of the matching (api/src/services/transfers.ts) on whole numbers, and the theorems at them.
use cryptotracker.Base.{
  ℕ, String, ◌≡◌, refl, Option, none, some, List, [], ◌∷◌, All, AllPairs, map, eq_iff, arith,
}
use cryptotracker.Base.Whole.{whole}
use mathlib.Core.Logic.{◌≢◌}
use cryptotracker.Transfers.Match.{unmatched}
use cryptotracker.Transfers.Service.{
  KrakenLedgerRow, ChainEventRow, MatchRow, Candidate, best_of, reconcile_all,
}
use cryptotracker.Transfers.Once.{DifferentSides, reconcile_all-AllPairs}

abbrev ledger : String → ℕ → String → KrakenLedgerRow
ledger id time amount = record {
  id = id;
  kraken_id = id;
  canonical_asset_id = "bitcoin";
  event_type = "withdrawal";
  occurred_at_ms = time;
  amount = amount;
  fee = some "2";
  transaction_id = none;
}

abbrev chain_event : String → ℕ → String → ChainEventRow
chain_event id time quantity = record {
  id = id;
  transaction_id = some "0xab";
  canonical_asset_id = "bitcoin";
  occurred_at_ms = time;
  quantity_delta = quantity;
  fee_quantity = none;
  network = "bitcoin";
}

abbrev ledgers : List KrakenLedgerRow
ledgers = ledger "l1" 1000 "100" ∷ ledger "l2" 2000 "100" ∷ []

abbrev events : List ChainEventRow
events = chain_event "c1" 1500 "98" ∷ chain_event "c2" 2500 "98" ∷ chain_event "c3" 2600 "40" ∷ []

abbrev same : String → String
same text = text

abbrev new_id : ℕ → String
new_id n = "itm"

found : List String → Option Candidate
unfolding best_of
found used = elim (best_of whole same 0 (ledger "l2" 2000 "100") used events) [
  | none ↦ none
  | some c ↦ c
]

rows : List MatchRow
unfolding reconcile_all
rows = elim (reconcile_all whole same 0 new_id 5000 ledgers events) [ none ↦ [] | some rs ↦ rs ]

-- Both withdrawals less their fee arrive: each takes the nearest event that is left.
each_takes_its_own : map (λ (r : MatchRow). r.address_balance_event_id) rows ≡ "c1" ∷ "c2" ∷ []
unfolding rows reconcile_all
each_takes_its_own = refl

different_ids : (ledger "l1" 1000 "100").id ≢ "l2"
different_ids e = absurd (ground (arith, (eq_iff "l1" "l2").1 e))

reconcile_all-AllPairs_example :
    AllPairs DifferentSides rows × All (λ (r : MatchRow). r.confidence ≢ unmatched) rows
unfolding rows reconcile_all
reconcile_all-AllPairs_example =
    reconcile_all-AllPairs whole same 0 new_id 5000 ledgers events rows
      ((different_ids, tt), (tt, tt)) refl
