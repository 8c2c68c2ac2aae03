-- ===== src/Transfers/Service.antt =====
-- `reconcileAll` of the transfer service (api/src/services/transfers.ts). The rows are those of its two
-- queries, in their order; `create_id n` is the id of the n-th insertion. The rows are inserted in one
-- transaction after the old ones are deleted, so the result is the whole table.
use text.Mathlib.Text.{starts_with}
use cryptotracker.Base.{
  ℕ, ltb, leb, ◌==◌, String, Bool, ◌&&◌, ◌||◌, not, Option, none, some, List, [], ◌∷◌, ◌++◌, ◌>>=◌,
  if◌then◌else◌, str_eq, any, filter, length,
}
use cryptotracker.Base.Sorting.{sort}
use cryptotracker.Base.Decimals.{Decimals}
use cryptotracker.Transfers.Match.{
  kraken, chain, Direction, incoming, outgoing, TransferCandidate, Confidence, exact, likely,
  unmatched, Evidence, TransferMatch, time_delta, default_window_ms, reconcile_transfer,
  Classification, classify_owned_transfer,
}

pub record KrakenLedgerRow : Type 0 where
  pub id : String
  pub kraken_id : String
  pub canonical_asset_id : String
  pub event_type : String
  pub occurred_at_ms : ℕ
  pub amount : String
  pub fee : Option String
  pub transaction_id : Option String

pub record ChainEventRow : Type 0 where
  pub id : String
  pub transaction_id : Option String
  pub canonical_asset_id : String
  pub occurred_at_ms : ℕ
  pub quantity_delta : String
  pub fee_quantity : Option String
  pub network : String

-- A row of `internal_transfer_matches`.
pub record MatchRow : Type 0 where
  pub id : String
  pub kraken_ledger_id : String
  pub chain_transaction_id : Option String
  pub address_balance_event_id : String
  pub canonical_asset_id : String
  pub direction : Direction
  pub confidence : Confidence
  pub quantity : String
  pub fee_quantity : Option String
  pub evidence : Evidence
  pub classification : Classification
  pub created_at_ms : ℕ

-- A chain event with its match.
abbrev pub Candidate : Type 0
Candidate = ChainEventRow × TransferMatch

abbrev pub kraken_candidate : KrakenLedgerRow → TransferCandidate
kraken_candidate ledger = record {
  id = ledger.id;
  source = kraken;
  asset_id = ledger.canonical_asset_id;
  direction = if str_eq ledger.event_type "deposit" then incoming else outgoing;
  quantity = ledger.amount;
  occurred_at_ms = ledger.occurred_at_ms;
  transaction_id = ledger.transaction_id;
  network = none;
  fee_quantity = ledger.fee;
}

abbrev pub chain_candidate : ChainEventRow → TransferCandidate
chain_candidate event = record {
  id = event.id;
  source = chain;
  asset_id = event.canonical_asset_id;
  direction = if starts_with event.quantity_delta "-" then outgoing else incoming;
  quantity = event.quantity_delta;
  occurred_at_ms = event.occurred_at_ms;
  transaction_id = event.transaction_id;
  network = some event.network;
  fee_quantity = event.fee_quantity;
}

abbrev pub rank : Confidence → ℕ
rank exact = 0
rank likely = 1
rank unmatched = 2

abbrev pub is_used : List String → String → Bool
is_used used id = any (λ other. str_eq other id) used

-- The comparator of the candidates, as the test "not after".
unfoldable pub not_after : KrakenLedgerRow → Candidate → Candidate → Bool
not_after ledger left right =
    ltb (rank left.1.confidence) (rank right.1.confidence)
    || ((rank left.1.confidence == rank right.1.confidence)
        && leb (time_delta left.0.occurred_at_ms ledger.occurred_at_ms)
            (time_delta right.0.occurred_at_ms ledger.occurred_at_ms))

unfoldable pub is_eligible : KrakenLedgerRow → List String → ChainEventRow → Bool
is_eligible ledger used event =
    str_eq event.canonical_asset_id ledger.canonical_asset_id && not (is_used used event.id)

-- `candidates[0]`, if its confidence is not "unmatched".
abbrev pub matched : List Candidate → Option Candidate
matched [] = none
matched (c ∷ cs) = elim c.1.confidence [ unmatched ↦ none | _ ↦ some c ]

module _ (decimals : Decimals) (to_lower : String → String) (tolerance : decimals.Decimal) where
  -- The matches of a ledger row with the eligible events.
  unfoldable pub match_all : KrakenLedgerRow → List ChainEventRow → Option (List Candidate)
  unfolding reconcile_transfer
  match_all ledger [] = some []
  match_all ledger (event ∷ events) = do
    m ←
        reconcile_transfer decimals to_lower default_window_ms tolerance (kraken_candidate ledger)
          (chain_candidate event)
    ms ← match_all ledger events
    some ((event, m) ∷ ms)

  unfoldable pub best_of :
      KrakenLedgerRow → List String → List ChainEventRow → Option (Option Candidate)
  unfolding match_all sort not_after is_eligible
  best_of ledger used events = do
    candidates ← match_all ledger (filter (is_eligible ledger used) events)
    some (matched (sort (not_after ledger) candidates))

  unfoldable pub match_row : String → ℕ → KrakenLedgerRow → Candidate → MatchRow
  unfolding classify_owned_transfer
  match_row id now ledger (event, m) = record {
    id = id;
    kraken_ledger_id = ledger.id;
    chain_transaction_id = event.transaction_id;
    address_balance_event_id = event.id;
    canonical_asset_id = ledger.canonical_asset_id;
    direction = (kraken_candidate ledger).direction;
    confidence = m.confidence;
    quantity = ledger.amount;
    fee_quantity = ledger.fee;
    evidence = m.evidence;
    classification = classify_owned_transfer m;
    created_at_ms = now;
  }

  -- The loop over the ledgers: the ids in use, and the rows so far.
  unfoldable pub match_ledgers :
      (ℕ → String)
      → ℕ
      → List ChainEventRow
      → List KrakenLedgerRow
      → List String
      → List MatchRow
      → Option (List MatchRow)
  unfolding best_of match_row
  match_ledgers create_id now events [] used rows = some rows
  match_ledgers create_id now events (ledger ∷ ledgers) used rows =
      elim (best_of ledger used events) [
        | none ↦ none
        | some none ↦ match_ledgers create_id now events ledgers used rows
        | some (some c) ↦
            match_ledgers create_id now events ledgers (used ++ c.0.id ∷ [])
              (rows ++ match_row (create_id (length rows)) now ledger c ∷ [])
      ]

  unfoldable pub reconcile_all :
      (ℕ → String) → ℕ → List KrakenLedgerRow → List ChainEventRow → Option (List MatchRow)
  unfolding match_ledgers
  reconcile_all create_id now ledgers events = match_ledgers create_id now events ledgers [] []
