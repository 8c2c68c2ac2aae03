-- ===== src/Transfers/Once.antt =====
-- The run of the matching uses no chain event and no ledger row twice (api/src/services/transfers.ts).
use mathlib.Core.Logic.{◌≢◌}
use cryptotracker.Base.{
  map-push, All-map, ℕ, String, ◌≡◌, inl, inr, refl, sym, ap, subst, ◌∙◌, none, some, List, [], ◌∷◌,
  ◌++◌, map, All, All-append, All-imp, All-imp₂, AllPairs, AllPairs-push, arith, length,
  Option-cases, some_injective,
}
use cryptotracker.Base.Decimals.{Decimals}
use cryptotracker.Transfers.Match.{unmatched}
use cryptotracker.Transfers.Service.{
  KrakenLedgerRow, ChainEventRow, MatchRow, Candidate, best_of, match_row, match_ledgers,
  reconcile_all,
}
use cryptotracker.Transfers.Best.{best_of-unused, best_of-IsBest}

abbrev pub DifferentIds : KrakenLedgerRow → KrakenLedgerRow → Type 0
DifferentIds l m = l.id ≢ m.id

abbrev pub DifferentSides : MatchRow → MatchRow → Type 0
DifferentSides r s =
    (r.address_balance_event_id ≢ s.address_balance_event_id)
    × (r.kraken_ledger_id ≢ s.kraken_ledger_id)

-- The rows so far, before the rest of the ledger rows.
pub record IsMatching (used : List String) (rows : List MatchRow) (ledgers : List KrakenLedgerRow)
    : Type 0 where
  pub apart : AllPairs DifferentSides rows
  pub recorded : used ≡ map (λ r. r.address_balance_event_id) rows
  pub open_ledgers :
      All (λ (r : MatchRow). All (λ (l : KrakenLedgerRow). r.kraken_ledger_id ≢ l.id) ledgers) rows
  pub matches : All (λ (r : MatchRow). r.confidence ≢ unmatched) rows

IsMatching-skip :
    (used : List String) (rows : List MatchRow) (l : KrakenLedgerRow)
    (ledgers : List KrakenLedgerRow)
    → IsMatching used rows (l ∷ ledgers)
    → IsMatching used rows ledgers
IsMatching-skip used rows l ledgers w = record {
  apart = w.apart;
  recorded = w.recorded;
  open_ledgers = All-imp _ _ rows (λ r h. h.1) w.open_ledgers;
  matches = w.matches;
}

module _ (decimals : Decimals) (to_lower : String → String) (tolerance : decimals.Decimal) where
  IsMatching-add :
      (id : String) (now : ℕ) (used : List String) (rows : List MatchRow) (l : KrakenLedgerRow)
      (ledgers : List KrakenLedgerRow) (c : Candidate)
      → All (λ other. other ≢ c.0.id) used
      → c.1.confidence ≢ unmatched
      → All (λ (m : KrakenLedgerRow). l.id ≢ m.id) ledgers
      → IsMatching used rows (l ∷ ledgers)
      → IsMatching
          (used ++ c.0.id ∷ [])
          (rows ++ match_row decimals to_lower tolerance id now l c ∷ [])
          ledgers
  unfolding match_row
  IsMatching-add id now used rows l ledgers c unused ne others w = record {
    apart =
        AllPairs-push DifferentSides rows _
          (All-imp₂ _ _ _ rows (λ r u h. (u, h.0))
            (All-map _ _ rows (subst (All (λ other. other ≢ c.0.id)) w.recorded unused))
            w.open_ledgers)
          w.apart;
    recorded =
        ap (λ ids. ids ++ c.0.id ∷ []) w.recorded
        ∙ sym (
            map-push (λ (r : MatchRow). r.address_balance_event_id) rows
              (match_row decimals to_lower tolerance id now l c));
    open_ledgers = All-append _ rows _ (All-imp _ _ rows (λ r h. h.1) w.open_ledgers) (others, tt);
    matches = All-append _ rows _ w.matches (ne, tt);
  }

  match_ledgers-IsMatching :
      (create_id : ℕ → String) (now : ℕ) (events : List ChainEventRow)
      (ledgers : List KrakenLedgerRow) (used : List String) (rows rows' : List MatchRow)
      → AllPairs DifferentIds ledgers
      → IsMatching used rows ledgers
      → match_ledgers decimals to_lower tolerance create_id now events ledgers used rows
        ≡ some rows'
      → AllPairs DifferentSides rows' × All (λ (r : MatchRow). r.confidence ≢ unmatched) rows'
  unfolding match_ledgers
  match_ledgers-IsMatching create_id now events [] used rows rows' ids w h =
      subst (λ rs. AllPairs DifferentSides rs × All (λ (r : MatchRow). r.confidence ≢ unmatched) rs)
        (some_injective h) (w.apart, w.matches)
  match_ledgers-IsMatching create_id now events (l ∷ ledgers) used rows rows' ids w h =
      elim (Option-cases (best_of decimals to_lower tolerance l used events)) [
        | inl e ↦ absurd (ground (arith, h, e))
        | inr (none, e) ↦
            match_ledgers-IsMatching create_id now events ledgers used rows rows' ids.1
              (IsMatching-skip used rows l ledgers w) (rw (e, match_ledgers) at h)
        | inr (some c, e) ↦
            let (_, _, best) =
              best_of-IsBest decimals to_lower tolerance l used events (some c) e in
            match_ledgers-IsMatching create_id now events ledgers (used ++ c.0.id ∷ [])
              (rows ++ match_row decimals to_lower tolerance (create_id (length rows)) now l c ∷ [])
              rows' ids.1
              (IsMatching-add (create_id (length rows)) now used rows l ledgers c
                (best_of-unused decimals to_lower tolerance l used events c e) best.0 ids.0 w)
              (rw (e, match_ledgers) at h)
      ]

  -- Of the rows that a run inserts, no two share a chain event or a ledger row, and none is unmatched, if the
  -- ledger rows have different ids.
  pub reconcile_all-AllPairs :
      (create_id : ℕ → String) (now : ℕ) (ledgers : List KrakenLedgerRow)
      (events : List ChainEventRow) (rows : List MatchRow)
      → AllPairs DifferentIds ledgers
      → reconcile_all decimals to_lower tolerance create_id now ledgers events ≡ some rows
      → AllPairs DifferentSides rows × All (λ (r : MatchRow). r.confidence ≢ unmatched) rows
  unfolding reconcile_all
  reconcile_all-AllPairs create_id now ledgers events rows ids h =
      match_ledgers-IsMatching create_id now events ledgers [] [] rows ids
        (record { apart = tt; recorded = refl; open_ledgers = tt; matches = tt }) h
