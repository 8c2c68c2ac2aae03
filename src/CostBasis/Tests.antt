-- ===== src/CostBasis/Tests.antt =====
-- Runs of the cost basis (api/src/domain/cost-basis.ts) on whole numbers, and the theorems at them.
use cryptotracker.Base.{
  ℕ, String, ◌≡◌, refl, Bool, true, false, Option, none, some, List, [], ◌∷◌, filter, inl, inr,
  length, map, leb,
}
use cryptotracker.Base.Whole.{whole, whole_exact}
use cryptotracker.CostBasis.Events.{
  fifo, lifo, acquisition, disposition, BasisEvent, DispositionResult,
}
use cryptotracker.CostBasis.Lots.{WorkingLot, dispose, run_lots}
use cryptotracker.CostBasis.Acb.{Holdings, holding_of, run_acb}
use cryptotracker.CostBasis.Disposal.{IsDisposal, dispose-IsDisposal}
use cryptotracker.CostBasis.Run.{IsLot, run_lots-IsLots}
use cryptotracker.CostBasis.Average.{concerns, run_acb-independent}

abbrev lot : String → ℕ → ℕ → WorkingLot whole
lot id time remaining = record {
  id = id;
  asset_id = "bitcoin";
  acquired_at_ms = time;
  quantity = 10;
  remaining = remaining;
  basis_cad = some 500;
  source_event_id = id;
}

abbrev lots : List (WorkingLot whole)
lots = lot "b" 200 10 ∷ lot "a" 100 4 ∷ []

dispose-IsDisposal_example :
    IsDisposal whole whole_exact fifo "bitcoin" 7 lots (dispose whole fifo "bitcoin" 7 lots)
dispose-IsDisposal_example =
    dispose-IsDisposal whole whole_exact fifo "bitcoin" 7 lots (tt, (tt, tt)) tt

-- The older lot gives all of its 4, and the newer one 3 of its 10.
fifo_takes_the_oldest :
    map (λ (l : WorkingLot whole). l.remaining) (dispose whole fifo "bitcoin" 7 lots).lots
    ≡ 7 ∷ 0 ∷ []
unfolding dispose
fifo_takes_the_oldest = refl

lifo_takes_the_newest :
    map (λ (l : WorkingLot whole). l.remaining) (dispose whole lifo "bitcoin" 7 lots).lots
    ≡ 3 ∷ 4 ∷ []
unfolding dispose
lifo_takes_the_newest = refl

abbrev event : String → String → ℕ → String → BasisEvent
event id asset time quantity = record {
  id = id;
  asset_id = asset;
  occurred_at_ms = time;
  type = acquisition;
  quantity = quantity;
  value_cad = some "100";
  fee_cad = none;
}

abbrev events : List BasisEvent
events =
    event "e1" "bitcoin" 1 "10"
    ∷ event "e2" "solana" 2 "5"
    ∷ record (event "e3" "bitcoin" 3 "-4") { type = disposition }
    ∷ []

lots_after : List (WorkingLot whole) × List DispositionResult
unfolding run_lots
lots_after = elim (run_lots whole fifo events [] []) [ none ↦ ([], []) | some r ↦ r ]

acb_after : Holdings whole × List DispositionResult
unfolding run_acb
acb_after = elim (run_acb whole events [] []) [ none ↦ ([], []) | some r ↦ r ]

run_lots-IsLots_example : cryptotracker.Base.All (IsLot whole whole_exact) lots_after.0
unfolding lots_after run_lots
run_lots-IsLots_example =
    run_lots-IsLots whole whole_exact fifo events [] lots_after.0 [] lots_after.1
      ((λ r e. tt), ((λ r e. tt), ((λ r e. tt), tt))) tt refl

run_acb-independent_example :
    (holdings : Holdings whole) × (others : List DispositionResult) × (run_acb whole
        (filter (concerns "bitcoin") events)
        []
        []
      ≡ some (holdings, others))
    × (holding_of whole "bitcoin" acb_after.0 ≡ holding_of whole "bitcoin" holdings)
unfolding acb_after run_acb
run_acb-independent_example =
    run_acb-independent whole "bitcoin" events [] acb_after.0 [] [] acb_after.1 [] refl refl
