-- ===== src/CostBasis/Disposal.antt =====
-- A whole disposal of the FIFO and LIFO methods, and the run over all events
-- (api/src/domain/cost-basis.ts).
use mathlib.Core.List.{Perm}
use mathlib.Core.Logic.{◌≢◌}
use cryptotracker.Base.{
  All-number, ℕ, ◌+◌, ◌-◌, String, ◌≡◌, sym, ap, ◌∙◌, true, false, List, [], map, arith, All, sum,
  All-filter, AllPairs, AllPairs-filter, number, number-All, number-AllPairs, Elsewhere, filter,
  get_elem?,
}
use cryptotracker.Base.Sorting.{sort-perm, sort-IsSorted, All-sort, AllPairs-sort}
use cryptotracker.Base.Decimals.{Decimals, Exact}
use cryptotracker.CostBasis.Events.{CostBasisMethod, acb, fifo, lifo}
use cryptotracker.CostBasis.Lots.{
  WorkingLot, Consumption, consume_lots, taken_before, is_candidate, candidates, dispose,
}
use cryptotracker.CostBasis.Greedy.{
  greedy, greedy-sum, shortfall-sum, AreCandidates, units_at, remaining_units, TookGreedily,
  consume_lots-TookGreedily, consume_lots-frame,
}

module _ (decimals : Decimals) where
  taken_total :
      (method : CostBasisMethod) (x y : ℕ × WorkingLot decimals)
      → taken_before decimals method x y ≡ false
      → taken_before decimals method y x ≡ true
  taken_total acb x y h = ground arith
  taken_total fifo x y h = ground arith
  taken_total lifo x y h = ground arith

  taken_trans :
      (method : CostBasisMethod) (x y z : ℕ × WorkingLot decimals)
      → taken_before decimals method x y ≡ true
      → taken_before decimals method y z ≡ true
      → taken_before decimals method x z ≡ true
  taken_trans acb x y z h k = ground arith
  taken_trans fifo x y z h k = ground arith
  taken_trans lifo x y z h k = ground arith

module _ (decimals : Decimals) (exact : Exact decimals) where
  open decimals use {Decimal, of_ℕ, minus, lesser}
  open exact use {IsQuantity, units, lesser_exact, minus_exact}

  abbrev start : Decimal → List (WorkingLot decimals) → Consumption decimals
  start quantity lots = record {
    remaining = quantity;
    known_basis = of_ℕ 0;
    unknown_quantity = of_ℕ 0;
    consumed_lots = [];
    lots = lots;
  }

  candidates-AreCandidates :
      (method : CostBasisMethod) (asset : String) (lots : List (WorkingLot decimals))
      → All (λ lot. IsQuantity lot.remaining) lots
      → AreCandidates decimals exact lots (candidates decimals method asset lots)
  unfolding candidates
  candidates-AreCandidates method asset lots held = record {
    placed =
        All-sort _ (taken_before decimals method) _
          (All-filter _ (is_candidate decimals asset) (number 0 lots) (number-All lots));
    apart =
        AllPairs-sort Elsewhere (λ c d ne e. ne (sym e)) (taken_before decimals method) _
          (AllPairs-filter Elsewhere (is_candidate decimals asset) (number 0 lots)
            (number-AllPairs lots 0));
    held =
        All-sort _ (taken_before decimals method) _
          (All-filter _ (is_candidate decimals asset) (number 0 lots) (All-number _ 0 lots held));
  }

  candidates-perm :
      (method : CostBasisMethod) (asset : String) (lots : List (WorkingLot decimals))
      → Perm
          (candidates decimals method asset lots)
          (filter (is_candidate decimals asset) (number 0 lots))
  unfolding candidates
  candidates-perm method asset lots = sort-perm (taken_before decimals method) _

  candidates-IsOrdered :
      (method : CostBasisMethod) (asset : String) (lots : List (WorkingLot decimals))
      → AllPairs
          (λ c d. taken_before decimals method c d ≡ true)
          (candidates decimals method asset lots)
  unfolding candidates
  candidates-IsOrdered method asset lots =
      sort-IsSorted (taken_before decimals method) (taken_total decimals method)
        (taken_trans decimals method) (filter (is_candidate decimals asset) (number 0 lots))

  -- What a disposal did to the lots.
  pub record IsDisposal (method : CostBasisMethod) (asset : String) (quantity : Decimal)
      (lots : List (WorkingLot decimals)) (r : Consumption decimals) : Type 0 where
    pub listed :
        Perm
          (candidates decimals method asset lots)
          (filter (is_candidate decimals asset) (number 0 lots))
    pub ordered :
        AllPairs
          (λ c d. taken_before decimals method c d ≡ true)
          (candidates decimals method asset lots)
    pub took :
        map (λ c. units_at decimals exact r.lots c.0) (candidates decimals method asset lots)
        ≡ greedy
            (units quantity)
            (remaining_units decimals exact (candidates decimals method asset lots))
    pub conserved :
        sum (map (λ c. units_at decimals exact r.lots c.0) (candidates decimals method asset lots))
          + units quantity
        ≡ sum (remaining_units decimals exact (candidates decimals method asset lots))
          + units r.remaining
    pub short :
        units r.remaining
        ≡ units quantity
          - sum (remaining_units decimals exact (candidates decimals method asset lots))
    pub others :
        (j : ℕ)
        → All (λ c. c.0 ≢ j) (candidates decimals method asset lots)
        → get_elem? r.lots j ≡ get_elem? lots j

  -- A disposal goes through the open lots of its asset, the oldest first for FIFO and the newest first
  -- for LIFO, takes from each what it can before it turns to the next, changes no other lot, and leaves
  -- uncovered exactly what those lots do not hold. No quantity is lost or made.
  pub dispose-IsDisposal :
      (method : CostBasisMethod) (asset : String) (quantity : Decimal)
      (lots : List (WorkingLot decimals))
      → All (λ lot. IsQuantity lot.remaining) lots
      → IsQuantity quantity
      → IsDisposal method asset quantity lots (dispose decimals method asset quantity lots)
  unfolding dispose
  dispose-IsDisposal method asset quantity lots held q = record {
    listed = candidates-perm method asset lots;
    ordered = candidates-IsOrdered method asset lots;
    took = t.left;
    conserved =
        ap (λ us. sum us + units quantity) t.left
        ∙ greedy-sum _ _
        ∙ ap (λ u. sum all + u) (sym t.short);
    short = t.short ∙ shortfall-sum _ _;
    others = λ j h. consume_lots-frame decimals exact _ (start quantity lots) j h;
  }
    where
      all : List ℕ
      all = remaining_units decimals exact (candidates decimals method asset lots)

      t :
          TookGreedily decimals exact
            (candidates decimals method asset lots)
            (start quantity lots)
            (consume_lots decimals (candidates decimals method asset lots) (start quantity lots))
      t =
          consume_lots-TookGreedily decimals exact _ (start quantity lots)
            (candidates-AreCandidates method asset lots held) q
