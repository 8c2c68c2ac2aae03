-- ===== src/CostBasis/Lots.antt =====
-- `calculateLotMethod` (api/src/domain/cost-basis.ts). The lots are shared objects: the candidates of a
-- disposal are references into them, here positions with the lot that stands there.
use Prim.Native.String
use cryptotracker.Base.{
  ℕ, leb, String, Bool, true, false, ◌&&◌, not, Option, none, some, List, [], ◌∷◌, ◌++◌, map, ◌>>=◌,
  if◌then◌else◌, str_eq, filter, is_none, set, number,
}
use cryptotracker.Base.Sorting.{sort}
use cryptotracker.Base.Decimals.{Decimals}
use cryptotracker.CostBasis.Events.{
  CostBasisMethod, lifo, BasisEvent, is_incoming, ConsumedLot, DispositionResult, OpenLot,
  CostBasis, Read, read_event, calculate_coverage, proceeds_of, pnl_of, show_option,
}

module _ (decimals : Decimals) where
  open decimals use {
    Decimal, parse, show, of_ℕ, plus, minus, times, divided_by, is_zero, greater_than, lesser,
    total,
  }

  pub record WorkingLot : Type 0 where
    pub id : String
    pub asset_id : String
    pub acquired_at_ms : ℕ
    pub quantity : Decimal
    pub remaining : Decimal
    pub basis_cad : Option Decimal
    pub source_event_id : String

  -- The variables of the loop over the candidates.
  pub record Consumption : Type 0 where
    pub remaining : Decimal
    pub known_basis : Decimal
    pub unknown_quantity : Decimal
    pub consumed_lots : List ConsumedLot
    pub lots : List WorkingLot

  abbrev pub share_of : WorkingLot → Decimal → Option Decimal
  share_of lot part = elim lot.basis_cad [
    | none ↦ none
    | some basis ↦ some (times basis (divided_by part lot.quantity))
  ]

  -- The body of the loop, for the lot at position `i`.
  unfoldable pub consume_lot : ℕ → WorkingLot → Consumption → Consumption
  consume_lot i lot s =
      let consumed = lesser lot.remaining s.remaining in
      let basis = share_of lot consumed in
      record {
        remaining = minus s.remaining consumed;
        known_basis = elim basis [ none ↦ s.known_basis | some b ↦ plus s.known_basis b ];
        unknown_quantity = elim basis [
          | none ↦ plus s.unknown_quantity consumed
          | some b ↦ s.unknown_quantity
        ];
        consumed_lots =
            s.consumed_lots
            ++ record {
              lot_id = lot.id;
              quantity = show consumed;
              basis_cad = show_option decimals basis;
            }
              ∷ [];
        lots = set s.lots i (record lot { remaining = minus lot.remaining consumed });
      }

  -- `for (const lot of candidates) { if (remaining.isZero()) break; ... }`
  unfoldable pub consume_lots : List (ℕ × WorkingLot) → Consumption → Consumption
  consume_lots [] s = s
  consume_lots ((i, lot) ∷ rest) s =
      let later = consume_lots rest (consume_lot i lot s) in
      if is_zero s.remaining then s else later

  -- The comparator of the candidates.
  abbrev pub taken_before : CostBasisMethod → ℕ × WorkingLot → ℕ × WorkingLot → Bool
  taken_before lifo left right = leb right.1.acquired_at_ms left.1.acquired_at_ms
  taken_before _ left right = leb left.1.acquired_at_ms right.1.acquired_at_ms

  abbrev pub is_candidate : String → ℕ × WorkingLot → Bool
  is_candidate asset c = str_eq c.1.asset_id asset && greater_than c.1.remaining (of_ℕ 0)

  unfoldable pub candidates : CostBasisMethod → String → List WorkingLot → List (ℕ × WorkingLot)
  unfolding sort
  candidates method asset lots =
      sort (taken_before method) (filter (is_candidate asset) (number 0 lots))

  unfoldable pub dispose : CostBasisMethod → String → Decimal → List WorkingLot → Consumption
  unfolding candidates consume_lots consume_lot
  dispose method asset quantity lots = consume_lots (candidates method asset lots) (record {
    remaining = quantity;
    known_basis = of_ℕ 0;
    unknown_quantity = of_ℕ 0;
    consumed_lots = [];
    lots = lots;
  })

  unfoldable pub acquire : BasisEvent → Read decimals → List WorkingLot → List WorkingLot
  acquire event r lots =
      lots
      ++ record {
        id = String.◌++◌ "lot:" event.id;
        asset_id = event.asset_id;
        acquired_at_ms = event.occurred_at_ms;
        quantity = r.quantity;
        remaining = r.quantity;
        basis_cad = elim r.value [ none ↦ none | some value ↦ some (plus value r.fee) ];
        source_event_id = event.id;
      }
        ∷ []

  -- The record that a disposal adds.
  unfoldable pub disposition_of : BasisEvent → Read decimals → Consumption → DispositionResult
  disposition_of event r s =
      let unknown = plus s.unknown_quantity s.remaining in
      let proceeds = proceeds_of decimals r in
      record {
        event_id = event.id;
        quantity = show r.quantity;
        proceeds_cad = show_option decimals proceeds;
        known_basis_cad = show s.known_basis;
        unknown_quantity = show unknown;
        realised_pnl_cad = pnl_of decimals proceeds s.known_basis unknown;
        consumed_lots = s.consumed_lots;
      }

  -- The loop over the events: the lots and the dispositions, or the error of an unreadable number.
  unfoldable pub run_lots :
      CostBasisMethod
      → List BasisEvent
      → List WorkingLot
      → List DispositionResult
      → Option (List WorkingLot × List DispositionResult)
  unfolding dispose acquire disposition_of read_event
  run_lots method [] lots done = some (lots, done)
  run_lots method (event ∷ events) lots done = elim (read_event decimals event) [
    | none ↦ none
    | some r ↦ elim (is_incoming event.type) [
      | true ↦ run_lots method events (acquire event r lots) done
      | false ↦
          let s = dispose method event.asset_id r.quantity lots in
          run_lots method events s.lots (done ++ disposition_of event r s ∷ [])
    ]
  ]

  unfoldable pub open_lot : WorkingLot → OpenLot
  open_lot lot = record {
    id = lot.id;
    asset_id = lot.asset_id;
    remaining_quantity = show lot.remaining;
    basis_cad = show_option decimals (share_of lot lot.remaining);
    basis_known = not (is_none lot.basis_cad);
  }

  unfoldable pub calculate_lot_method : CostBasisMethod → List BasisEvent → Option CostBasis
  unfolding run_lots open_lot calculate_coverage
  calculate_lot_method method events = do
    (lots, done) ← run_lots method events [] []
    let open_lots = filter (λ lot. greater_than lot.remaining (of_ℕ 0)) lots
    let total_quantity = total (map (λ lot. lot.remaining) open_lots)
    let known_quantity =
        total (map (λ lot. lot.remaining) (filter (λ lot. not (is_none lot.basis_cad)) open_lots))
    some (record {
      method = method;
      dispositions = done;
      lots = map open_lot open_lots;
      basis_coverage_percent = calculate_coverage decimals known_quantity total_quantity;
    })
