-- ===== src/CostBasis/Acb.antt =====
-- `calculateAcb` (api/src/domain/cost-basis.ts): the average cost of each asset.
use Prim.Native.String
use cryptotracker.Base.{
  String, true, false, Option, none, some, List, [], ◌∷◌, ◌++◌, map, ◌>>=◌, if◌then◌else◌,
  get_or_else,
}
use cryptotracker.Base.Maps
use cryptotracker.Base.Decimals.{Decimals}
use cryptotracker.CostBasis.Events.{
  acb, BasisEvent, is_incoming, DispositionResult, OpenLot, CostBasis, Read, read_event,
  calculate_coverage, proceeds_of, pnl_of, show_option,
}

module _ (decimals : Decimals) where
  open decimals use {
    Decimal, show, of_ℕ, plus, minus, times, divided_by, is_zero, equals, lesser, greater, total,
  }

  -- The three maps, which the source always sets together, as one map of records.
  pub record Holding : Type 0 where
    pub quantity : Decimal
    pub known_quantity : Decimal
    pub known_basis : Decimal

  abbrev pub Holdings : Type 0
  Holdings = List (String × Holding)

  unfoldable pub holding_of : String → Holdings → Holding
  unfolding Maps.get
  holding_of asset holdings =
      get_or_else (Maps.get asset holdings)
        (record { quantity = of_ℕ 0; known_quantity = of_ℕ 0; known_basis = of_ℕ 0 })

  unfoldable pub receive : Read decimals → Holding → Holding
  receive r h = elim r.value [
    | none ↦ record h { quantity = plus h.quantity r.quantity }
    | some value ↦ record {
      quantity = plus h.quantity r.quantity;
      known_quantity = plus h.known_quantity r.quantity;
      known_basis = plus (plus h.known_basis value) r.fee;
    }
  ]

  unfoldable pub consumed_known_quantity : Read decimals → Holding → Decimal
  consumed_known_quantity r h =
      let known_ratio =
        if is_zero h.quantity then of_ℕ 0 else divided_by h.known_quantity h.quantity in
      lesser (times r.quantity known_ratio) h.known_quantity

  unfoldable pub consumed_basis : Read decimals → Holding → Decimal
  unfolding consumed_known_quantity
  consumed_basis r h =
      let unit_basis =
        if is_zero h.known_quantity then of_ℕ 0 else divided_by h.known_basis h.known_quantity in
      times (consumed_known_quantity r h) unit_basis

  unfoldable pub release : Read decimals → Holding → Holding
  unfolding consumed_known_quantity consumed_basis
  release r h = record {
    quantity = greater (of_ℕ 0) (minus h.quantity r.quantity);
    known_quantity = greater (of_ℕ 0) (minus h.known_quantity (consumed_known_quantity r h));
    known_basis = greater (of_ℕ 0) (minus h.known_basis (consumed_basis r h));
  }

  unfoldable pub acb_disposition : BasisEvent → Read decimals → Holding → DispositionResult
  unfolding consumed_known_quantity consumed_basis
  acb_disposition event r h =
      let unknown = minus r.quantity (consumed_known_quantity r h) in
      let basis = consumed_basis r h in
      let proceeds = proceeds_of decimals r in
      record {
        event_id = event.id;
        quantity = show r.quantity;
        proceeds_cad = show_option decimals proceeds;
        known_basis_cad = show basis;
        unknown_quantity = show unknown;
        realised_pnl_cad = pnl_of decimals proceeds basis unknown;
        consumed_lots =
            record {
              lot_id = String.◌++◌ "acb:" event.asset_id;
              quantity = show (consumed_known_quantity r h);
              basis_cad = some (show basis);
            }
            ∷ [];
      }

  -- One event: the holding that it leaves, and the disposition that it adds, if any.
  unfoldable pub acb_event : BasisEvent → Read decimals → Holding → Holding × List DispositionResult
  unfolding receive release acb_disposition
  acb_event event r h = elim (is_incoming event.type) [
    | true ↦ (receive r h, [])
    | false ↦ (release r h, acb_disposition event r h ∷ [])
  ]

  -- The loop over the events.
  unfoldable pub run_acb :
      List BasisEvent
      → Holdings
      → List DispositionResult
      → Option (Holdings × List DispositionResult)
  unfolding read_event acb_event holding_of Maps.set
  run_acb [] holdings done = some (holdings, done)
  run_acb (event ∷ events) holdings done = elim (read_event decimals event) [
    | none ↦ none
    | some r ↦
        let (h, added) = acb_event event r (holding_of event.asset_id holdings) in
        run_acb events (Maps.set event.asset_id h holdings) (done ++ added)
  ]

  unfoldable pub acb_lot : String × Holding → OpenLot
  acb_lot (asset, h) = record {
    id = String.◌++◌ "acb:" asset;
    asset_id = asset;
    remaining_quantity = show h.quantity;
    basis_cad = some (show h.known_basis);
    basis_known = equals h.known_quantity h.quantity;
  }

  unfoldable pub calculate_acb : List BasisEvent → Option CostBasis
  unfolding run_acb acb_lot calculate_coverage
  calculate_acb events = do
    (holdings, done) ← run_acb events [] []
    let total_quantity = total (map (λ e. e.1.quantity) holdings)
    let total_known_quantity = total (map (λ e. e.1.known_quantity) holdings)
    some (record {
      method = acb;
      dispositions = done;
      lots = map acb_lot holdings;
      basis_coverage_percent = calculate_coverage decimals total_known_quantity total_quantity;
    })
