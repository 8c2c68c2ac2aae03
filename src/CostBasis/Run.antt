-- ===== src/CostBasis/Run.antt =====
-- What holds of every lot after any run of the FIFO and LIFO methods (api/src/domain/cost-basis.ts).
use cryptotracker.Base.{
  All-set, All-number, ℕ, zero, suc, ◌≤◌, min, ◌≡◌, refl, sym, ap, subst, String, Bool, true, false,
  Option, none, some, List, [], ◌∷◌, ◌++◌, map, arith, All, All-append, All-imp, All-filter, number,
  set, Bool-cases, Option-cases, inl, inr, >>=-eq-some, if◌then◌else◌,
}
use cryptotracker.Base.Sorting.{All-sort}
use cryptotracker.Base.Decimals.{Decimals, Exact}
use cryptotracker.CostBasis.Events.{
  CostBasisMethod, BasisEvent, is_incoming, DispositionResult, Read, read_event,
}
use cryptotracker.CostBasis.Lots.{
  WorkingLot, Consumption, consume_lot, consume_lots, taken_before, is_candidate, candidates,
  dispose, acquire, run_lots,
}

module _ (decimals : Decimals) (exact : Exact decimals) where
  open decimals use {Decimal, of_ℕ, minus, lesser, is_zero}
  open exact use {IsQuantity, units, lesser_exact, minus_exact}

  -- A lot holds a quantity, at most what was acquired.
  pub record IsLot (lot : WorkingLot decimals) : Type 0 where
    pub acquired : IsQuantity lot.quantity
    pub left : IsQuantity lot.remaining
    pub within : units lot.remaining ≤ units lot.quantity

  -- The quantity of the event is a quantity of the grid.
  abbrev pub IsExactEvent : BasisEvent → Type 0
  IsExactEvent event =
      (r : Read decimals) → read_event decimals event ≡ some r → IsQuantity r.quantity

  IsLot-consumed :
      (lot : WorkingLot decimals) (amount : Decimal)
      → IsLot lot
      → IsQuantity amount
      → IsLot (record lot { remaining = minus lot.remaining (lesser lot.remaining amount) })
  IsLot-consumed lot amount l q =
      let (ql, less) = lesser_exact lot.remaining amount l.left q in
      let (qm, m) =
        minus_exact lot.remaining (lesser lot.remaining amount) l.left ql (omega arith) in
      let within = l.within in record { acquired = l.acquired; left = qm; within = omega arith }

  rest-IsQuantity :
      (held amount : Decimal)
      → IsQuantity held
      → IsQuantity amount
      → IsQuantity (minus amount (lesser held amount))
  rest-IsQuantity held amount h q =
      let (ql, less) = lesser_exact held amount h q in
      (minus_exact amount (lesser held amount) q ql (omega arith)).0

  consume_lots-IsLots :
      (cs : List (ℕ × WorkingLot decimals)) (s : Consumption decimals)
      → All (λ c. IsLot c.1) cs
      → IsQuantity s.remaining
      → All IsLot s.lots
      → All IsLot (consume_lots decimals cs s).lots
  unfolding consume_lots consume_lot
  consume_lots-IsLots [] s h q ok = ok
  consume_lots-IsLots ((i, lot) ∷ cs) s h q ok = elim (Bool-cases (is_zero s.remaining)) [
    | inl e ↦ rw e ok
    | inr e ↦
        let later : All IsLot (consume_lots decimals cs (consume_lot decimals i lot s)).lots =
          consume_lots-IsLots cs (consume_lot decimals i lot s) h.1
            (rest-IsQuantity lot.remaining s.remaining h.0.left q)
            (All-set IsLot s.lots i _ (IsLot-consumed lot s.remaining h.0 q) ok) in
        rw e later
  ]

  dispose-IsLots :
      (method : CostBasisMethod) (asset : String) (quantity : Decimal)
      (lots : List (WorkingLot decimals))
      → IsQuantity quantity
      → All IsLot lots
      → All IsLot (dispose decimals method asset quantity lots).lots
  unfolding dispose candidates
  dispose-IsLots method asset quantity lots q ok =
      consume_lots-IsLots _ _
        (All-sort _ (taken_before decimals method) (filter_of asset lots) (
          All-filter (λ c. IsLot c.1) (is_candidate decimals asset) (number 0 lots)
            (All-number IsLot 0 lots ok)))
        q ok
    where
      filter_of : String → List (WorkingLot decimals) → List (ℕ × WorkingLot decimals)
      filter_of asset lots = cryptotracker.Base.filter (is_candidate decimals asset) (number 0 lots)

  acquire-IsLots :
      (event : BasisEvent) (r : Read decimals) (lots : List (WorkingLot decimals))
      → IsQuantity r.quantity
      → All IsLot lots
      → All IsLot (acquire decimals event r lots)
  unfolding acquire
  acquire-IsLots event r lots q ok =
      All-append IsLot lots _ ok (record { acquired = q; left = q; within = omega arith }, tt)

  -- However the events acquire and dispose, the run keeps every lot between nothing and what was
  -- acquired, if the quantities of the events are on the grid.
  pub run_lots-IsLots :
      (method : CostBasisMethod) (events : List BasisEvent)
      (lots lots' : List (WorkingLot decimals)) (done done' : List DispositionResult)
      → All IsExactEvent events
      → All IsLot lots
      → run_lots decimals method events lots done ≡ some (lots', done')
      → All IsLot lots'
  unfolding run_lots
  run_lots-IsLots method [] lots lots' done done' ex ok h = subst (All IsLot) (ground arith) ok
  run_lots-IsLots method (event ∷ events) lots lots' done done' ex ok h =
      elim (Option-cases (read_event decimals event)) [
        | inl e ↦ absurd (ground arith)
        | inr (r, e) ↦ elim (Bool-cases (is_incoming event.type)) [
          | inl incoming ↦
              run_lots-IsLots method events (acquire decimals event r lots) lots' done done' ex.1
                (acquire-IsLots event r lots (ex.0 r e) ok) (rw (e, incoming, run_lots) at h)
          | inr outgoing ↦
              run_lots-IsLots method events
                (dispose decimals method event.asset_id r.quantity lots).lots lots' _ done' ex.1
                (dispose-IsLots method event.asset_id r.quantity lots (ex.0 r e) ok)
                (rw (e, outgoing, run_lots) at h)
        ]
      ]
