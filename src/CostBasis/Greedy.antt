-- ===== src/CostBasis/Greedy.antt =====
-- The loop over the candidate lots (api/src/domain/cost-basis.ts) takes greedily, lot after lot.
use mathlib.Core.Logic.{◌≢◌}
use cryptotracker.Base.{
  ℕ, ◌+◌, ◌-◌, min, ◌≡◌, refl, sym, ap₂, subst, ◌∙◌, true, false, none, some, List, [], ◌∷◌, map,
  arith, All, sum, All-imp, All-imp₂, AllPairs, get_elem?, set, get_elem?-set_self,
  get_elem?-set_ne, Bool-cases, inl, inr,
}
use cryptotracker.Base.Decimals.{Decimals, Exact}
use cryptotracker.CostBasis.Lots.{WorkingLot, Consumption, consume_lot, consume_lots}

-- The specification: what is left of each lot when `amount` is taken from the first lots on.
pub greedy : ℕ → List ℕ → List ℕ
greedy amount [] = []
greedy amount (u ∷ us) = (u - min u amount) ∷ greedy (amount - min u amount) us

-- What the lots cannot give.
pub shortfall : ℕ → List ℕ → ℕ
shortfall amount [] = amount
shortfall amount (u ∷ us) = shortfall (amount - min u amount) us

greedy-zero : (us : List ℕ) → greedy 0 us ≡ us
unfolding greedy
greedy-zero [] = refl
greedy-zero (u ∷ us) = ground (arith, greedy-zero us)

shortfall-zero : (us : List ℕ) → shortfall 0 us ≡ 0
unfolding shortfall
shortfall-zero [] = refl
shortfall-zero (u ∷ us) = ground (arith, shortfall-zero us)

-- The specification conserves quantity and gives all that there is.
pub greedy-sum :
    (amount : ℕ) (us : List ℕ) → sum (greedy amount us) + amount ≡ sum us + shortfall amount us
unfolding greedy shortfall
greedy-sum amount [] = omega arith
greedy-sum amount (u ∷ us) = omega (arith, greedy-sum (amount - min u amount) us)

pub shortfall-sum : (amount : ℕ) (us : List ℕ) → shortfall amount us ≡ amount - sum us
unfolding shortfall
shortfall-sum amount [] = omega arith
shortfall-sum amount (u ∷ us) = omega (arith, shortfall-sum (amount - min u amount) us)

module _ (decimals : Decimals) (exact : Exact decimals) where
  open decimals use {Decimal, minus, lesser, is_zero}
  open exact use {IsQuantity, units, lesser_exact, minus_exact, is_zero_exact}

  abbrev pub Lot : Type 0
  Lot = WorkingLot decimals

  -- The candidates stand in the lots at their positions, which differ, and hold quantities.
  pub record AreCandidates (lots : List Lot) (cs : List (ℕ × Lot)) : Type 0 where
    pub placed : All (λ c. get_elem? lots c.0 ≡ some c.1) cs
    pub apart : AllPairs (λ (c d : ℕ × Lot). c.0 ≢ d.0) cs
    pub held : All (λ (c : ℕ × Lot). IsQuantity c.1.remaining) cs

  abbrev pub units_at : List Lot → ℕ → ℕ
  units_at lots i = elim (get_elem? lots i) [ none ↦ 0 | some lot ↦ units lot.remaining ]

  -- One lot: what is taken is the lesser of the two quantities.
  taken_exact :
      (a b : Decimal)
      → IsQuantity a
      → IsQuantity b
      → (IsQuantity (minus a (lesser a b))
          × (units (minus a (lesser a b)) ≡ units a - min (units a) (units b)))
        × (IsQuantity (minus b (lesser a b))
            × (units (minus b (lesser a b)) ≡ units b - min (units a) (units b)))
  taken_exact a b qa qb =
      let (ql, l) = lesser_exact a b qa qb in
      let (qx, x) = minus_exact a (lesser a b) qa ql (omega arith) in
      let (qy, y) = minus_exact b (lesser a b) qb ql (omega arith) in
      ((qx, omega arith), (qy, omega arith))

  placed_frame :
      (lots : List Lot) (i : ℕ) (lot : Lot) (cs : List (ℕ × Lot))
      → All (λ (c : ℕ × Lot). i ≢ c.0) cs
      → All (λ c. get_elem? lots c.0 ≡ some c.1) cs
      → All (λ c. get_elem? (set lots i lot) c.0 ≡ some c.1) cs
  placed_frame lots i lot cs others placed =
      All-imp₂ _ _ _ cs (λ c ne p. get_elem?-set_ne lots i c.0 lot ne ∙ p) others placed

  -- Lots that are no candidates stay as they are.
  pub consume_lots-frame :
      (cs : List (ℕ × Lot)) (s : Consumption decimals) (j : ℕ)
      → All (λ (c : ℕ × Lot). c.0 ≢ j) cs
      → get_elem? (consume_lots decimals cs s).lots j ≡ get_elem? s.lots j
  unfolding consume_lots consume_lot
  consume_lots-frame [] s j h = refl
  consume_lots-frame ((i, lot) ∷ cs) s j h = ground (
    arith,
    consume_lots-frame cs (consume_lot decimals i lot s) j h.1,
    get_elem?-set_ne s.lots i j
        (record lot { remaining = minus lot.remaining (lesser lot.remaining s.remaining) }) h.0,
  )

  -- The candidates after the first one, once it has been consumed.
  AreCandidates-rest :
      (s : Consumption decimals) (i : ℕ) (lot : Lot) (cs : List (ℕ × Lot))
      → AreCandidates s.lots ((i, lot) ∷ cs)
      → AreCandidates (consume_lot decimals i lot s).lots cs
  unfolding consume_lot
  AreCandidates-rest s i lot cs c = record {
    placed = placed_frame s.lots i _ cs c.apart.0 c.placed.1;
    apart = c.apart.1;
    held = c.held.1;
  }

  units_kept :
      (lots : List Lot) (cs : List (ℕ × Lot))
      → All (λ c. get_elem? lots c.0 ≡ some c.1) cs
      → map (λ c. units_at lots c.0) cs ≡ map (λ c. units c.1.remaining) cs
  units_kept lots [] h = refl
  units_kept lots (c ∷ cs) h = ground (arith, units_kept lots cs h.1)

  consume_lot_exact :
      (s : Consumption decimals) (i : ℕ) (lot : Lot)
      → get_elem? s.lots i ≡ some lot
      → IsQuantity lot.remaining
      → IsQuantity s.remaining
      → let s' = consume_lot decimals i lot s in
        IsQuantity s'.remaining
        × (units s'.remaining ≡ units s.remaining - min (units lot.remaining) (units s.remaining))
        × (units_at s'.lots i ≡ units lot.remaining - min (units lot.remaining) (units s.remaining))
  unfolding consume_lot
  consume_lot_exact s i lot here ql qs =
      let ((qx, x), (qy, y)) = taken_exact lot.remaining s.remaining ql qs in
      (
        qy,
        y,
        ground (
          arith,
          get_elem?-set_self s.lots i lot
              (record lot { remaining = minus lot.remaining (lesser lot.remaining s.remaining) }),
        ),
      )

  consume_lots-stop :
      (i : ℕ) (lot : Lot) (cs : List (ℕ × Lot)) (s : Consumption decimals)
      → is_zero s.remaining ≡ true
      → consume_lots decimals ((i, lot) ∷ cs) s ≡ s
  unfolding consume_lots
  consume_lots-stop i lot cs s h = rw h

  consume_lots-go :
      (i : ℕ) (lot : Lot) (cs : List (ℕ × Lot)) (s : Consumption decimals)
      → is_zero s.remaining ≡ false
      → consume_lots decimals ((i, lot) ∷ cs) s
        ≡ consume_lots decimals cs (consume_lot decimals i lot s)
  unfolding consume_lots
  consume_lots-go i lot cs s h = rw h

  abbrev pub remaining_units : List (ℕ × Lot) → List ℕ
  remaining_units = map (λ c. units c.1.remaining)

  -- From `s` to `r` the candidates gave greedily.
  pub record TookGreedily (cs : List (ℕ × Lot)) (s r : Consumption decimals) : Type 0 where
    pub left : map (λ c. units_at r.lots c.0) cs ≡ greedy (units s.remaining) (remaining_units cs)
    pub short : units r.remaining ≡ shortfall (units s.remaining) (remaining_units cs)
    pub quantity : IsQuantity r.remaining

  TookGreedily-stop :
      (cs : List (ℕ × Lot)) (s : Consumption decimals)
      → AreCandidates s.lots cs
      → IsQuantity s.remaining
      → units s.remaining ≡ 0
      → TookGreedily cs s s
  TookGreedily-stop cs s c q nothing = record {
    left = units_kept s.lots cs c.placed ∙ rw nothing (sym (greedy-zero (remaining_units cs)));
    short = rw nothing (sym (shortfall-zero (remaining_units cs)));
    quantity = q;
  }

  TookGreedily-go :
      (i : ℕ) (lot : Lot) (cs : List (ℕ × Lot)) (s : Consumption decimals)
      → AreCandidates s.lots ((i, lot) ∷ cs)
      → IsQuantity s.remaining
      → TookGreedily cs
          (consume_lot decimals i lot s)
          (consume_lots decimals cs (consume_lot decimals i lot s))
      → TookGreedily ((i, lot) ∷ cs) s (consume_lots decimals cs (consume_lot decimals i lot s))
  unfolding greedy shortfall
  TookGreedily-go i lot cs s c q t =
      let (q', less, here) = consume_lot_exact s i lot c.placed.0 c.held.0 q in
      let frame =
        consume_lots-frame cs (consume_lot decimals i lot s) i
          (All-imp _ _ cs (λ d ne e. ne (sym e)) c.apart.0) in
      record {
        left = ap₂ ◌∷◌ (ground (arith, frame, here)) (t.left ∙ rw less refl);
        short = t.short ∙ rw less refl;
        quantity = t.quantity;
      }

  -- The loop leaves every candidate, and the quantity that is still to take, as the specification does.
  pub consume_lots-TookGreedily :
      (cs : List (ℕ × Lot)) (s : Consumption decimals)
      → AreCandidates s.lots cs
      → IsQuantity s.remaining
      → TookGreedily cs s (consume_lots decimals cs s)
  consume_lots-TookGreedily [] s c q =
      unfold consume_lots greedy shortfall in record { left = refl; short = refl; quantity = q }
  consume_lots-TookGreedily ((i, lot) ∷ cs) s c q = elim (Bool-cases (is_zero s.remaining)) [
    | inl done ↦
        subst (TookGreedily ((i, lot) ∷ cs) s) (sym (consume_lots-stop i lot cs s done))
          (TookGreedily-stop ((i, lot) ∷ cs) s c q (ground (arith, is_zero_exact s.remaining q)))
    | inr more ↦
        let (q', less, here) = consume_lot_exact s i lot c.placed.0 c.held.0 q in
        subst (TookGreedily ((i, lot) ∷ cs) s) (sym (consume_lots-go i lot cs s more)) (
          TookGreedily-go i lot cs s c q (
            consume_lots-TookGreedily cs (consume_lot decimals i lot s)
              (AreCandidates-rest s i lot cs c) q'))
  ]
