-- ===== src/Market/Shape.antt =====
-- The shape of a candle derived from samples (api/src/domain/market.ts).
use cryptotracker.Base.{
  ℕ, suc, ◌≤◌, ltb, leb, ◌≡◌, refl, ap, subst, ◌∙◌, String, Bool, ◌||◌, Option, none, some, List,
  [], ◌∷◌, map, ◌>>=◌, arith, All, length, inl, inr, Bool-cases, some_injective, >>=-eq-some,
}
use cryptotracker.Base.Sorting.{sort, length-sort, All-sort}
use cryptotracker.Base.Decimals.{Decimals, Exact, least, greatest}
use cryptotracker.Market.Prices.{to_decimal, to_decimals}
use cryptotracker.Market.Candles.{
  PointSample, DerivedCandle, same_time, last_of, volumes_of, candle_of, derive_candle,
}

abbrev value_of : PointSample → String
value_of s = s.value

abbrev sooner : PointSample → PointSample → Bool
sooner l r = leb l.timestamp_ms r.timestamp_ms

module _ (decimals : Decimals) (exact : Exact decimals) where
  open decimals use {Decimal, show, lesser, greater}
  open exact use {IsQuantity, units, lesser_exact, greater_exact}

  -- The sample's value is on the grid.
  abbrev pub IsExactSample : PointSample → Type 0
  IsExactSample s = (v : Decimal) → to_decimal decimals s.value ≡ some v → IsQuantity v

  least-le :
      (first : Decimal) (others : List Decimal)
      → IsQuantity first
      → All IsQuantity others
      → All (λ v. units (least decimals first others) ≤ units v) (first ∷ others)
  least-le first [] q qs = (omega arith, tt)
  least-le first (other ∷ others) q qs =
      let (ql, l) = lesser_exact first other q qs.0 in
      let (le, rest) = least-le (lesser first other) others ql qs.1 in
      (omega (arith, le, l), (omega (arith, le, l), rest))

  greatest-ge :
      (first : Decimal) (others : List Decimal)
      → IsQuantity first
      → All IsQuantity others
      → All (λ v. units v ≤ units (greatest decimals first others)) (first ∷ others)
  greatest-ge first [] q qs = (omega arith, tt)
  greatest-ge first (other ∷ others) q qs =
      let (ql, l) = greater_exact first other q qs.0 in
      let (le, rest) = greatest-ge (greater first other) others ql qs.1 in
      (omega (arith, le, l), (omega (arith, le, l), rest))

  last_of-All :
      (P : Decimal → Type 0) (first : Decimal) (others : List Decimal)
      → All P (first ∷ others)
      → P (last_of decimals first others)
  last_of-All P first [] h = h.0
  last_of-All P first (other ∷ others) h = last_of-All P other others h.1

  to_decimals-IsQuantity :
      (samples : List PointSample) (values : List Decimal)
      → All IsExactSample samples
      → to_decimals decimals (map value_of samples) ≡ some values
      → All IsQuantity values × (length values ≡ length samples)
  unfolding to_decimals
  to_decimals-IsQuantity [] values h e =
      subst (λ vs. All IsQuantity vs × (length vs ≡ 0)) (some_injective e) (tt, refl)
  to_decimals-IsQuantity (s ∷ samples) values h e =
      let (v, e₁, e₂) = >>=-eq-some (to_decimal decimals s.value) _ e in
      let (vs, e₃, e₄) = >>=-eq-some (to_decimals decimals (map value_of samples)) _ e₂ in
      let (qs, l) = to_decimals-IsQuantity samples vs h.1 e₃ in
      subst (λ us. All IsQuantity us × (length us ≡ suc (length samples))) (some_injective e₄)
        ((h.0 v e₁, qs), ap suc l)

  -- The candle shows four numbers, of which the low is the least and the high the greatest, and counts samples.
  pub record IsCandle (count : ℕ) (candle : DerivedCandle) : Type 0 where
    pub opened : Decimal
    pub highest : Decimal
    pub lowest : Decimal
    pub closed : Decimal
    pub shows_open : candle.open_value ≡ show opened
    pub shows_high : candle.high ≡ show highest
    pub shows_low : candle.low ≡ show lowest
    pub shows_close : candle.close ≡ show closed
    pub low_open : units lowest ≤ units opened
    pub open_high : units opened ≤ units highest
    pub low_close : units lowest ≤ units closed
    pub close_high : units closed ≤ units highest
    pub counted : candle.sample_count ≡ count

  candle_of-IsCandle :
      (bucket : ℕ) (first : Decimal) (others volumes : List Decimal)
      → All IsQuantity (first ∷ others)
      → IsCandle (length (first ∷ others)) (candle_of decimals bucket first others volumes)
  unfolding candle_of
  candle_of-IsCandle bucket first others volumes qs =
      let lows = least-le first others qs.0 qs.1 in
      let highs = greatest-ge first others qs.0 qs.1 in
      record {
        opened = first;
        highest = greatest decimals first others;
        lowest = least decimals first others;
        closed = last_of decimals first others;
        shows_open = refl;
        shows_high = refl;
        shows_low = refl;
        shows_close = refl;
        low_open = lows.0;
        open_high = highs.0;
        low_close =
            last_of-All (λ v. units (least decimals first others) ≤ units v) first others lows;
        close_high =
            last_of-All (λ v. units v ≤ units (greatest decimals first others)) first others highs;
        counted = refl;
      }

  from_values :
      (bucket : ℕ) (values volumes : List Decimal) (candle : DerivedCandle) (count : ℕ)
      → All IsQuantity values
      → length values ≡ count
      → elim values as (λ vs. Option (Option DerivedCandle)) [
        | [] ↦ some none
        | first ∷ others ↦ some (some (candle_of decimals bucket first others volumes))
      ]
        ≡ some (some candle)
      → IsCandle count candle
  from_values bucket [] volumes candle count qs l e = absurd (ground (arith, e))
  from_values bucket (first ∷ others) volumes candle count qs l e =
      subst (IsCandle count) (some_injective (some_injective e)) (
        subst (λ n. IsCandle n (candle_of decimals bucket first others volumes)) l
          (candle_of-IsCandle bucket first others volumes qs))

  -- A candle derived from samples on the grid shows an open and a close between its low and its high, and counts
  -- every sample.
  pub derive_candle-IsCandle :
      (samples : List PointSample) (bucket : ℕ) (candle : DerivedCandle)
      → All IsExactSample samples
      → derive_candle decimals samples bucket ≡ some (some candle)
      → IsCandle (length samples) candle
  unfolding derive_candle
  derive_candle-IsCandle samples bucket candle h e =
      let ordered = sort sooner samples in
      elim (Bool-cases (ltb (length ordered) 2 || same_time decimals ordered)) [
        | inl few ↦ absurd (ground (arith, few, e))
        | inr enough ↦
            let e' : (to_decimals decimals (map value_of ordered) >>= λ values.
            to_decimals decimals (volumes_of decimals ordered) >>= λ volumes.
            elim values as (λ vs. Option (Option DerivedCandle)) [
              | [] ↦ some none
              | first ∷ others ↦ some (some (candle_of decimals bucket first others volumes))
            ])
                ≡ some (some candle) =
              rw (enough, derive_candle) at e in
            let (values, e₁, e₂) = >>=-eq-some (to_decimals decimals (map value_of ordered)) _ e' in
            let (volumes, _, e₃) =
              >>=-eq-some (to_decimals decimals (volumes_of decimals ordered)) _ e₂ in
            let (qs, l) =
              to_decimals-IsQuantity ordered values (All-sort IsExactSample sooner samples h) e₁ in
            from_values bucket values volumes candle (length samples) qs
              (l ∙ length-sort sooner samples) e₃
      ]
