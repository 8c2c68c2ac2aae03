-- ===== src/Market/Preference.antt =====
-- Which observations a combined price rests on, and what its status says (api/src/domain/market.ts).
use cryptotracker.Base.{
  length-filter, length-map, sym, Option, ℕ, ◌<◌, ◌==◌, ◌≡◌, ◌↔◌, refl, ap, subst, ◌∙◌, String,
  Bool, true, false, some, List, [], ◌∷◌, map, arith, count, filter, length, inl, inr, Bool-cases,
  some_injective, >>=-eq-some, if◌then◌else◌,
}
use cryptotracker.Base.Sorting.{length-sort}
use cryptotracker.Base.Decimals.{Decimals}
use cryptotracker.Market.Median.{IsOrdered, IsMedian, median-IsMedian}
use cryptotracker.Market.Prices.{
  native, derived, fallback, disputed_status, missing, PriceObservation, CombinedValue, is_native,
  kind_of, status_of_kind, every, preferred_observations, median, provider_spread, is_disputed,
  missing_value, combine_usable, combine_price_observations,
}

abbrev pub native_test : PriceObservation → Bool
native_test o = is_native o.data_kind

every-filter {ℓ} : {A : Type ℓ} (test : A → Bool) (xs : List A) → every test (filter test xs) ≡ true
every-filter test [] = refl
every-filter test (x ∷ xs) = elim (Bool-cases (test x)) [
  | inl e ↦ ground (arith, e, every-filter test xs)
  | inr e ↦ ground (arith, e, every-filter test xs)
]

every-false {ℓ} :
    {A : Type ℓ} (test : A → Bool) (xs : List A)
    → count test xs ≡ 0
    → 0 < length xs
    → every test xs ≡ false
every-false test [] none_of positive = absurd (omega arith)
every-false test (x ∷ xs) none_of positive = ground (arith, none_of)

module _ (decimals : Decimals) (text_le : String → String → Bool) (threshold : ℕ) where
  -- The price is the median of the prices of all the observations that count.
  abbrev pub price_of : PriceObservation → String
  price_of o = o.value

  pub record IsPriced (usable : List PriceObservation) (value : Option String) : Type 0 where
    pub values : List decimals.Decimal
    pub price : decimals.Decimal
    pub read : map (λ (o : PriceObservation). decimals.parse o.value) usable ≡ map some values
    pub shown : value ≡ some (decimals.show price)
    pub median : IsMedian decimals values price

  median_of_usable :
      IsOrdered decimals
      → (usable : List PriceObservation) (value : Option String) → 0 < length (map price_of usable)
      → median decimals (map price_of usable) ≡ some value
      → IsPriced usable value
  median_of_usable order usable value positive e =
      let (values, price, read, shown, is_median) =
        median-IsMedian decimals order (map price_of usable) value positive e in
      record {
        values = values;
        price = price;
        read = sym (map-map price_of usable) ∙ read;
        shown = shown;
        median = is_median;
      }
    where
      map-map :
          (f : PriceObservation → String) (os : List PriceObservation)
          → map decimals.parse (map f os) ≡ map (λ o. decimals.parse (f o)) os
      map-map f [] = refl
      map-map f (o ∷ os) = ap (λ l. decimals.parse (f o) ∷ l) (map-map f os)

  record FromUsable (usable : List PriceObservation) (c : CombinedValue) : Type 0 where
    judged : c.status ≡ (
        if c.disputed
        then disputed_status
        else if length usable == 1
        then fallback
        else status_of_kind (kind_of (every native_test usable)))
    kind : c.data_kind ≡ some (kind_of (every native_test usable))
    named : length c.providers ≡ length usable
    priced : 0 < length usable → IsPriced usable c.value

  combine_usable-FromUsable :
      IsOrdered decimals
      → (usable : List PriceObservation) (c : CombinedValue)
      → combine_usable decimals text_le threshold usable ≡ some c
      → FromUsable usable c
  unfolding combine_usable
  combine_usable-FromUsable order usable c e =
      let texts = map (λ (o : PriceObservation). o.value) usable in
      let (value, middle, e₁) = >>=-eq-some (median decimals texts) _ e in
      let (spread, _, e₂) = >>=-eq-some (provider_spread decimals texts) _ e₁ in
      let (disputed, _, e₃) = >>=-eq-some (is_disputed decimals threshold spread) _ e₂ in
      subst (FromUsable usable) (some_injective e₃) (record {
        judged = refl;
        kind = refl;
        named = length-sort text_le (map provider_of usable) ∙ length-map provider_of usable;
        priced = λ positive.
            median_of_usable order usable value
              (omega (arith, positive, length-map price_of usable)) middle;
      })
    where
      provider_of : PriceObservation → String
      provider_of o = o.provider

  -- What a combined price says of the observations that it was made from.
  pub record IsCombined (observations : List PriceObservation) (c : CombinedValue) : Type 0 where
    pub missing_iff : (c.status ≡ missing) ↔ (length observations ≡ 0)
    pub disputed_iff : (c.status ≡ disputed_status) ↔ (c.disputed ≡ true)
    pub of_native : 0 < count native_test observations → c.data_kind ≡ some native
    pub of_derived :
        count native_test observations ≡ 0 → 0 < length observations → c.data_kind ≡ some derived
    pub contributors : length c.providers ≡ (
        if count native_test observations == 0
        then length observations
        else count native_test observations)
    pub priced :
        0 < length observations
        → IsPriced
            (if count native_test observations == 0
              then observations
              else filter native_test observations)
            c.value

  preferred-some :
      (observations : List PriceObservation)
      → 0 < length observations
      → 0 < length (preferred_observations observations)
  unfolding preferred_observations
  preferred-some observations positive = ground (arith, positive)

  from_some :
      (observations : List PriceObservation) (c : CombinedValue)
      → 0 < length observations
      → FromUsable (preferred_observations observations) c
      → IsCombined observations c
  unfolding preferred_observations
  from_some observations c positive f =
      let usable_some : 0 < length (preferred_observations observations) =
        preferred-some observations positive in
      elim (Bool-cases (count native_test observations == 0)) [
        | inl no_native ↦
            let size = length-filter native_test observations in
            let usable : preferred_observations observations ≡ observations =
              ground (arith, no_native, size) in
            let none_native : every native_test observations ≡ false =
              every-false native_test observations (ground (arith, no_native)) positive in
            let kind : c.data_kind ≡ some derived =
              f.kind
              ∙ ap (λ os. some (kind_of (every native_test os))) usable
              ∙ ap (λ b. some (kind_of b)) none_native in
            let judged = f.judged in
            let named = f.named ∙ ap length usable in
            record {
              missing_iff = (
                (λ s. absurd (ground (arith, s, judged))),
                (λ z. absurd (omega (arith, z, positive))),
              );
              disputed_iff = ground (arith, judged);
              of_native = λ some_native. absurd (ground (arith, no_native, some_native));
              of_derived = λ a b. kind;
              contributors = named ∙ ground (arith, no_native);
              priced = λ _.
                  rw no_native (subst (λ os. IsPriced os c.value) usable (f.priced usable_some));
            }
        | inr some_native ↦
            let size = length-filter native_test observations in
            let usable : preferred_observations observations ≡ filter native_test observations =
              ground (arith, some_native, size) in
            let kind : c.data_kind ≡ some native =
              f.kind
              ∙ ap (λ os. some (kind_of (every native_test os))) usable
              ∙ ap (λ b. some (kind_of b)) (every-filter native_test observations) in
            let judged = f.judged in
            let named = f.named ∙ ap length usable ∙ size in
            record {
              missing_iff = (
                (λ s. absurd (ground (arith, s, judged))),
                (λ z. absurd (omega (arith, z, positive))),
              );
              disputed_iff = ground (arith, judged);
              of_native = λ a. kind;
              of_derived = λ z a. absurd (ground (arith, some_native, z));
              contributors = named ∙ ground (arith, some_native);
              priced = λ _.
                  rw some_native (subst (λ os. IsPriced os c.value) usable (f.priced usable_some));
            }
      ]

  from_none : (c : CombinedValue) → missing_value decimals ≡ c → IsCombined [] c
  from_none c e = subst (IsCombined []) e (record {
    missing_iff = ((λ s. refl), (λ z. refl));
    disputed_iff = ground arith;
    of_native = λ a. absurd (omega (arith, a));
    of_derived = λ a b. absurd (omega (arith, b));
    contributors = refl;
    priced = λ a. absurd (omega (arith, a));
  })

  -- A combined price is of the native observations alone where there are any, and of all the others where there are
  -- none, and is the median of their prices, given that decimal.js orders finite numbers; it is missing exactly where there is no observation, and its status says a dispute exactly when it is one.
  pub combine_price_observations-IsCombined :
      IsOrdered decimals
      → (observations : List PriceObservation) (c : CombinedValue)
      → combine_price_observations decimals text_le threshold observations ≡ some c
      → IsCombined observations c
  unfolding combine_price_observations preferred_observations
  combine_price_observations-IsCombined order [] c e = from_none c (some_injective e)
  combine_price_observations-IsCombined order (o ∷ observations) c e =
      let some_usable = preferred-some (o ∷ observations) (omega arith) in
      let e' : combine_usable decimals text_le threshold (preferred_observations (o ∷ observations))
          ≡ some c =
        ground (arith, e, some_usable) in
      from_some (o ∷ observations) c (omega arith)
        (combine_usable-FromUsable order (preferred_observations (o ∷ observations)) c e')
