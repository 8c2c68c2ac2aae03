-- ===== src/Balances/Coverage.antt =====
-- What a valuation lists and counts (api/src/domain/addresses.ts).
use cryptotracker.Base.{
  map-push, append_nil, push_append, ℕ, suc, ◌+◌, String, ◌≡◌, refl, sym, ap, ◌∙◌, Bool, not,
  Option, none, some, List, [], ◌∷◌, ◌++◌, map, arith, length, count, is_none, inl, inr,
  Option-cases, some_injective, ◌>>=◌, >>=-eq-some, subst, if◌then◌else◌,
}
use cryptotracker.Base.Decimals.{Decimals}
use cryptotracker.Balances.Value.{HoldingsValue, Valuation, value_one, value_all, value_holdings}

abbrev pub name_of : String × Option String → String
name_of v = v.0

abbrev pub asset_of : String × String → String
asset_of h = h.0

abbrev pub is_priced : (String → Option String) → String × String → Bool
is_priced price_of holding = not (is_none (price_of holding.0))

module _ (decimals : Decimals) (price_of : String → Option String) where
  abbrev priced_more : Valuation decimals → String → decimals.Decimal → Valuation decimals
  priced_more v asset value = record {
    total = decimals.plus v.total value;
    priced_assets = suc v.priced_assets;
    values = v.values ++ (asset, some (decimals.show value)) ∷ [];
  }

  -- From `v` to `w` one holding was valued.
  record IsOneMore (holding : String × String) (v w : Valuation decimals) : Type 0 where
    named : map name_of w.values ≡ map name_of v.values ++ holding.0 ∷ []
    counted :
        w.priced_assets
        ≡ (if is_priced price_of holding then suc v.priced_assets else v.priced_assets)

  value_one-IsOneMore :
      (holding : String × String) (v w : Valuation decimals)
      → value_one decimals price_of holding v ≡ some w
      → IsOneMore holding v w
  unfolding value_one
  value_one-IsOneMore (asset, quantity) v w h = elim (Option-cases (price_of asset)) [
    | inl e ↦
        let w' : Valuation decimals = record v { values = v.values ++ (asset, none) ∷ [] } in
        let same : w' ≡ w = some_injective (rw (e, value_one) at h) in
        subst (IsOneMore (asset, quantity) v) same
          (record { named = map-push name_of v.values (asset, none); counted = rw e refl })
    | inr (price, e) ↦
        let h' : (decimals.parse quantity >>= λ amount.
        decimals.parse price >>= λ unit. some (priced_more v asset (decimals.times amount unit)))
            ≡ some w =
          rw (e, value_one) at h in
        let (amount, _, h₁) = >>=-eq-some (decimals.parse quantity) _ h' in
        let (unit, _, h₂) = >>=-eq-some (decimals.parse price) _ h₁ in
        subst (IsOneMore (asset, quantity) v) (some_injective h₂)
          (record { named = map-push name_of v.values (asset, _); counted = rw e refl })
  ]

  abbrev priced_count : List (String × String) → ℕ
  priced_count = count (is_priced price_of)

  value_all-lists :
      (holdings : List (String × String)) (v w : Valuation decimals)
      → value_all decimals price_of holdings v ≡ some w
      → (map name_of w.values ≡ map name_of v.values ++ map asset_of holdings)
        × (w.priced_assets ≡ v.priced_assets + priced_count holdings)
  unfolding value_all
  value_all-lists [] v w h =
      let same : v ≡ w = some_injective h in
      subst
        (λ u.
          (map name_of u.values ≡ map name_of v.values ++ [])
          × (u.priced_assets ≡ v.priced_assets + 0))
        same (sym (append_nil (map name_of v.values)), omega arith)
  value_all-lists (holding ∷ holdings) v w h =
      elim (Option-cases (value_one decimals price_of holding v)) [
        | inl e ↦ absurd (ground (arith, h, e))
        | inr (next, e) ↦
            let one = value_one-IsOneMore holding v next e in
            let (names, counts) = value_all-lists holdings next w (rw (e, value_all) at h) in
            let counted = one.counted in
            (
              names
                  ∙ ap (λ xs. xs ++ map asset_of holdings) one.named
                  ∙ push_append (map name_of v.values) holding.0 (map asset_of holdings),
              counts ∙ ground (arith, counted),
            )
      ]

  -- A valuation lists every asset of the holdings, in their order and once for each, with or without a price, and
  -- counts those that have one: the coverage is of all assets, not of the priced ones.
  value_holdings-lists :
      (quantities : List (String × String)) (value : HoldingsValue)
      → value_holdings decimals quantities price_of ≡ some value
      → (map name_of value.values ≡ map asset_of quantities)
        × (value.priced_assets ≡ count (is_priced price_of) quantities)
        × (value.total_assets ≡ length quantities)
  unfolding value_holdings
  value_holdings-lists quantities value h =
      let (v, e, h₁) =
        >>=-eq-some
          (value_all decimals price_of quantities
            (record { total = decimals.of_ℕ 0; priced_assets = 0; values = [] }))
          _ h in
      let (names, counts) = value_all-lists quantities _ v e in
      let same = some_injective h₁ in
      (
        sym (ap (λ (u : HoldingsValue). map name_of u.values) same) ∙ names,
        sym (ap (λ (u : HoldingsValue). u.priced_assets) same) ∙ counts ∙ omega arith,
        sym (ap (λ (u : HoldingsValue). u.total_assets) same),
      )
