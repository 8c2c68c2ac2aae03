-- ===== src/Lifecycle/Applied.antt =====
-- Which events a derived quantity rests on (api/src/domain/lifecycle.ts).
use cryptotracker.Base.{
  is_truthy, ℕ, ltb, ◌≡◌, refl, sym, ap, subst, String, Bool, true, ◌&&◌, some, List, [], ◌∷◌, ◌++◌,
  arith, All, length, length-append, All-append, not, ◌⊎◌, ◌<◌, get_or_else, ◌>>=◌, inl, inr,
  Bool-cases, Option-cases, some_injective, >>=-eq-some,
}
use cryptotracker.Base.Sorting.{sort, All-sort}
use cryptotracker.Base.Decimals.{Decimals}
use cryptotracker.Lifecycle.Events.{
  LifecycleEvent, LifecycleQuantity, converts, applies, event_le, Holding, apply_one, apply_all,
  derive_lifecycle_quantity,
}

-- An event that has taken effect and converts one asset into another.
abbrev pub is_effective : ℕ → LifecycleEvent → Bool
is_effective timestamp_ms event =
    not (ltb timestamp_ms event.effective_at_ms)
    && is_truthy event.destination_asset_id
    && is_truthy event.conversion_ratio
    && converts event.event_type

applies-is_effective :
    (time : ℕ) (asset : String) (event : LifecycleEvent)
    → applies time asset event ≡ true
    → is_effective time event ≡ true
unfolding applies
applies-is_effective time asset event h = ground (arith, h)

module _ (decimals : Decimals) (P : String → Type 0) (time : ℕ) where
  abbrev pub Covers : LifecycleEvent → Type 0
  Covers event = is_effective time event ≡ true → P event.id

  apply_one-All :
      (event : LifecycleEvent) (h h' : Holding decimals)
      → apply_one decimals event h ≡ some h'
      → P event.id
      → All P h.applied_event_ids
      → All P h'.applied_event_ids × (length h.applied_event_ids < length h'.applied_event_ids)
  unfolding apply_one
  apply_one-All event h h' e p all =
      let (ratio, _, e₁) =
        >>=-eq-some (decimals.parse (get_or_else event.conversion_ratio "")) _ e in
      let ids : h.applied_event_ids ++ event.id ∷ [] ≡ h'.applied_event_ids =
        ap (λ (k : Holding decimals). k.applied_event_ids) (some_injective e₁) in
      let size = length-append h.applied_event_ids (event.id ∷ []) in
      let same = ap length ids in
      (
        subst (All P) ids (All-append P h.applied_event_ids (event.id ∷ []) all (p, tt)),
        omega (arith, size, same),
      )

  abbrev result_of : Holding decimals → LifecycleQuantity
  result_of h = record {
    asset_id = h.asset_id;
    quantity = decimals.show h.quantity;
    is_derived = ltb 0 (length h.applied_event_ids);
    applied_event_ids = h.applied_event_ids;
  }

  -- Either nothing was applied, or there are more applied events.
  abbrev Outcome : Holding decimals → Holding decimals → Type 0
  Outcome h h' = (h' ≡ h) ⊎ (length h.applied_event_ids < length h'.applied_event_ids)

  apply_all-All :
      (events : List LifecycleEvent) (h h' : Holding decimals)
      → apply_all decimals time events h ≡ some h'
      → All Covers events
      → All P h.applied_event_ids
      → All P h'.applied_event_ids × Outcome h h'
  unfolding apply_all
  apply_all-All [] h h' e covers all =
      subst (λ k. All P k.applied_event_ids × Outcome h k) (some_injective e) (all, inl refl)
  apply_all-All (event ∷ events) h h' e covers all =
      elim (Bool-cases (applies time h.asset_id event)) [
        | inr skip ↦ apply_all-All events h h' (rw (skip, apply_all) at e) covers.1 all
        | inl go ↦ elim (Option-cases (apply_one decimals event h)) [
          | inl f ↦ absurd (ground (arith, e, f, go))
          | inr (next, f) ↦
              let (all', more) =
                apply_one-All event h next f
                  (covers.0 (applies-is_effective time h.asset_id event go)) all in
              let (all'', last) =
                apply_all-All events next h' (rw (go, f, apply_all) at e) covers.1 all' in
              (
                all'',
                elim last [
                  | inl same ↦ inr (
                      subst (λ k. length h.applied_event_ids < length k.applied_event_ids)
                        (sym same) more)
                  | inr later ↦ inr (omega (arith, more, later))
                ],
              )
        ]
      ]

  -- A derived quantity rests on events that convert and had taken effect by its time, in that every property of
  -- their ids holds of each applied id. Where it is not marked derived, the asset and its quantity are as they were.
  pub derive_lifecycle_quantity-All :
      (locale_le : String → String → Bool) (asset_id quantity_text : String)
      (quantity : decimals.Decimal) (events : List LifecycleEvent) (r : LifecycleQuantity)
      → decimals.parse quantity_text ≡ some quantity
      → derive_lifecycle_quantity decimals locale_le asset_id quantity_text time events ≡ some r
      → All Covers events
      → All P r.applied_event_ids
        × ((r.is_derived ≡ true)
            ⊎ ((r.asset_id ≡ asset_id) × (r.quantity ≡ decimals.show quantity)))
  unfolding derive_lifecycle_quantity
  derive_lifecycle_quantity-All locale_le asset_id quantity_text quantity events r read e covers =
      let from : Holding decimals = record {
        asset_id = asset_id;
        quantity = quantity;
        applied_event_ids = [];
      } in
      let e' : (apply_all decimals time (sort (event_le locale_le) events) from >>= λ h.
      some (result_of h))
          ≡ some r =
        rw (read, derive_lifecycle_quantity) at e in
      let (h, e₁, e₂) =
        >>=-eq-some (apply_all decimals time (sort (event_le locale_le) events) from) _ e' in
      let (all, outcome) =
        apply_all-All (sort (event_le locale_le) events) from h e₁
          (All-sort Covers (event_le locale_le) events covers) tt in
      subst
        (λ (q : LifecycleQuantity).
          All P q.applied_event_ids
          × ((q.is_derived ≡ true)
              ⊎ ((q.asset_id ≡ asset_id) × (q.quantity ≡ decimals.show quantity))))
        (some_injective e₂)
        (
          all,
          elim outcome [
            | inl same ↦ inr (
              ap (λ (k : Holding decimals). k.asset_id) same,
              ap (λ (k : Holding decimals). decimals.show k.quantity) same,
            )
            | inr more ↦ inl (ground (arith, more))
          ],
        )
