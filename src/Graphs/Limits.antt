-- ===== src/Graphs/Limits.antt =====
-- The bounds and the event markers that a graph shows (api/src/domain/graphs.ts).
use mathlib.Core.List.{Perm}
use cryptotracker.Base.{
  ◌≤◌, ◌≡◌, ◌⊎◌, inl, inr, refl, sym, ap, subst, ◌∙◌, String, Bool, true, false, ◌&&◌, ◌||◌, not,
  Option, none, some, List, [], ◌∷◌, arith, AllPairs, any, filter, str_eq, Bool-cases,
  some_injective, >>=-eq-some,
}
use cryptotracker.Base.Sorting.{sort-perm, sort-AllPairs_by}
use cryptotracker.Base.Decimals.{Decimals, least, greatest}
use cryptotracker.Graphs.Series.{
  BoundSetting, Bounds, EventMarker, filter_event_markers, parse_all, judge_bounds, judge_resolved,
  bounds_of, resolve_bounds,
}

abbrev pub is_enabled : List String → EventMarker → Bool
is_enabled categories event = any (λ category. str_eq category event.category) categories

abbrev pub Sooner : EventMarker → EventMarker → Type 0
Sooner e f = e.timestamp_ms ≤ f.timestamp_ms

-- The markers are exactly those of the enabled categories, each as often as it was given, and in the order of
-- their times, whatever the locale's order of the ids is.
filter_event_markers-perm :
    (locale_le : String → String → Bool) (events : List EventMarker) (categories : List String)
    → Perm
        (filter_event_markers locale_le events categories)
        (filter (is_enabled categories) events)
      × AllPairs Sooner (filter_event_markers locale_le events categories)
unfolding filter_event_markers
filter_event_markers-perm locale_le events categories = (
  sort-perm _ (filter (is_enabled categories) events),
  sort-AllPairs_by Sooner _ (λ x y h. ground (arith, h)) (λ x y h. ground (arith, h))
      (λ x y z h k. omega arith) (filter (is_enabled categories) events),
)

module _ (decimals : Decimals) where
  open decimals use {Decimal, show, of_ℕ, at_least, greater_than}

  -- Bounds that were found valid: both are shown, in order, and positive on a logarithmic scale; or there was nothing
  -- to bound.
  pub record IsValidBounds (log_scale : Bool) (bounds : Bounds) : Type 0 where
    pub low : Decimal
    pub high : Decimal
    pub shows_low : bounds.minimum ≡ some (show low)
    pub shows_high : bounds.maximum ≡ some (show high)
    pub in_order : at_least low high ≡ false
    pub positive :
        (log_scale ≡ false)
        ⊎ ((greater_than low (of_ℕ 0) ≡ true) × (greater_than high (of_ℕ 0) ≡ true))

  judge_bounds-IsValidBounds :
      (log_scale : Bool) (low high : Decimal)
      → (judge_bounds decimals log_scale low high).valid ≡ true
      → IsValidBounds log_scale (judge_bounds decimals log_scale low high)
  unfolding judge_bounds
  judge_bounds-IsValidBounds log_scale low high h = elim (Bool-cases (at_least low high)) [
    | inl e ↦ absurd (ground (arith, e, h))
    | inr e ↦
        elim (Bool-cases
          (log_scale && (not (greater_than low (of_ℕ 0)) || not (greater_than high (of_ℕ 0))))) [
            | inl f ↦ absurd (ground (arith, e, f, h))
            | inr f ↦
                let positive : (log_scale ≡ false)
                    ⊎ ((greater_than low (of_ℕ 0) ≡ true) × (greater_than high (of_ℕ 0) ≡ true)) =
                  ground (arith, f) in
                rw (e, f)
                  (record {
                    low = low;
                    high = high;
                    shows_low = refl;
                    shows_high = refl;
                    in_order = e;
                    positive = positive;
                  })
          ]
  ]

  judge_resolved-IsValidBounds :
      (log_scale : Bool) (low high : Option Decimal)
      → (judge_resolved decimals log_scale low high).valid ≡ true
      → IsValidBounds log_scale (judge_resolved decimals log_scale low high)
  unfolding judge_resolved
  judge_resolved-IsValidBounds log_scale none high h = absurd (ground (arith, h))
  judge_resolved-IsValidBounds log_scale (some low) none h = absurd (ground (arith, h))
  judge_resolved-IsValidBounds log_scale (some low) (some high) h =
      judge_bounds-IsValidBounds log_scale low high h

  bounds_of-IsValidBounds :
      (data_minimum data_maximum : Decimal) (minimum maximum : BoundSetting) (log_scale : Bool)
      → (bounds_of decimals data_minimum data_maximum minimum maximum log_scale).valid ≡ true
      → IsValidBounds log_scale
          (bounds_of decimals data_minimum data_maximum minimum maximum log_scale)
  unfolding bounds_of
  bounds_of-IsValidBounds data_minimum data_maximum minimum maximum log_scale h =
      judge_resolved-IsValidBounds log_scale _ _ h

  -- The bounds of parsed values.
  abbrev limits : BoundSetting → BoundSetting → Bool → List Decimal → Bounds
  limits minimum maximum log_scale values = elim values [
    | [] ↦ record { valid = true; minimum = none; maximum = none; reason = none }
    | value ∷ others ↦
        bounds_of decimals (least decimals value others) (greatest decimals value others) minimum
          maximum log_scale
  ]

  -- When the bounds of a graph with data resolve and are said to be valid, they are two shown decimals, the lower
  -- below the upper, and both are positive when the scale is logarithmic.
  resolve_bounds-IsValidBounds :
      (text : String) (texts : List String) (minimum maximum : BoundSetting) (log_scale : Bool)
      (bounds : Bounds)
      → resolve_bounds decimals (text ∷ texts) minimum maximum log_scale ≡ some bounds
      → bounds.valid ≡ true
      → IsValidBounds log_scale bounds
  unfolding resolve_bounds parse_all
  resolve_bounds-IsValidBounds text texts minimum maximum log_scale bounds h valid =
      let (values, parsed, h₁) = >>=-eq-some (parse_all decimals (text ∷ texts)) _ h in
      let (value, _, h₂) = >>=-eq-some (decimals.parse text) _ parsed in
      let (others, _, h₃) = >>=-eq-some (parse_all decimals texts) _ h₂ in
      let h₄ =
        subst (λ vs. some (limits minimum maximum log_scale vs) ≡ some bounds)
          (sym (some_injective h₃)) h₁ in
      let e = some_injective h₄ in
      subst (IsValidBounds log_scale) e
        (bounds_of-IsValidBounds _ _ minimum maximum log_scale (ap (λ b. b.valid) e ∙ valid))
