-- ===== src/Lifecycle/Events.antt =====
-- `sameAssetIdentity`, `deriveLifecycleQuantity` and `resolveObservedValue` (api/src/domain/lifecycle.ts). `none` is where
-- decimal.js rejects a text; `locale_le` is `localeCompare` as the test "not after".
use cryptotracker.Base.{
  is_truthy, same_text, ℕ, ltb, ◌==◌, String, Bool, true, false, ◌&&◌, ◌||◌, not, Option, none,
  some, List, [], ◌∷◌, ◌++◌, ◌>>=◌, if◌then◌else◌, str_eq, get_or_else, length,
}
use cryptotracker.Base.Sorting.{sort}
use cryptotracker.Base.Decimals.{Decimals}

pub record AssetIdentity : Type 0 where
  pub canonical_id : String
  pub symbol : String
  pub network : Option String
  pub contract_or_mint : Option String
  pub stablecoin : Bool

pub data LifecycleEventType : Type 0 where
  migration redenomination swap fork delisting : LifecycleEventType

pub record LifecycleEvent : Type 0 where
  pub id : String
  pub event_type : LifecycleEventType
  pub source_asset_id : String
  pub destination_asset_id : Option String
  pub effective_at_ms : ℕ
  pub conversion_ratio : Option String

pub record LifecycleQuantity : Type 0 where
  pub asset_id : String
  pub quantity : String
  pub is_derived : Bool
  pub applied_event_ids : List String

pub record ObservedValue : Type 0 where
  pub value : Option String
  pub priced : Bool
  pub reason : Option String

unfoldable pub same_asset_identity : AssetIdentity → AssetIdentity → Bool
same_asset_identity left right =
    str_eq left.canonical_id right.canonical_id
    && same_text left.network right.network
    && same_text left.contract_or_mint right.contract_or_mint

-- `['migration', 'redenomination', 'swap'].includes(event.eventType)`
abbrev pub converts : LifecycleEventType → Bool
converts migration = true
converts redenomination = true
converts swap = true
converts _ = false

-- The events that the loop does not skip.
unfoldable pub applies : ℕ → String → LifecycleEvent → Bool
applies timestamp_ms current event =
    not (ltb timestamp_ms event.effective_at_ms)
    && str_eq event.source_asset_id current
    && is_truthy event.destination_asset_id
    && is_truthy event.conversion_ratio
    && converts event.event_type

abbrev pub event_le : (String → String → Bool) → LifecycleEvent → LifecycleEvent → Bool
event_le locale_le left right =
    ltb left.effective_at_ms right.effective_at_ms
    || (left.effective_at_ms == right.effective_at_ms && locale_le left.id right.id)

module _ (decimals : Decimals) where
  open decimals use {Decimal, parse, show, times}

  -- The variables of the loop.
  pub record Holding : Type 0 where
    pub asset_id : String
    pub quantity : Decimal
    pub applied_event_ids : List String

  unfoldable pub apply_one : LifecycleEvent → Holding → Option Holding
  apply_one event h = do
    ratio ← parse (get_or_else event.conversion_ratio "")
    some (record {
      asset_id = get_or_else event.destination_asset_id "";
      quantity = times h.quantity ratio;
      applied_event_ids = h.applied_event_ids ++ event.id ∷ [];
    })

  unfoldable pub apply_all : ℕ → List LifecycleEvent → Holding → Option Holding
  unfolding applies apply_one
  apply_all timestamp_ms [] h = some h
  apply_all timestamp_ms (event ∷ events) h = elim (applies timestamp_ms h.asset_id event) [
    | false ↦ apply_all timestamp_ms events h
    | true ↦ elim (apply_one event h) [
      | none ↦ none
      | some next ↦ apply_all timestamp_ms events next
    ]
  ]

  unfoldable pub derive_lifecycle_quantity :
      (String → String → Bool)
      → String
      → String
      → ℕ
      → List LifecycleEvent
      → Option LifecycleQuantity
  unfolding apply_all sort
  derive_lifecycle_quantity locale_le asset_id quantity_text timestamp_ms events = do
    quantity ← parse quantity_text
    h ←
        apply_all timestamp_ms (sort (event_le locale_le) events)
          (record { asset_id = asset_id; quantity = quantity; applied_event_ids = [] })
    some (record {
      asset_id = h.asset_id;
      quantity = show h.quantity;
      is_derived = ltb 0 (length h.applied_event_ids);
      applied_event_ids = h.applied_event_ids;
    })

  unfoldable pub resolve_observed_value :
      AssetIdentity → String → Option String → Option ObservedValue
  resolve_observed_value asset quantity none = some (record {
    value = none;
    priced = false;
    reason = some (
        if asset.stablecoin
        then "Stablecoin has no observed price; its named peg is not assumed."
        else "Asset has no trustworthy observed price.");
  })
  resolve_observed_value asset quantity (some price_text) = do
    amount ← parse quantity
    price ← parse price_text
    some (record { value = some (show (times amount price)); priced = true; reason = none })
