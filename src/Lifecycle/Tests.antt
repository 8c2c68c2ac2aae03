-- ===== src/Lifecycle/Tests.antt =====
-- A run of the lifecycle of an asset (api/src/domain/lifecycle.ts) on whole numbers, and the theorem at it.
use Prim.Native.String.{compare}
use text.Mathlib.Text.{is_le}
use cryptotracker.Base.{
  String, ◌≡◌, ◌⊎◌, refl, Bool, true, false, none, some, List, [], ◌∷◌, arith, All,
}
use cryptotracker.Base.Whole.{whole}
use cryptotracker.Lifecycle.Events.{
  LifecycleEvent, LifecycleQuantity, migration, fork, derive_lifecycle_quantity,
}
use cryptotracker.Lifecycle.Applied.{derive_lifecycle_quantity-All}

abbrev text_le : String → String → Bool
text_le a b = is_le (compare a b)

abbrev events : List LifecycleEvent
events =
    record {
      id = "fork";
      event_type = fork;
      source_asset_id = "old";
      destination_asset_id = some "other";
      effective_at_ms = 5;
      conversion_ratio = some "1";
    }
    ∷ record {
      id = "move";
      event_type = migration;
      source_asset_id = "old";
      destination_asset_id = some "new";
      effective_at_ms = 10;
      conversion_ratio = some "1000";
    }
    ∷ []

moved : LifecycleQuantity
unfolding derive_lifecycle_quantity
moved = elim (derive_lifecycle_quantity whole text_le "old" "3" 20 events) [
  | none ↦ record { asset_id = ""; quantity = ""; is_derived = false; applied_event_ids = [] }
  | some r ↦ r
]

moved-quantity : moved.quantity ≡ "3000"
unfolding moved derive_lifecycle_quantity
moved-quantity = refl

abbrev IsMove : String → Type 0
IsMove id = id ≡ "move"

derive_lifecycle_quantity-All_example :
    All IsMove moved.applied_event_ids
    × ((moved.is_derived ≡ true) ⊎ ((moved.asset_id ≡ "old") × (moved.quantity ≡ "3")))
unfolding moved derive_lifecycle_quantity
derive_lifecycle_quantity-All_example =
    derive_lifecycle_quantity-All whole IsMove 20 text_le "old" "3" 3 events moved refl refl
      ((λ e. absurd (ground (arith, e))), ((λ e. refl), tt))
