-- ===== src/Graphs/Tests.antt =====
-- Runs of the graph functions (api/src/domain/graphs.ts), and the theorems at them.

use cryptotracker.Base.{ℕ, String, ◌≡◌, refl, true, Option, none, some, List, [], ◌∷◌, Bool}
use cryptotracker.Base.Whole.{whole}
use cryptotracker.Graphs.Granularity.{resolve_auto_granularity, default_granularities}
use cryptotracker.Graphs.Buckets.{SeriesPoint, aggregate_line_points}
use cryptotracker.Graphs.Counts.{IsLine, aggregate_line_points-IsLine}
use cryptotracker.Graphs.Series.{auto, absolute, EventMarker, filter_event_markers, resolve_bounds}

one_week : resolve_auto_granularity 0 604800000 default_granularities ≡ 1800
unfolding resolve_auto_granularity
one_week = refl

abbrev point : ℕ → Option String → SeriesPoint
point time value = record { timestamp_ms = time; value = value }

abbrev points : List SeriesPoint
points =
    point 90000 (some "3") ∷ point 10000 (some "1") ∷ point 70000 none ∷ point 20000 (some "2") ∷ []

two_buckets :
    aggregate_line_points points 60
    ≡ record { timestamp_ms = 0; value = some "2"; sample_count = 2 }
      ∷ record { timestamp_ms = 60000; value = some "3"; sample_count = 1 }
      ∷ []
unfolding aggregate_line_points
two_buckets = refl

aggregate_line_points-IsLine_example : IsLine points 60000 (aggregate_line_points points 60)
aggregate_line_points-IsLine_example = aggregate_line_points-IsLine points 60

padded_bounds :
    resolve_bounds whole ("10" ∷ "30" ∷ []) (absolute "5") auto true
    ≡ some (record { valid = true; minimum = some "5"; maximum = some "30"; reason = none })
unfolding resolve_bounds
padded_bounds = refl

abbrev text_le : String → String → Bool
text_le left right = true

abbrev markers : List EventMarker
markers =
    record { id = "sale"; category = "trade"; timestamp_ms = 30 }
    ∷ record { id = "fee"; category = "fee"; timestamp_ms = 20 }
    ∷ record { id = "buy"; category = "trade"; timestamp_ms = 10 }
    ∷ []

trades_in_order :
    filter_event_markers text_le markers ("trade" ∷ [])
    ≡ record { id = "buy"; category = "trade"; timestamp_ms = 10 }
      ∷ record { id = "sale"; category = "trade"; timestamp_ms = 30 }
      ∷ []
unfolding filter_event_markers
trades_in_order = refl
