-- ===== src/SummaryCache/History.antt =====
-- Histories of the fills of the summary cache (api/src/services/summary-cache.ts), and of what Redis holds of one key.
use mathlib.Core.List.{Memᴰ}
use cryptotracker.Base.{
  ℕ, ◌+◌, ◌==◌, ◌≡◌, Bool, true, false, String, Option, none, some, List, [], ◌∷◌, length,
  if◌then◌else◌,
}
use cryptotracker.SummaryCache.Fills.{
  Redis, Phase, waiting, effect, next, failed, load_ended, lock_for_ms,
}

-- The fills by their owners, and all generations that were announced, the last one first.
pub record CacheWorld : Type 0 where
  pub redis : Redis
  pub fills : ℕ → Option Phase
  pub issued : List ℕ

abbrev pub empty : CacheWorld
empty = record {
  redis = record { lock = none; generation = none; result = none };
  fills = λ _. none;
  issued = [];
}

abbrev pub put_fill : ℕ → Phase → CacheWorld → CacheWorld
put_fill owner phase w = record w { fills = λ o. if o == owner then some phase else w.fills o }

abbrev pub take_effect : ℕ → ℕ → Phase → CacheWorld → CacheWorld
take_effect now owner phase w = record w { redis = effect now owner w.redis phase }

-- The awaited command of a fill is answered.
abbrev pub proceed : ℕ → ℕ → Phase → CacheWorld → CacheWorld
proceed now owner phase w =
    put_fill owner (next now owner (length w.issued) w.redis phase) (take_effect now owner phase w)

-- It throws, before or after it took effect.
abbrev pub fail : Bool → ℕ → ℕ → Phase → CacheWorld → CacheWorld
fail true now owner phase w = put_fill owner (failed phase) (take_effect now owner phase w)
fail false now owner phase w = put_fill owner (failed phase) w

-- `refreshAffected` announces a change by a new random generation.
abbrev pub announce : ℕ → CacheWorld → CacheWorld
announce generation w = record w {
  redis = record w.redis { generation = some generation };
  issued = generation ∷ w.issued;
}

-- A key may expire at any time.
pub data Key : Type 0 where
  lock_key generation_key result_key : Key

abbrev pub expire : Key → Redis → Redis
expire lock_key redis = record redis { lock = none }
expire generation_key redis = record redis { generation = none }
expire result_key redis = record redis { result = none }

pub data Reach : CacheWorld → Type 0 where
  start : Reach empty
  started :
      {w : CacheWorld}
      → Reach w
      → (now owner : ℕ) → w.fills owner ≡ none
      → Reach (put_fill owner (waiting (now + lock_for_ms)) w)
  advanced :
      {w : CacheWorld}
      → Reach w
      → (now owner : ℕ) (phase : Phase) → w.fills owner ≡ some phase
      → Reach (proceed now owner phase w)
  thrown :
      {w : CacheWorld}
      → Reach w
      → (effective : Bool) (now owner : ℕ) (phase : Phase) → w.fills owner ≡ some phase
      → Reach (fail effective now owner phase w)
  loaded :
      {w : CacheWorld}
      → Reach w
      → (owner : ℕ) (phase : Phase) (summary : Option String) → w.fills owner ≡ some phase
      → Reach (put_fill owner (load_ended summary phase) w)
  announced :
      {w : CacheWorld}
      → Reach w
      → (generation : ℕ) → ¬ Memᴰ generation w.issued
      → Reach (announce generation w)
  expired :
      {w : CacheWorld} → Reach w → (key : Key) → Reach (record w { redis = expire key w.redis })
