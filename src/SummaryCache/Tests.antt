-- ===== src/SummaryCache/Tests.antt =====
-- A fill of the summary cache after a change (api/src/services/summary-cache.ts), and the theorems at it.

use cryptotracker.Base.{◌≤◌, ◌≡◌, refl, some, length, true}
use cryptotracker.SummaryCache.Fills.{
  waiting, versioning, checking, calling, loading, storing, effect, next, load_ended, fresh,
}
use cryptotracker.SummaryCache.History.{
  CacheWorld, empty, put_fill, proceed, announce, Reach, start, started, advanced, loaded,
  announced,
}
use cryptotracker.SummaryCache.Sound.{seen_of}
use cryptotracker.SummaryCache.Current.{Reach-IsCurrent, effect-seen_le}

abbrev in_waiting : CacheWorld
in_waiting = put_fill 1 (waiting 120000) (announce 5 empty)

abbrev in_storing : CacheWorld
in_storing = put_fill 1 (load_ended (some "{}") (loading true (some 5) 1)) (
    proceed 4 1 (calling true (some 5)) (
      proceed 3 1 (checking (some 5))
        (proceed 2 1 versioning (proceed 1 1 (waiting 120000) in_waiting))))

abbrev stored : CacheWorld
stored = proceed 1000 1 (storing (some 5) 1 "{}") in_storing

Reach-in_storing : Reach in_storing
unfolding effect next load_ended
Reach-in_storing =
    let before = started (announced start 5 (λ m. elim m [ ])) 0 1 refl in
    let locked = advanced before 1 1 (waiting 120000) refl in
    let versioned = advanced locked 2 1 versioning refl in
    let checked = advanced versioned 3 1 (checking (some 5)) refl in
    let called = advanced checked 4 1 (calling true (some 5)) refl in
    loaded called 1 (loading true (some 5) 1) (some "{}") refl

is_storing : in_storing.fills 1 ≡ some (storing (some 5) 1 "{}")
unfolding load_ended
is_storing = refl

lock_is_kept : in_storing.redis.lock ≡ some 1
unfolding effect
lock_is_kept = refl

Reach-IsCurrent_example : 1 ≡ length stored.issued
unfolding effect fresh
Reach-IsCurrent_example =
    Reach-IsCurrent (advanced Reach-in_storing 1000 1 (storing (some 5) 1 "{}") is_storing) 2000 5
      (record { summary = "{}"; generation = some 5; calculated_at_ms = 1000; seen = 1 }) refl refl
      refl

effect-seen_le_example :
    seen_of in_storing.redis.result
    ≤ seen_of (effect 1000 1 in_storing.redis (storing (some 5) 1 "{}")).result
effect-seen_le_example = effect-seen_le Reach-in_storing 1000 1 (storing (some 5) 1 "{}") is_storing
