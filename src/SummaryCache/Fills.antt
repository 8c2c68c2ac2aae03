-- ===== src/SummaryCache/Fills.antt =====
-- `runFill` of the summary cache (api/src/services/summary-cache.ts): fills of one request at one epoch, by any number of
-- replicas, over the keys that Redis holds of it. A fill is cut at its awaits, so that fills interleave.
use cryptotracker.Base.{
  ℕ, ◌+◌, ltb, leb, ◌==◌, Bool, true, false, ◌&&◌, String, Option, none, some, if◌then◌else◌,
}

-- A generation is a random id, or none for the key that is not there, which the source reads as ''. `seen` is no data of
-- the source: it counts the changes that were announced before the load of the summary began.
pub record CacheEntry : Type 0 where
  pub summary : String
  pub generation : Option ℕ
  pub calculated_at_ms : ℕ
  pub seen : ℕ

pub record Redis : Type 0 where
  pub lock : Option ℕ  -- the owner of the lock
  pub generation : Option ℕ
  pub result : Option CacheEntry

abbrev pub fresh_for_ms : ℕ
fresh_for_ms = 60000

abbrev pub lock_for_ms : ℕ
lock_for_ms = 120000

abbrev pub same_generation : Option ℕ → Option ℕ → Bool
same_generation none none = true
same_generation (some g) (some h) = g == h
same_generation _ _ = false

unfoldable pub fresh : ℕ → CacheEntry → Option ℕ → Bool
fresh now entry generation =
    same_generation entry.generation generation
    && (leb entry.calculated_at_ms now && ltb now (entry.calculated_at_ms + fresh_for_ms))

-- What a fill awaits; `seen` as in an entry.
pub data Phase : Type 0 where
  waiting : (deadline : ℕ) → Phase  -- SET of the lock
  sharing : (deadline : ℕ) → Phase  -- the result of the one that has the lock
  versioning : Phase  -- the generation
  checking : (generation : Option ℕ) → Phase  -- the present result
  calling : (locked : Bool) (generation : Option ℕ) → Phase  -- about to call the load
  loading : (locked : Bool) (generation : Option ℕ) (seen : ℕ) → Phase
  storing : (generation : Option ℕ) (seen : ℕ) (summary : String) → Phase
  unlocking : Option String → Phase
  finished : Option String → Phase  -- none where the load threw

abbrev pub holds : ℕ → Redis → Bool
holds owner redis = elim redis.lock [ none ↦ false | some other ↦ other == owner ]

-- What the awaited command does in Redis.
unfoldable pub effect : ℕ → ℕ → Redis → Phase → Redis
effect now owner redis (waiting deadline) = elim redis.lock [
  | none ↦ record redis { lock = some owner }
  | some _ ↦ redis
]
effect now owner redis (storing generation seen summary) =
    if holds owner redis
    then record redis {
      result = some (record {
        summary = summary;
        generation = generation;
        calculated_at_ms = now;
        seen = seen;
      });
    }
    else redis
effect now owner redis (unlocking _) =
    if holds owner redis then record redis { lock = none } else redis
effect now owner redis _ = redis

-- Where the fill goes on, by what the command answers; `changes` are announced so far.
unfoldable pub next : ℕ → ℕ → ℕ → Redis → Phase → Phase
unfolding fresh
next now owner changes redis (waiting deadline) = elim redis.lock [
  | none ↦ versioning
  | some _ ↦ sharing deadline
]
next now owner changes redis (sharing deadline) = elim redis.result [
  | some shared ↦ finished (some shared.summary)
  | none ↦ if leb deadline now then calling false none else waiting deadline
]
next now owner changes redis versioning = checking redis.generation
next now owner changes redis (checking generation) = elim redis.result [
  | none ↦ calling true generation
  | some current ↦
      if fresh now current generation
      then unlocking (some current.summary)
      else calling true generation
]
next now owner changes redis (calling locked generation) = loading locked generation changes
next now owner changes redis (loading locked generation seen) = loading locked generation seen
next now owner changes redis (storing generation seen summary) = unlocking (some summary)
next now owner changes redis (unlocking summary) = finished summary
next now owner changes redis (finished summary) = finished summary

-- Where it goes on when the command throws.
unfoldable pub failed : Phase → Phase
failed (waiting _) = calling false none
failed (sharing _) = calling false none
failed versioning = calling true none
failed (checking generation) = calling true generation
failed (storing generation seen summary) = unlocking (some summary)
failed (unlocking summary) = finished summary
failed phase = phase

-- Where it goes on when the load ends, with none where it throws.
unfoldable pub load_ended : Option String → Phase → Phase
load_ended summary (loading true generation seen) = elim summary [
  | some value ↦ storing generation seen value
  | none ↦ unlocking none
]
load_ended summary (loading false generation seen) = finished summary
load_ended summary phase = phase
