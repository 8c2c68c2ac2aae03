-- ===== src/Providers/Gate.antt =====
-- How many calls hold a slot of a provider (api/src/providers/rate-limiter.ts).
use cryptotracker.Base.{ℕ, suc, ◌+◌, ◌≤◌, ◌<◌, ◌≡◌, some, List, [], ◌∷◌, arith, length}
use cryptotracker.Providers.Slots.{Slots, acquire, resume, release}

abbrev pub no_slots : Slots
no_slots = record { active = 0; waiting = []; resumed = [] }

-- The runs in which a call asks for a slot only when no resolved call has yet to go on.
pub data Orderly (concurrency : ℕ) : Slots → Type 0 where
  start : Orderly concurrency no_slots
  acquired :
      {s : Slots}
      → Orderly concurrency s
      → (id : ℕ) → s.resumed ≡ []
      → Orderly concurrency (acquire concurrency id s)
  resumed_one : {s s' : Slots} → Orderly concurrency s → resume s ≡ some s' → Orderly concurrency s'
  released : {s : Slots} → Orderly concurrency s → 0 < s.active → Orderly concurrency (release s)

-- Within the limit, and a call waits only while every slot is held.
pub record IsWithin (concurrency : ℕ) (s : Slots) : Type 0 where
  pub within : s.active + length s.resumed ≤ concurrency
  pub busy : 0 < length s.waiting → s.active + length s.resumed ≡ concurrency

-- A retry releases its slot and asks for one in the same turn. With every slot held and a call waiting, both
-- the retry and the resolved call go on, so that one call more than the limit holds a slot.
pub retry_overcommits :
    (concurrency id other : ℕ) (rest : List ℕ) (s : Slots)
    → 0 < concurrency
    → s.active ≡ concurrency
    → s.resumed ≡ []
    → s.waiting ≡ other ∷ rest
    → resume (acquire concurrency id (release s))
      ≡ some (record { active = suc concurrency; waiting = rest; resumed = [] })
unfolding acquire release resume
retry_overcommits concurrency id other rest s positive full none_resumed waits =
    ground (arith, positive, full, none_resumed, waits)
