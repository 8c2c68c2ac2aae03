-- ===== src/Dashboard/LoadQueue.antt =====
-- `createLoadQueue` (wui/src/lib/dashboard-load-queue.ts). A load is named by a number; `started` lists the loads
-- whose `run` was called, in order.
use cryptotracker.Base.{ℕ, suc, ◌-◌, max, ltb, List, [], ◌∷◌, ◌++◌, if◌then◌else◌}

pub record LoadQueue : Type 0 where
  pub active : ℕ
  pub pending : List ℕ
  pub started : List ℕ

abbrev pub empty_queue : LoadQueue
empty_queue = record { active = 0; pending = []; started = [] }

-- `Math.max(1, Math.floor(maximumConcurrent))`
abbrev pub concurrency_of : ℕ → ℕ
concurrency_of maximum_concurrent = max 1 maximum_concurrent

-- The loop of `startNext`, over the pending loads.
unfoldable pub start_pending : ℕ → List ℕ → ℕ → List ℕ → LoadQueue
start_pending concurrency [] active started = record {
  active = active;
  pending = [];
  started = started;
}
start_pending concurrency (next ∷ pending) active started =
    let later = start_pending concurrency pending (suc active) (started ++ next ∷ []) in
    if ltb active concurrency
    then later
    else record { active = active; pending = next ∷ pending; started = started }

unfoldable pub start_next : ℕ → LoadQueue → LoadQueue
unfolding start_pending
start_next maximum_concurrent q =
    start_pending (concurrency_of maximum_concurrent) q.pending q.active q.started

-- A new load.
unfoldable pub queue_load : ℕ → ℕ → LoadQueue → LoadQueue
unfolding start_next
queue_load maximum_concurrent load q =
    start_next maximum_concurrent (record q { pending = q.pending ++ load ∷ [] })

-- The end of a load, whether it resolves or rejects.
unfoldable pub finish_load : ℕ → LoadQueue → LoadQueue
unfolding start_next
finish_load maximum_concurrent q =
    start_next maximum_concurrent (record q { active = q.active - 1 })
