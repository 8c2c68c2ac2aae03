-- ===== src/Dashboard/Tests.antt =====
-- Runs of the queue of graph loads (wui/src/lib/dashboard-load-queue.ts), and the theorem at one.
use cryptotracker.Base.{◌≡◌, refl, [], ◌∷◌}
use cryptotracker.Dashboard.LoadQueue.{LoadQueue, empty_queue, queue_load, finish_load}
use cryptotracker.Dashboard.Turns.{Run, IsFair, Run-IsFair}

abbrev third_waits : LoadQueue
third_waits = queue_load 2 12 (queue_load 2 11 (queue_load 2 10 empty_queue))

third_waits-pending : third_waits.pending ≡ 12 ∷ []
unfolding queue_load
third_waits-pending = refl

third_starts : (finish_load 2 third_waits).started ≡ 10 ∷ 11 ∷ 12 ∷ []
unfolding queue_load finish_load
third_starts = refl

Run-IsFair_example : IsFair 2 (10 ∷ 11 ∷ 12 ∷ []) 0 third_waits
Run-IsFair_example = Run-IsFair 2 (Run.queued (Run.queued (Run.queued Run.start 10) 11) 12)
