-- ===== src/Jobs/Tests.antt =====
-- Runs of the queue (api/src/jobs/queue.ts) on small tables, and the theorems at them.
use mathlib.Core.List.{Memᴰ}
use cryptotracker.Base.{
  ◌≡◌, ◌⊎◌, refl, true, false, none, some, sym, ap, map, ◌++◌, List, [], ◌∷◌, arith, All,
}
use cryptotracker.Jobs.Record.{JobRecord, failed, is_open}
use cryptotracker.Jobs.Enqueue.{JobContinuation, new_job, enqueue}
use cryptotracker.Jobs.Claim.{is_due, mark_running, claim}
use cryptotracker.Jobs.Outcome.{
  other_error, mark_failed, mark_completed, fail, finish, continue_with,
}
use cryptotracker.Jobs.Serial.{IsSerial}
use cryptotracker.Jobs.Choice.{IsChosen, IsStarted, claim-IsChosen}
use cryptotracker.Jobs.Retry.{Verdict, fail-Verdict, Round, fail_rounds, fail_rounds-budget}
use cryptotracker.Jobs.Sound.{IsSound, IsTidy}
use cryptotracker.Jobs.History.{Step, Reach, IsOrderly, Reach-IsTidy, Reach-IsSound}
use cryptotracker.Jobs.Worker.{Queue, tick}
use cryptotracker.Jobs.Capacity.{
  IsBounded, WorkerStep, WorkerReach, WorkerReach-IsBounded, tick_exhausts,
}

abbrev sync_request : JobContinuation
sync_request = record {
  job_type = "market.sync";
  resource_key = "market:kraken:bitcoin:CAD";
  idempotency_key = "sync-1";
  priority = 40;
  payload = "{}";
  max_attempts = 3;
}

abbrev export_request : JobContinuation
export_request = record {
  job_type = "export.create";
  resource_key = "export:1";
  idempotency_key = "export-1";
  priority = 10;
  payload = "{}";
  max_attempts = 5;
}

abbrev sync_row : JobRecord
sync_row = new_job sync_request "job_1" 100

abbrev export_row : JobRecord
export_row = new_job export_request "job_2" 200

abbrev table : List JobRecord
table = sync_row ∷ export_row ∷ []

enqueue_first :
    enqueue sync_request "job_1" 100 []
    ≡ some (sync_row ∷ [], record { job = some sync_row; coalesced = false })
unfolding enqueue
enqueue_first = refl

enqueue_second :
    enqueue export_request "job_2" 200 (sync_row ∷ [])
    ≡ some (table, record { job = some export_row; coalesced = false })
unfolding enqueue
enqueue_second = refl

table-Reach : Reach table
table-Reach =
    Reach.next (Reach.next Reach.empty (Step.enqueued sync_request "job_1" 100 _ enqueue_first))
      (Step.enqueued export_request "job_2" 200 _ enqueue_second)

table-IsOrderly : IsOrderly table-Reach
unfolding table-Reach
table-IsOrderly = ((tt, tt), tt)

Reach-IsSound_example : IsSound table
Reach-IsSound_example = Reach-IsSound table-Reach table-IsOrderly

table-IsSerial : IsSerial table
table-IsSerial = (Reach-IsSound table-Reach table-IsOrderly).serial

-- A job completes, its continuation cannot be queued as the id is taken, a second job of the resource is queued, and the
-- first is failed: it waits again beside the second.
abbrev claimed_row : JobRecord
claimed_row = mark_running 300 "w" sync_row

abbrev second_request : JobContinuation
second_request = record sync_request { idempotency_key = "sync-2" }

abbrev completed_table : List JobRecord
completed_table = mark_completed 400 claimed_row ∷ []

abbrev reopened : List JobRecord
reopened =
    mark_failed 500 claimed_row (other_error "UNIQUE constraint failed")
      (mark_completed 400 claimed_row)
    ∷ new_job second_request "job_3" 450
    ∷ []

first_claimed : claimed_row ∷ [] ≡ (claim 300 "w" (sync_row ∷ [])).0
unfolding claim
first_claimed = refl

first_finished :
    finish "job_1" (continue_with second_request) "job_1" 400 (claimed_row ∷ [])
    ≡ (completed_table, none)
unfolding finish
first_finished = refl

second_queued :
    enqueue second_request "job_3" 450 completed_table
    ≡ some (
      completed_table ++ new_job second_request "job_3" 450 ∷ [],
      record { job = some (new_job second_request "job_3" 450); coalesced = false },
    )
unfolding enqueue
second_queued = refl

first_failed :
    reopened
    ≡ fail 500 claimed_row
        (other_error "UNIQUE constraint failed")
        (completed_table ++ new_job second_request "job_3" 450 ∷ [])
unfolding fail mark_failed
first_failed = refl

reopened-Reach : Reach reopened
reopened-Reach =
    let queued = Reach.next Reach.empty (Step.enqueued sync_request "job_1" 100 _ enqueue_first) in
    let running = Reach.next queued (Step.claimed 300 "w" first_claimed) in
    let closed = Reach.next running (
      Step.finished "job_1" (continue_with second_request) "job_1" 400
        (sym (ap (λ r. r.0) first_finished))) in
    let joined = Reach.next closed (Step.enqueued second_request "job_3" 450 _ second_queued) in
    Reach.next joined
      (Step.failed_one 500 claimed_row (other_error "UNIQUE constraint failed") first_failed)

Reach-IsTidy_example : IsTidy reopened
Reach-IsTidy_example = Reach-IsTidy reopened-Reach

two_open : map (λ job. is_open job.status) reopened ≡ true ∷ true ∷ []
unfolding mark_failed
two_open = refl

-- The export is claimed first: it has the lesser priority number.
claim_order : (claim 300 "worker_1" table).1 ≡ some (mark_running 300 "worker_1" export_row)
unfolding claim
claim_order = refl

claim-IsChosen_example :
    (chosen : JobRecord) × IsChosen 300 table chosen
    × IsStarted 300 "w" table (claim 300 "w" table).0 chosen (claim 300 "w" table).1
claim-IsChosen_example = claim-IsChosen 300 "w" table sync_row table-IsSerial (Memᴰ.head refl) refl

fail-Verdict_example :
    Verdict 400
      (other_error "boom")
      sync_row
      (mark_failed 400 sync_row (other_error "boom") sync_row)
fail-Verdict_example = fail-Verdict 400 sync_row (other_error "boom")

abbrev boom : Round
boom = record { now = 300; later = 400; error = other_error "boom" }

fail_rounds-budget_example :
    let after = fail_rounds "w" (boom ∷ boom ∷ boom ∷ []) sync_row in
    (after.attempts ≡ 3) × (after.status ≡ failed)
unfolding mark_failed
fail_rounds-budget_example =
    fail_rounds-budget "w" boom (boom ∷ boom ∷ []) sync_row
      ((refl, refl), ((refl, refl), ((refl, refl), tt))) (omega arith)

abbrev idle_queue : Queue
idle_queue = record {
  jobs = table;
  handlers = "export.create" ∷ [];
  worker_id = "worker_1";
  concurrency = 1;
  active = 0;
  stopped = false;
  in_flight = [];
}

-- One slot: the export runs and the sync waits.
tick_one_slot : (tick 1 300 idle_queue).in_flight ≡ mark_running 300 "worker_1" export_row ∷ []
unfolding tick claim
tick_one_slot = refl

WorkerReach-IsBounded_example : IsBounded (tick 1 300 idle_queue)
WorkerReach-IsBounded_example =
    WorkerReach-IsBounded {q = idle_queue} (record { counted = refl; within = omega arith })
      (WorkerReach.after WorkerReach.here (WorkerStep.ticked 300))

tick_exhausts_example :
    let r = tick 1 300 idle_queue in
    (r.stopped ≡ true) ⊎ (r.active ≡ r.concurrency) ⊎ All (λ job. is_due 300 job ≡ false) r.jobs
tick_exhausts_example =
    tick_exhausts 1 300 idle_queue (Reach-IsSound table-Reach table-IsOrderly) (omega arith)
      (omega arith)
