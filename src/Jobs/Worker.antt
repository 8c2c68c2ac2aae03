-- ===== src/Jobs/Worker.antt =====
-- The worker side of `JobQueue` (api/src/jobs/queue.ts): `tick`, the settling of an execution, `start`
-- and `stop`. One tick runs to its end before the next, as `runTick` arranges, and the promises that
-- `tick` leaves behind are the list `in_flight`.
use cryptotracker.Base.{
  ℕ, zero, suc, ◌+◌, ◌-◌, ltb, String, Bool, true, false, ◌&&◌, not, none, some, List, [], ◌∷◌,
  ◌++◌, str_eq, any, if◌then◌else◌,
}
use cryptotracker.Jobs.Record.{JobRecord, has_id}
use cryptotracker.Jobs.Claim.{claim}
use cryptotracker.Jobs.Outcome.{
  HandlerResult, JobError, app_error, other_error, finish, fail, recover_interrupted,
}

pub record Queue : Type 0 where
  pub jobs : List JobRecord
  pub handlers : List String
  pub worker_id : String
  pub concurrency : ℕ
  pub active : ℕ
  pub stopped : Bool
  pub in_flight : List JobRecord

-- `while (!this.stopped && this.active < this.concurrency)`, on fuel. `runTick` lets no second tick run beside it, so
-- no other claim of the worker comes between its own.
unfoldable pub tick : ℕ → ℕ → Queue → Queue
tick zero now q = q
tick (suc fuel) now q = elim (not q.stopped && ltb q.active q.concurrency) [
  | false ↦ q
  | true ↦
      let (stored, found) = claim now q.worker_id q.jobs in
      elim found [
        | none ↦ record q { jobs = stored }
        | some job ↦
            tick fuel now (record q {
              jobs = stored;
              active = q.active + 1;
              in_flight = q.in_flight ++ job ∷ [];
            })
      ]
]

-- How a handler ended, with the id for a continuation's row and the text of a database error.
pub data Ending : Type 0 where
  returned : HandlerResult → String → String → Ending
  threw : JobError → Ending

-- The writes of `execute` and, where it throws, of `fail`.
unfoldable pub execute : List String → ℕ → JobRecord → Ending → List JobRecord → List JobRecord
unfolding finish fail
execute handlers now job ending jobs =
    if any (str_eq job.job_type) handlers
    then elim ending [
      | threw error ↦ fail now job error jobs
      | returned result next_id database_error ↦
          let (stored, answer) = finish job.id result next_id now jobs in
          elim answer [
            | none ↦ fail now job (other_error database_error) stored
            | some changes ↦ stored
          ]
    ]
    else fail now job (app_error "JOB_EXECUTION_FAILED" "No handler is registered." none) jobs

-- The promise of the job is gone.
unfoldable pub remove : String → List JobRecord → List JobRecord
remove id [] = []
remove id (x ∷ xs) = if has_id id x then xs else x ∷ remove id xs

-- `.finally`: the slot is free again, and a tick follows unless the queue is stopped.
unfoldable pub settle : ℕ → JobRecord → Ending → Queue → Queue
unfolding execute remove
settle now job ending q =
    let q' = record q {
      jobs = execute q.handlers now job ending q.jobs;
      active = q.active - 1;
      in_flight = remove job.id q.in_flight;
    } in
    if q.stopped then q' else tick q.concurrency now q'

unfoldable pub start : ℕ → Queue → Queue
unfolding recover_interrupted
start now q =
    if q.stopped
    then tick q.concurrency now
        (record q { stopped = false; jobs = recover_interrupted now q.jobs })
    else q

-- `stop` before its wait for the running executions.
unfoldable pub stop : Queue → Queue
stop q = record q { stopped = true }
