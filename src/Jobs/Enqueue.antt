-- ===== src/Jobs/Enqueue.antt =====
-- `enqueue`: coalesce with an open job of the resource or with a known idempotency key, or insert.
use cryptotracker.Base.{
  ℕ, ltb, String, Bool, true, false, ◌&&◌, ◌||◌, Option, none, some, List, [], ◌∷◌, ◌++◌, str_eq,
  if◌then◌else◌, find?, filter, any,
}
use cryptotracker.Jobs.Record.{JobRecord, queued, is_open, has_id, has_resource, get_job}

-- The options of `enqueue`, its defaults filled in and the payload as its JSON text.
pub record JobContinuation : Type 0 where
  pub job_type : String
  pub resource_key : String
  pub idempotency_key : String
  pub priority : ℕ
  pub payload : String
  pub max_attempts : ℕ

pub record EnqueueResult : Type 0 where
  pub job : Option JobRecord
  pub coalesced : Bool

-- The row of the INSERT, with the column defaults of the jobs table.
abbrev pub new_job : JobContinuation → String → ℕ → JobRecord
new_job request id now = record {
  id = id;
  job_type = request.job_type;
  resource_key = request.resource_key;
  idempotency_key = request.idempotency_key;
  priority = request.priority;
  status = queued;
  progress_current = 0;
  progress_total = none;
  cursor_json = "{}";
  attempts = 0;
  max_attempts = request.max_attempts;
  next_retry_at_ms = none;
  locked_at_ms = none;
  locked_by = none;
  last_error_json = none;
  payload_json = request.payload;
  created_at_ms = now;
  updated_at_ms = now;
  completed_at_ms = none;
}

-- The first row of the least key, as ORDER BY key ASC LIMIT 1 may return it.
unfoldable pub first_least : (JobRecord → JobRecord → Bool) → List JobRecord → Option JobRecord
first_least less [] = none
first_least less (x ∷ xs) = elim (first_least less xs) [
  | none ↦ some x
  | some y ↦ if less y x then some y else some x
]

abbrev pub created_before : JobRecord → JobRecord → Bool
created_before left right = ltb left.created_at_ms right.created_at_ms

-- The open job of a resource that `enqueue` coalesces with.
unfoldable pub open_job : JobContinuation → List JobRecord → Option JobRecord
unfolding first_least
open_job request jobs = first_least created_before (
    filter (λ job. has_resource request.job_type request.resource_key job && is_open job.status)
      jobs)

unfoldable pub known_job : JobContinuation → List JobRecord → Option JobRecord
known_job request jobs = find? (λ job. str_eq job.idempotency_key request.idempotency_key) jobs

-- INSERT: `none` where PRIMARY KEY (id) or UNIQUE (idempotency_key) rejects the row.
unfoldable pub insert_job : JobRecord → List JobRecord → Option (List JobRecord)
insert_job job jobs =
    if any (λ old. has_id job.id old || str_eq old.idempotency_key job.idempotency_key) jobs
    then none
    else some (jobs ++ job ∷ [])

unfoldable pub enqueue :
    JobContinuation → String → ℕ → List JobRecord → Option (List JobRecord × EnqueueResult)
unfolding open_job known_job insert_job get_job
enqueue request id now jobs = elim (open_job request jobs) [
  | some active ↦ some (jobs, record { job = some active; coalesced = true })
  | none ↦ elim (known_job request jobs) [
    | some existing ↦ some (jobs, record { job = some existing; coalesced = true })
    | none ↦ elim (insert_job (new_job request id now) jobs) [
      | none ↦ none
      | some stored ↦ some (stored, record { job = get_job id stored; coalesced = false })
    ]
  ]
]
