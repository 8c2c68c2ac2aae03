-- ===== src/Jobs/Record.antt =====
-- The rows of the jobs table and the statements that several operations share
-- (api/src/jobs/queue.ts). Number columns that SQLite or PostgreSQL may return as text are numbers.
use cryptotracker.Base.{
  ℕ, String, Bool, true, false, ◌&&◌, Option, List, map, str_eq, if◌then◌else◌, find?,
}

pub data JobStatus : Type 0 where
  queued running retry completed failed cancelled : JobStatus

-- What `JSON.stringify` keeps of an `AppError`: the two entries of its context that the queue reads.
pub record ErrorContext : Type 0 where
  pub status : Option ℕ
  pub cooldown_until_ms : Option ℕ

-- The value that `last_error_json` is the text of.
pub record StoredError : Type 0 where
  pub message : String
  pub error_key : String
  pub context : Option ErrorContext
  pub retry_at_ms : Option (Option ℕ)

pub record JobRecord : Type 0 where
  pub id : String
  pub job_type : String
  pub resource_key : String
  pub idempotency_key : String
  pub priority : ℕ
  pub status : JobStatus
  pub progress_current : ℕ
  pub progress_total : Option ℕ
  pub cursor_json : String
  pub attempts : ℕ
  pub max_attempts : ℕ
  pub next_retry_at_ms : Option ℕ
  pub locked_at_ms : Option ℕ
  pub locked_by : Option String
  pub last_error_json : Option StoredError
  pub payload_json : String
  pub created_at_ms : ℕ
  pub updated_at_ms : ℕ
  pub completed_at_ms : Option ℕ

-- `status IN ('queued', 'running', 'retry')`
abbrev pub is_open : JobStatus → Bool
is_open queued = true
is_open running = true
is_open retry = true
is_open _ = false

-- `status IN ('queued', 'retry')`
abbrev pub is_waiting : JobStatus → Bool
is_waiting queued = true
is_waiting retry = true
is_waiting _ = false

-- `status = 'running'`
abbrev pub is_running : JobStatus → Bool
is_running running = true
is_running _ = false

abbrev pub is_failed : JobStatus → Bool
is_failed failed = true
is_failed _ = false

abbrev pub has_id : String → JobRecord → Bool
has_id id job = str_eq job.id id

-- `job_type = ? AND resource_key = ?`
abbrev pub has_resource : String → String → JobRecord → Bool
has_resource job_type resource_key job =
    str_eq job.job_type job_type && str_eq job.resource_key resource_key

-- `UPDATE jobs SET ... WHERE test`
abbrev pub update_where :
    (JobRecord → Bool) → (JobRecord → JobRecord) → List JobRecord → List JobRecord
update_where test change = map (λ job. if test job then change job else job)

-- `SELECT * FROM jobs WHERE id = ?`
unfoldable pub get_job : String → List JobRecord → Option JobRecord
get_job id jobs = find? (has_id id) jobs
