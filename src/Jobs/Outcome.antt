-- ===== src/Jobs/Outcome.antt =====
-- `execute` and `fail`: what a handler's result or error does to the jobs table, and
-- `recoverInterrupted`, `resetJobForRetry`, `getJob` and `list`.
use cryptotracker.Base.{
  ℕ, ◌+◌, ◌-◌, ◌*◌, ◌^◌, min, max, ltb, leb, String, Bool, false, ◌&&◌, ◌||◌, not, Option, none,
  some, List, [], str_eq, if◌then◌else◌, get_or_else, take,
}
use cryptotracker.Base.Sorting.{sort}
use cryptotracker.Jobs.Record.{
  retry, completed, failed, ErrorContext, StoredError, JobRecord, is_running, has_id, update_where,
}
use cryptotracker.Jobs.Enqueue.{JobContinuation, enqueue}

pub data GraphDataChange : Type 0 where
  market : List String → List String → GraphDataChange
  addresses : List String → GraphDataChange
  kraken : List String → GraphDataChange
  portfolio : List String → GraphDataChange

-- What a handler returns: nothing, a continuation, or an outcome record.
pub data HandlerResult : Type 0 where
  nothing : HandlerResult
  continue_with : JobContinuation → HandlerResult
  outcome : Option JobContinuation → Option (List GraphDataChange) → HandlerResult

unfoldable pub continuation_of : HandlerResult → Option JobContinuation
continuation_of nothing = none
continuation_of (continue_with next) = some next
continuation_of (outcome next changes) = next

unfoldable pub graph_data_changes_of : HandlerResult → List GraphDataChange
graph_data_changes_of nothing = []
graph_data_changes_of (continue_with next) = []
graph_data_changes_of (outcome next changes) = get_or_else changes []

-- What is thrown: an `AppError` or anything else.
pub data JobError : Type 0 where
  app_error : String → String → Option ErrorContext → JobError
  other_error : String → JobError

unfoldable pub update_progress :
    String → ℕ → Option ℕ → String → ℕ → List JobRecord → List JobRecord
update_progress id current total cursor now jobs =
    update_where (has_id id)
      (λ job. record job {
        progress_current = current;
        progress_total = total;
        cursor_json = cursor;
        updated_at_ms = now;
      })
      jobs

abbrev pub mark_completed : ℕ → JobRecord → JobRecord
mark_completed now job = record job {
  status = completed;
  completed_at_ms = some now;
  updated_at_ms = now;
  locked_at_ms = none;
  locked_by = none;
}

unfoldable pub complete : String → ℕ → List JobRecord → List JobRecord
complete id now jobs =
    update_where (λ job. has_id id job && is_running job.status) (mark_completed now) jobs

-- The part of `execute` after the handler: the jobs table and the changes that every listener gets.
-- `none` is an error of the continuation's `enqueue`, which leaves the job completed.
unfoldable pub finish :
    String
    → HandlerResult
    → String
    → ℕ
    → List JobRecord
    → List JobRecord × Option (List GraphDataChange)
unfolding complete enqueue continuation_of graph_data_changes_of
finish id result next_id now jobs =
    let stored = complete id now jobs in
    let changes = graph_data_changes_of result in
    elim (continuation_of result) [
      | none ↦ (stored, some changes)
      | some next ↦ elim (enqueue next next_id now stored) [
        | none ↦ (stored, none)
        | some (extended, _) ↦ (extended, some changes)
      ]
    ]

abbrev pub is_circuit_open : JobError → Bool
is_circuit_open (app_error key message context) = str_eq key "PROVIDER_CIRCUIT_OPEN"
is_circuit_open (other_error message) = false

-- `upstreamStatus >= 400 && upstreamStatus < 500`, false on NaN
abbrev pub is_client_status : Option ℕ → Bool
is_client_status none = false
is_client_status (some status) = leb 400 status && ltb status 500

abbrev pub status_of : Option ErrorContext → Option ℕ
status_of none = none
status_of (some context) = context.status

abbrev pub cooldown_of : Option ErrorContext → Option ℕ
cooldown_of none = none
cooldown_of (some context) = context.cooldown_until_ms

abbrev pub is_non_retryable : JobError → Bool
is_non_retryable (app_error key message context) =
    str_eq key "PROVIDER_REQUEST_FAILED" && is_client_status (status_of context)
is_non_retryable (other_error message) = false

unfoldable pub is_terminal : JobRecord → JobError → Bool
is_terminal job error =
    is_non_retryable error || (not (is_circuit_open error) && leb job.max_attempts job.attempts)

abbrev pub hour_ms : ℕ
hour_ms = 60 * 60000

-- `-` on ℕ stops at 0, as `Math.max(0, attempts - 1)` does.
unfoldable pub retry_delay : ℕ → ℕ
retry_delay attempts = min hour_ms (1000 * 2 ^ (attempts - 1))

abbrev pub cooldown_until : JobError → Option ℕ
cooldown_until (app_error key message context) = cooldown_of context
cooldown_until (other_error message) = none

unfoldable pub next_retry_at : ℕ → JobRecord → JobError → Option ℕ
unfolding is_terminal retry_delay
next_retry_at now job error =
    if is_terminal job error
    then none
    else if is_circuit_open error
    then elim (cooldown_until error) [
      | some until ↦ some (max (now + 1000) until)
      | none ↦ some (now + retry_delay job.attempts)
    ]
    else some (now + retry_delay job.attempts)

unfoldable pub stored_error : ℕ → JobRecord → JobError → StoredError
unfolding next_retry_at
stored_error now job (app_error key message context) = record {
  message = message;
  error_key = key;
  context = context;
  retry_at_ms =
      if is_circuit_open (app_error key message context)
      then some (next_retry_at now job (app_error key message context))
      else none;
}
stored_error now job (other_error message) = record {
  message = message;
  error_key = "JOB_EXECUTION_FAILED";
  context = none;
  retry_at_ms = none;
}

-- The SET clause of `fail`; `job` is the claimed snapshot, `row` the row as it stands.
unfoldable pub mark_failed : ℕ → JobRecord → JobError → JobRecord → JobRecord
unfolding is_terminal next_retry_at stored_error
mark_failed now job error row = record row {
  status = if is_terminal job error then failed else retry;
  next_retry_at_ms = next_retry_at now job error;
  last_error_json = some (stored_error now job error);
  updated_at_ms = now;
  locked_at_ms = none;
  locked_by = none;
  completed_at_ms = if is_terminal job error then some now else none;
  attempts = if is_circuit_open error && ltb 0 row.attempts then row.attempts - 1 else row.attempts;
}

unfoldable pub fail : ℕ → JobRecord → JobError → List JobRecord → List JobRecord
unfolding mark_failed
fail now job error jobs = update_where (has_id job.id) (mark_failed now job error) jobs

abbrev pub mark_recovered : ℕ → JobRecord → JobRecord
mark_recovered now job = record job {
  status = retry;
  locked_at_ms = none;
  locked_by = none;
  next_retry_at_ms = some now;
  updated_at_ms = now;
}

unfoldable pub recover_interrupted : ℕ → List JobRecord → List JobRecord
recover_interrupted now jobs = update_where (λ job. is_running job.status) (mark_recovered now) jobs

unfoldable pub reset_job_for_retry : ℕ → String → List JobRecord → List JobRecord
reset_job_for_retry now id jobs =
    update_where (has_id id)
      (λ job. record job {
        status = retry;
        locked_at_ms = none;
        locked_by = none;
        next_retry_at_ms = some now;
      })
      jobs

-- ORDER BY created_at_ms DESC LIMIT
unfoldable pub list_jobs : ℕ → List JobRecord → List JobRecord
unfolding sort
list_jobs limit jobs =
    take (min 500 (max 1 limit))
      (sort (λ left right. leb right.created_at_ms left.created_at_ms) jobs)
