-- ===== src/Jobs/Claim.antt =====
-- `claim`: the due waiting job of the least priority number becomes this worker's running job.
use cryptotracker.Base.{
  ℕ, ◌+◌, ◌-◌, ◌*◌, ltb, leb, ◌==◌, String, Bool, true, ◌&&◌, ◌||◌, Option, none, some, List,
  filter,
}
use cryptotracker.Jobs.Record.{JobRecord, running, is_waiting, has_id, update_where, get_job}
use cryptotracker.Jobs.Enqueue.{first_least}

-- `x IS NULL OR x <= bound` and `x IS NULL OR x < bound`
abbrev pub null_or_le : Option ℕ → ℕ → Bool
null_or_le none bound = true
null_or_le (some x) bound = leb x bound

abbrev pub null_or_lt : Option ℕ → ℕ → Bool
null_or_lt none bound = true
null_or_lt (some x) bound = ltb x bound

abbrev pub lock_timeout_ms : ℕ
lock_timeout_ms = 15 * 60000

-- The WHERE clause of the candidate query. `now` is past the epoch by more than the lock timeout.
abbrev pub is_due : ℕ → JobRecord → Bool
is_due now job =
    is_waiting job.status
    && (null_or_le job.next_retry_at_ms now && null_or_lt job.locked_at_ms (now - lock_timeout_ms))

-- ORDER BY priority ASC, created_at_ms ASC
abbrev pub runs_before : JobRecord → JobRecord → Bool
runs_before left right =
    ltb left.priority right.priority
    || (left.priority == right.priority && ltb left.created_at_ms right.created_at_ms)

unfoldable pub candidate : ℕ → List JobRecord → Option JobRecord
unfolding first_least
candidate now jobs = first_least runs_before (filter (is_due now) jobs)

abbrev pub mark_running : ℕ → String → JobRecord → JobRecord
mark_running now worker job = record job {
  status = running;
  locked_at_ms = some now;
  locked_by = some worker;
  attempts = job.attempts + 1;
  updated_at_ms = now;
}

-- The UPDATE of a claim. The id is the primary key and the candidate was read in the same
-- transaction, so the update changes exactly the candidate's row.
unfoldable pub start_job : ℕ → String → String → List JobRecord → List JobRecord
start_job now worker id jobs =
    update_where (λ job. has_id id job && is_waiting job.status) (mark_running now worker) jobs

unfoldable pub claim : ℕ → String → List JobRecord → List JobRecord × Option JobRecord
unfolding candidate start_job get_job
claim now worker jobs = elim (candidate now jobs) [
  | none ↦ (jobs, none)
  | some job ↦ let stored = start_job now worker job.id jobs in (stored, get_job job.id stored)
]
