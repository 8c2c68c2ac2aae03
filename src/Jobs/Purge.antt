-- ===== src/Jobs/Purge.antt =====
-- `applyFailedJobs` deletes failed jobs from the table (api/src/services/retention.ts).
use cryptotracker.Base.{
  ℕ, ◌-◌, ◌*◌, ltb, Bool, ◌&&◌, not, Option, none, some, List, get_or_else, count, filter,
}
use cryptotracker.Jobs.Record.{JobRecord, is_failed}
use cryptotracker.Jobs.Sound.{IsStable}

-- `status = 'failed' AND COALESCE(completed_at_ms, updated_at_ms) < ?`
abbrev pub is_old_failure : ℕ → JobRecord → Bool
is_old_failure cutoff job =
    is_failed job.status && ltb (get_or_else job.completed_at_ms job.updated_at_ms) cutoff

-- A cutoff before the epoch is written 0, as no time lies before either.
unfoldable pub apply_failed_jobs : Option ℕ → ℕ → List JobRecord → List JobRecord × ℕ
apply_failed_jobs none now jobs = (jobs, 0)
apply_failed_jobs (some hours) now jobs =
    let cutoff = now - hours * 3600000 in
    (filter (λ job. not (is_old_failure cutoff job)) jobs, count (is_old_failure cutoff) jobs)

pub apply_failed_jobs_kept :
    (P : List JobRecord → Type 0)
    → IsStable P
    → (hours : Option ℕ) (now : ℕ) (jobs : List JobRecord) → P jobs
    → P (apply_failed_jobs hours now jobs).0
unfolding apply_failed_jobs
apply_failed_jobs_kept P kept none now jobs s = s
apply_failed_jobs_kept P kept (some hours) now jobs s =
    kept.deletes (λ job. not (is_old_failure (now - hours * 3600000) job)) jobs s
