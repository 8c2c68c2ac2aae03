-- ===== src/Jobs/History.antt =====
-- Every history of the jobs table (api/src/jobs/queue.ts, the cancellations of Jobs/Cancel and the deletions of
-- Jobs/Purge) as a step relation.

use cryptotracker.Base.{ℕ, String, ◌≡◌, sym, Bool, ◌&&◌, Option, some, List, [], arith, subst}
use cryptotracker.Jobs.Record.{JobRecord, is_waiting}
use cryptotracker.Jobs.Enqueue.{JobContinuation, EnqueueResult, enqueue}
use cryptotracker.Jobs.Claim.{is_due, null_or_le, claim}
use cryptotracker.Jobs.Outcome.{
  HandlerResult, JobError, update_progress, finish, fail, recover_interrupted,
}
use cryptotracker.Jobs.Cancel.{
  mark_cancelled, cancel_address_jobs, cancel_market_jobs, cancel_if_disabled,
}
use cryptotracker.Jobs.Purge.{apply_failed_jobs, apply_failed_jobs_kept}
use cryptotracker.Jobs.Sound.{IsRow, IsTidy, IsSound, IsStable, IsSound-IsStable, IsTidy-IsStable}
use cryptotracker.Jobs.Kept.{
  claim_kept, FailsOpen, fail-IsSound, fail-IsTidy, recover_interrupted_kept, update_progress_kept,
  finish_kept, mark_cancelled-Keeps, unlocked_cancelled-Keeps,
}

-- The writes that the program makes to the jobs table. `execute` is `finished`, or `failed_one`, or both where the
-- continuation of a completed job cannot be queued. Nothing calls `resetJobForRetry`.
pub data Step : List JobRecord → List JobRecord → Type 0 where
  enqueued :
      {jobs stored : List JobRecord} (request : JobContinuation) (id : String) (now : ℕ)
      (result : EnqueueResult)
      → enqueue request id now jobs ≡ some (stored, result)
      → Step jobs stored
  claimed :
      {jobs stored : List JobRecord} (now : ℕ) (worker : String)
      → stored ≡ (claim now worker jobs).0
      → Step jobs stored
  progressed :
      {jobs stored : List JobRecord} (id : String) (current : ℕ) (total : Option ℕ)
      (cursor : String) (now : ℕ)
      → stored ≡ update_progress id current total cursor now jobs
      → Step jobs stored
  finished :
      {jobs stored : List JobRecord} (id : String) (result : HandlerResult) (next_id : String)
      (now : ℕ)
      → stored ≡ (finish id result next_id now jobs).0
      → Step jobs stored
  failed_one :
      {jobs stored : List JobRecord} (now : ℕ) (job : JobRecord) (error : JobError)
      → stored ≡ fail now job error jobs
      → Step jobs stored
  recovered :
      {jobs stored : List JobRecord} (now : ℕ)
      → stored ≡ recover_interrupted now jobs
      → Step jobs stored
  address_deleted :
      {jobs stored : List JobRecord} (resource : String) (now : ℕ)
      → stored ≡ cancel_address_jobs resource now jobs
      → Step jobs stored
  asset_disabled :
      {jobs stored : List JobRecord} (like : String → Bool) (now : ℕ)
      → stored ≡ cancel_market_jobs like now jobs
      → Step jobs stored
  self_cancelled :
      {jobs stored : List JobRecord} (id : String) (now : ℕ)
      → stored ≡ cancel_if_disabled id now jobs
      → Step jobs stored
  purged :
      {jobs stored : List JobRecord} (hours : Option ℕ) (now : ℕ)
      → stored ≡ (apply_failed_jobs hours now jobs).0
      → Step jobs stored

pub data Reach : List JobRecord → Type 0 where
  empty : Reach []
  next : {jobs stored : List JobRecord} → Reach jobs → Step jobs stored → Reach stored

-- What is asked of the failures of a history.
abbrev Meets :
    (JobRecord → List JobRecord → Type 0)
    → {jobs stored : List JobRecord} → Step jobs stored
    → Type 0
Meets allowed {jobs} (failed_one now job error e) = allowed job jobs
Meets allowed _ = Unit

module _ (P : List JobRecord → Type 0) (kept : IsStable P)
    (allowed : JobRecord → List JobRecord → Type 0)
    (fails : (now : ℕ) (job : JobRecord) (error : JobError) (jobs : List JobRecord)
      → allowed job jobs
      → P jobs
      → P (fail now job error jobs)) where
  Step_kept :
      {jobs stored : List JobRecord} (step : Step jobs stored)
      → Meets allowed step
      → P jobs
      → P stored
  unfolding cancel_address_jobs cancel_market_jobs cancel_if_disabled
  Step_kept {jobs} {stored} (enqueued request id now result h) _ s =
      kept.enqueues request id now jobs stored result s h
  Step_kept {jobs} (claimed now worker e) _ s =
      subst P (sym e) (claim_kept P kept now worker jobs s)
  Step_kept {jobs} (progressed id current total cursor now e) _ s =
      subst P (sym e) (update_progress_kept P kept id current total cursor now jobs s)
  Step_kept {jobs} (finished id result next_id now e) _ s =
      subst P (sym e) (finish_kept P kept id result next_id now jobs s)
  Step_kept {jobs} (failed_one now job error e) m s = subst P (sym e) (fails now job error jobs m s)
  Step_kept {jobs} (recovered now e) _ s =
      subst P (sym e) (recover_interrupted_kept P kept now jobs s)
  Step_kept {jobs} (address_deleted resource now e) _ s = subst P (sym e) (
      kept.updates _ (mark_cancelled now) (λ job h. mark_cancelled-Keeps now job (ground arith))
        jobs s)
  Step_kept {jobs} (asset_disabled like now e) _ s =
      subst P (sym e) (kept.updates _ _ (λ job _. unlocked_cancelled-Keeps now job) jobs s)
  Step_kept {jobs} (self_cancelled id now e) _ s =
      subst P (sym e) (kept.updates _ _ (λ job _. unlocked_cancelled-Keeps now job) jobs s)
  Step_kept {jobs} (purged hours now e) _ s =
      subst P (sym e) (apply_failed_jobs_kept P kept hours now jobs s)

Any : JobRecord → List JobRecord → Type 0
Any job jobs = Unit

Meets-Any : {jobs stored : List JobRecord} (step : Step jobs stored) → Meets Any step
unfolding Any
Meets-Any (enqueued request id now result h) = tt
Meets-Any (claimed now worker e) = tt
Meets-Any (progressed id current total cursor now e) = tt
Meets-Any (finished id result next_id now e) = tt
Meets-Any (failed_one now job error e) = tt
Meets-Any (recovered now e) = tt
Meets-Any (address_deleted resource now e) = tt
Meets-Any (asset_disabled like now e) = tt
Meets-Any (self_cancelled id now e) = tt
Meets-Any (purged hours now e) = tt

-- Every failure of the history finds its row open.
abbrev pub IsOrderly : {jobs : List JobRecord} → Reach jobs → Type 0
IsOrderly empty = Unit
IsOrderly (next r step) = IsOrderly r × Meets FailsOpen step

-- In every history of the table, from empty on: ids and idempotency keys are unique, a row is locked exactly while it
-- runs, and no open job has a completion time.
pub Reach-IsTidy : {jobs : List JobRecord} → Reach jobs → IsTidy jobs
Reach-IsTidy empty = record { distinct = tt; rows = tt }
Reach-IsTidy (next r step) =
    Step_kept IsTidy IsTidy-IsStable Any (λ now job error jobs _. fail-IsTidy now job error jobs)
      step (Meets-Any step) (Reach-IsTidy r)

-- In every history of the table in which each failure finds its row still open, moreover, no job type and resource has
-- two open jobs.
pub Reach-IsSound : {jobs : List JobRecord} (r : Reach jobs) → IsOrderly r → IsSound jobs
Reach-IsSound empty o = record { serial = tt; rows = tt }
Reach-IsSound (next r step) o =
    Step_kept IsSound IsSound-IsStable FailsOpen fail-IsSound step o.1 (Reach-IsSound r o.0)

-- So the lock test of a claim's query turns no job away: a waiting row is due exactly when its retry
-- time has come.
pub is_due-waiting :
    (now : ℕ) (job : JobRecord)
    → IsRow job
    → is_due now job ≡ (is_waiting job.status && null_or_le job.next_retry_at_ms now)
is_due-waiting now job w = ground (arith, w.unlocked)
