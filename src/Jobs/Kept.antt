-- ===== src/Jobs/Kept.antt =====
-- Each statement of the program on the jobs table keeps what is known of it (api/src/jobs/queue.ts and
-- the cancellations of Jobs/Cancel).

use cryptotracker.Base.{
  ℕ, String, ◌≡◌, refl, sym, Bool, true, ◌&&◌, Option, List, [], ◌∷◌, arith, All, All-imp,
  Bool-cases, Option-cases, inl, inr, subst, AllPairs-map, ◌∙◌, if◌then◌else◌,
}
use cryptotracker.Jobs.Record.{JobRecord, is_open, is_waiting, has_id, update_where}
use cryptotracker.Jobs.Enqueue.{enqueue}
use cryptotracker.Jobs.Claim.{candidate, mark_running, start_job, claim}
use cryptotracker.Jobs.Outcome.{
  HandlerResult, JobError, update_progress, mark_completed, complete, continuation_of, finish,
  mark_failed, fail, mark_recovered, recover_interrupted,
}
use cryptotracker.Jobs.Cancel.{mark_cancelled, unlock}
use cryptotracker.Jobs.Sound.{
  IsRow, Distinct, IsTidy, IsSound, Keeps, update_where-IsSound, Keeps-row, IsStable,
  IsSound-IsStable,
}

-- The statements keep every stable property of the table.
module _ (P : List JobRecord → Type 0) (kept : IsStable P) where
  start_job_kept :
      (now : ℕ) (worker id : String) (jobs : List JobRecord)
      → P jobs
      → P (start_job now worker id jobs)
  unfolding start_job
  start_job_kept now worker id = kept.updates _ (mark_running now worker) (λ job h. record {
    id = refl;
    key = refl;
    job_type = refl;
    resource_key = refl;
    opens_none = λ _. ground arith;
    row = λ w. record {
      unlocked = λ r. absurd (ground arith);
      locked = λ _. (λ e. absurd (ground arith), λ e. absurd (ground arith));
      unfinished = λ _. w.unfinished (ground arith);
    };
  })

  pub claim_kept :
      (now : ℕ) (worker : String) (jobs : List JobRecord) → P jobs → P (claim now worker jobs).0
  unfolding claim
  claim_kept now worker jobs s = elim (Option-cases (candidate now jobs)) [
    | inl e ↦ rw (e, claim) s
    | inr (c, e) ↦ rw (e, claim) (start_job_kept now worker c.id jobs s)
  ]

  pub complete_kept :
      (id : String) (now : ℕ) (jobs : List JobRecord) → P jobs → P (complete id now jobs)
  unfolding complete
  complete_kept id now = kept.updates _ (mark_completed now) (λ job h.
      Keeps-row job (mark_completed now job) refl refl refl refl (λ o. absurd (ground arith))
        (record {
          unlocked = λ _. (refl, refl);
          locked = λ h. absurd (ground arith);
          unfinished = λ o. absurd (ground arith);
        }))

  pub recover_interrupted_kept :
      (now : ℕ) (jobs : List JobRecord) → P jobs → P (recover_interrupted now jobs)
  unfolding recover_interrupted
  recover_interrupted_kept now = kept.updates _ (mark_recovered now) (λ job h. record {
    id = refl;
    key = refl;
    job_type = refl;
    resource_key = refl;
    opens_none = λ _. ground arith;
    row = λ w. record {
      unlocked = λ _. (refl, refl);
      locked = λ r. absurd (ground arith);
      unfinished = λ _. w.unfinished (ground arith);
    };
  })

  pub update_progress_kept :
      (id : String) (current : ℕ) (total : Option ℕ) (cursor : String) (now : ℕ)
      (jobs : List JobRecord)
      → P jobs
      → P (update_progress id current total cursor now jobs)
  unfolding update_progress
  update_progress_kept id current total cursor now = kept.updates _ _ (λ job h. record {
    id = refl;
    key = refl;
    job_type = refl;
    resource_key = refl;
    opens_none = λ o. o;
    row = λ w. record { unlocked = w.unlocked; locked = w.locked; unfinished = w.unfinished };
  })

  pub finish_kept :
      (id : String) (result : HandlerResult) (next_id : String) (now : ℕ) (jobs : List JobRecord)
      → P jobs
      → P (finish id result next_id now jobs).0
  unfolding finish
  finish_kept id result next_id now jobs s = elim (Option-cases (continuation_of result)) [
    | inl e ↦ rw (e, finish) done
    | inr (next, e) ↦ elim (Option-cases (enqueue next next_id now (complete id now jobs))) [
      | inl f ↦ rw (e, f, finish) done
      | inr ((stored, answer), f) ↦
          rw (e, f, finish)
            (kept.enqueues next next_id now (complete id now jobs) stored answer done f)
    ]
  ]
    where
      done : P (complete id now jobs)
      done = complete_kept id now jobs s

pub claim-IsSound :
    (now : ℕ) (worker : String) (jobs : List JobRecord)
    → IsSound jobs
    → IsSound (claim now worker jobs).0
claim-IsSound = claim_kept IsSound IsSound-IsStable

mark_failed-Keeps :
    (now : ℕ) (job : JobRecord) (error : JobError) (row : JobRecord)
    → is_open row.status ≡ true
    → Keeps row (mark_failed now job error row)
unfolding mark_failed
mark_failed-Keeps now job error row o =
    Keeps-row row (mark_failed now job error row) refl refl refl refl (λ _. o)
      (record {
        unlocked = λ _. (refl, refl);
        locked = λ r. absurd (ground arith);
        unfinished = λ r. ground arith;
      })

update_where_congr :
    (test test' : JobRecord → Bool) (change : JobRecord → JobRecord) (jobs : List JobRecord)
    → All (λ job. test job ≡ test' job) jobs
    → update_where test change jobs ≡ update_where test' change jobs
update_where_congr test test' change [] h = refl
update_where_congr test test' change (job ∷ jobs) h =
    rw (h.0, update_where_congr test test' change jobs h.1)

-- Only an open row is written by `fail`.
abbrev pub FailsOpen : JobRecord → List JobRecord → Type 0
FailsOpen job = All (λ row. has_id job.id row ≡ true → is_open row.status ≡ true)

pub fail-IsSound :
    (now : ℕ) (job : JobRecord) (error : JobError) (jobs : List JobRecord)
    → FailsOpen job jobs
    → IsSound jobs
    → IsSound (fail now job error jobs)
unfolding fail
fail-IsSound now job error jobs open_rows s =
    subst IsSound
      (sym (
        update_where_congr (has_id job.id) (λ row. has_id job.id row && is_open row.status)
          (mark_failed now job error) jobs
          (All-imp _ _ jobs (λ row h. ground (arith, Bool-cases (has_id job.id row))) open_rows)))
      (update_where-IsSound (λ row. has_id job.id row && is_open row.status)
        (mark_failed now job error) (λ row h. mark_failed-Keeps now job error row (ground arith))
        jobs s)

-- Whatever row `fail` writes, the table stays tidy.
module _ (now : ℕ) (job : JobRecord) (error : JobError) where
  mark_failed-IsRow : (row : JobRecord) → IsRow (mark_failed now job error row)
  unfolding mark_failed
  mark_failed-IsRow row = record {
    unlocked = λ _. (refl, refl);
    locked = λ r. absurd (ground arith);
    unfinished = λ r. ground arith;
  }

  failed_row : JobRecord → JobRecord
  failed_row row = if has_id job.id row then mark_failed now job error row else row

  failed_row-IsRow : (row : JobRecord) → IsRow row → IsRow (failed_row row)
  unfolding failed_row
  failed_row-IsRow row w = elim (Bool-cases (has_id job.id row)) [
    | inl e ↦ rw e (mark_failed-IsRow row)
    | inr e ↦ rw e w
  ]

  failed_row-keys :
      (row : JobRecord)
      → ((failed_row row).id ≡ row.id) × ((failed_row row).idempotency_key ≡ row.idempotency_key)
  unfolding failed_row mark_failed
  failed_row-keys row = elim (Bool-cases (has_id job.id row)) [
    | inl e ↦ rw e (refl, refl)
    | inr e ↦ rw e (refl, refl)
  ]

  failed_row-Distinct : (a b : JobRecord) → Distinct a b → Distinct (failed_row a) (failed_row b)
  failed_row-Distinct a b apart = record {
    ids = λ e. apart.ids (sym (failed_row-keys a).0 ∙ e ∙ (failed_row-keys b).0);
    keys = λ e. apart.keys (sym (failed_row-keys a).1 ∙ e ∙ (failed_row-keys b).1);
  }

  failed_rows-IsRow :
      (jobs : List JobRecord)
      → All IsRow jobs
      → All IsRow (update_where (has_id job.id) (mark_failed now job error) jobs)
  unfolding failed_row
  failed_rows-IsRow [] h = tt
  failed_rows-IsRow (row ∷ jobs) h = (failed_row-IsRow row h.0, failed_rows-IsRow jobs h.1)

  pub fail-IsTidy : (jobs : List JobRecord) → IsTidy jobs → IsTidy (fail now job error jobs)
  unfolding fail failed_row
  fail-IsTidy jobs s = record {
    distinct = AllPairs-map Distinct failed_row failed_row-Distinct jobs s.distinct;
    rows = failed_rows-IsRow jobs s.rows;
  }

-- A cancelled row is closed, so it only has to be unlocked.
pub mark_cancelled-Keeps :
    (now : ℕ) (job : JobRecord) → is_waiting job.status ≡ true → Keeps job (mark_cancelled now job)
mark_cancelled-Keeps now job h = record {
  id = refl;
  key = refl;
  job_type = refl;
  resource_key = refl;
  opens_none = λ o. absurd (ground arith);
  row = λ w. record {
    unlocked = λ _. w.unlocked (ground arith);
    locked = λ r. absurd (ground arith);
    unfinished = λ o. absurd (ground arith);
  };
}

pub unlocked_cancelled-Keeps :
    (now : ℕ) (job : JobRecord) → Keeps job (unlock (mark_cancelled now job))
unlocked_cancelled-Keeps now job = record {
  id = refl;
  key = refl;
  job_type = refl;
  resource_key = refl;
  opens_none = λ o. absurd (ground arith);
  row = λ w. record {
    unlocked = λ _. (refl, refl);
    locked = λ r. absurd (ground arith);
    unfinished = λ o. absurd (ground arith);
  };
}
