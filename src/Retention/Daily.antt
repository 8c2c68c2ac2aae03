-- ===== src/Retention/Daily.antt =====
-- What a scheduled run deletes, and how often (api/src/services/retention.ts).
use cryptotracker.Base.{
  ℕ, ◌+◌, ◌-◌, ◌*◌, ◌≤◌, leb, ◌≡◌, refl, sym, ap, Bool, true, false, not, String, eq_iff, Option,
  none, some, List, [], ◌∷◌, filter, count, length, length-filter, All, All-imp, filter-All,
  Bool-cases, inl, inr, arith,
}
use cryptotracker.Jobs.Record.{
  JobStatus, queued, running, retry, completed, failed, cancelled, JobRecord, is_open, is_failed,
}
use cryptotracker.Jobs.Purge.{apply_failed_jobs, is_old_failure}
use cryptotracker.Retention.Service.{
  Deleted, is_old, kept, cutoff_of, apply, Retained, is_day, apply_all_scheduled,
}

-- A table after a run: the rows that are not older than the days say, in their order, and the count of the others.
pub record IsTrimmed (days now : ℕ) (before after : List ℕ) (deleted : ℕ) : Type 0 where
  pub exactly : after ≡ filter (λ time. leb now (time + days * 86400000)) before
  pub recent : All (λ time. now ≤ time + days * 86400000) after
  pub all_counted : length after + deleted ≡ length before
  pub only_old : count (λ time. not (is_old (cutoff_of days now) time)) before ≡ length after

recent_enough :
    (days now time : ℕ)
    → not (is_old (cutoff_of days now) time) ≡ true
    → now ≤ time + days * 86400000
recent_enough days now time h = ground (arith, h)

length-filter_count :
    (test : ℕ → Bool) (rows : List ℕ)
    → length (filter (λ time. not (test time)) rows) + count test rows ≡ length rows
length-filter_count test [] = omega arith
length-filter_count test (time ∷ rows) = ground (arith, length-filter_count test rows)

filter_congr :
    (test other : ℕ → Bool)
    → ((time : ℕ) → test time ≡ other time)
    → (rows : List ℕ) → filter test rows ≡ filter other rows
filter_congr test other same [] = refl
filter_congr test other same (time ∷ rows) = rw (same time, filter_congr test other same rows) refl

kept-IsTrimmed :
    (days now : ℕ) (rows : List ℕ)
    → IsTrimmed days now rows
        (kept (cutoff_of days now) rows)
        (count (is_old (cutoff_of days now)) rows)
kept-IsTrimmed days now rows = record {
  exactly =
      filter_congr (λ time. not (is_old (cutoff_of days now) time))
        (λ time. leb now (time + days * 86400000)) (λ time. ground arith) rows;
  recent =
      All-imp (λ time. not (is_old (cutoff_of days now) time) ≡ true) _
        (kept (cutoff_of days now) rows) (recent_enough days now)
        (filter-All (λ time. not (is_old (cutoff_of days now) time)) rows);
  all_counted = length-filter_count (is_old (cutoff_of days now)) rows;
  only_old = sym (length-filter (λ time. not (is_old (cutoff_of days now) time)) rows);
}

-- The open jobs among some.
abbrev open_jobs : List JobRecord → List JobRecord
open_jobs jobs = filter (λ job. is_open job.status) jobs

failed-closed : (status : JobStatus) → is_failed status ≡ true → is_open status ≡ false
failed-closed queued h = cc
failed-closed running h = cc
failed-closed retry h = cc
failed-closed completed h = cc
failed-closed cancelled h = cc
failed-closed failed h = refl

open_jobs-kept :
    (cutoff : ℕ) (jobs : List JobRecord)
    → open_jobs (filter (λ job. not (is_old_failure cutoff job)) jobs) ≡ open_jobs jobs
open_jobs-kept cutoff [] = refl
open_jobs-kept cutoff (job ∷ jobs) = elim (Bool-cases (is_old_failure cutoff job)) [
  | inl e ↦
      let closed = failed-closed job.status (ground (arith, e)) in
      rw (e, closed) (open_jobs-kept cutoff jobs)
  | inr e ↦ elim (Bool-cases (is_open job.status)) [
    | inl f ↦ rw (e, f) (ap (λ rest. job ∷ rest) (open_jobs-kept cutoff jobs))
    | inr f ↦ rw (e, f) (open_jobs-kept cutoff jobs)
  ]
]

apply_failed_jobs-open_jobs :
    (hours : Option ℕ) (now : ℕ) (jobs : List JobRecord)
    → open_jobs (apply_failed_jobs hours now jobs).0 ≡ open_jobs jobs
unfolding apply_failed_jobs
apply_failed_jobs-open_jobs none now jobs = refl
apply_failed_jobs-open_jobs (some hours) now jobs = open_jobs-kept (now - hours * 3600000) jobs

pub record IsDaily (days : ℕ) (hours : Option ℕ) (today : String) (now : ℕ)
    (before after : Retained) (deleted : Deleted) : Type 0 where
  pub market_points :
      IsTrimmed days now before.tables.market_points after.tables.market_points
        deleted.market_points
  pub address_balance_points :
      IsTrimmed days now before.tables.address_balance_points after.tables.address_balance_points
        deleted.address_balance_points
  pub kraken_snapshots :
      IsTrimmed days now before.tables.kraken_snapshots after.tables.kraken_snapshots
        deleted.kraken_snapshots
  pub kraken_account_observations :
      IsTrimmed days now before.tables.kraken_account_observations
        after.tables.kraken_account_observations deleted.kraken_account_observations
  pub portfolio_snapshots :
      IsTrimmed days now before.tables.portfolio_snapshots after.tables.portfolio_snapshots
        deleted.portfolio_snapshots
  pub kept_jobs : open_jobs after.jobs ≡ open_jobs before.jobs
  pub once : (later : ℕ) → apply_all_scheduled (some days) hours today later after ≡ (after, none)

-- The first run of a day deletes from every table exactly the rows older than the days that are kept, and tells how
-- many; it keeps all open jobs; and a later run of the same day does nothing.
pub apply_all_scheduled-IsDaily :
    (days : ℕ) (hours : Option ℕ) (today : String) (now : ℕ) (before : Retained)
    → is_day today before.last_scheduled_day ≡ false
    → (after : Retained) × (deleted : Deleted) × (failed_jobs : ℕ) × (apply_all_scheduled
          (some days)
          hours
          today
          now
          before
        ≡ (after, some (deleted, failed_jobs)))
      × IsDaily days hours today now before after deleted
unfolding apply_all_scheduled apply
apply_all_scheduled-IsDaily days hours today now before new =
    let result = apply (some days) now before.tables in
    let jobs = apply_failed_jobs hours now before.jobs in
    (
      record { last_scheduled_day = some today; tables = result.0; jobs = jobs.0 },
      result.1,
      jobs.1,
      rw (new, apply_all_scheduled) refl,
      record {
        market_points = kept-IsTrimmed days now before.tables.market_points;
        address_balance_points = kept-IsTrimmed days now before.tables.address_balance_points;
        kraken_snapshots = kept-IsTrimmed days now before.tables.kraken_snapshots;
        kraken_account_observations =
            kept-IsTrimmed days now before.tables.kraken_account_observations;
        portfolio_snapshots = kept-IsTrimmed days now before.tables.portfolio_snapshots;
        kept_jobs = apply_failed_jobs-open_jobs hours now before.jobs;
        once = λ later. rw ((eq_iff today today).1 refl, apply_all_scheduled) refl;
      },
    )
