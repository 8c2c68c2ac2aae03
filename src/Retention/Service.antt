-- ===== src/Retention/Service.antt =====
-- `RetentionService` (api/src/services/retention.ts). A table is the list of the times of its rows by which they are
-- deleted; `today` is the date of the time that `Date.now` gives, as a text.
use cryptotracker.Base.{
  ℕ, ◌-◌, ◌*◌, ltb, Bool, false, not, String, str_eq, Option, none, some, List, filter, count,
  if◌then◌else◌,
}
use cryptotracker.Jobs.Record.{JobRecord}
use cryptotracker.Jobs.Purge.{apply_failed_jobs}

pub record Tables : Type 0 where
  pub market_points : List ℕ
  pub address_balance_points : List ℕ
  pub kraken_snapshots : List ℕ
  pub kraken_account_observations : List ℕ
  pub portfolio_snapshots : List ℕ

-- The numbers of deleted rows.
pub record Deleted : Type 0 where
  pub market_points : ℕ
  pub address_balance_points : ℕ
  pub kraken_snapshots : ℕ
  pub kraken_account_observations : ℕ
  pub portfolio_snapshots : ℕ

abbrev pub is_old : ℕ → ℕ → Bool
is_old cutoff time = ltb time cutoff

abbrev pub kept : ℕ → List ℕ → List ℕ
kept cutoff rows = filter (λ time. not (is_old cutoff time)) rows

-- A cutoff before the epoch is written 0, as no time lies before either.
abbrev pub cutoff_of : ℕ → ℕ → ℕ
cutoff_of days now = now - days * 86400000

-- The transaction of `apply`.
unfoldable pub apply : Option ℕ → ℕ → Tables → Tables × Deleted
apply none now tables = (
  tables,
  record {
    market_points = 0;
    address_balance_points = 0;
    kraken_snapshots = 0;
    kraken_account_observations = 0;
    portfolio_snapshots = 0;
  },
)
apply (some days) now tables =
    let cutoff = cutoff_of days now in
    (
      record {
        market_points = kept cutoff tables.market_points;
        address_balance_points = kept cutoff tables.address_balance_points;
        kraken_snapshots = kept cutoff tables.kraken_snapshots;
        kraken_account_observations = kept cutoff tables.kraken_account_observations;
        portfolio_snapshots = kept cutoff tables.portfolio_snapshots;
      },
      record {
        market_points = count (is_old cutoff) tables.market_points;
        address_balance_points = count (is_old cutoff) tables.address_balance_points;
        kraken_snapshots = count (is_old cutoff) tables.kraken_snapshots;
        kraken_account_observations = count (is_old cutoff) tables.kraken_account_observations;
        portfolio_snapshots = count (is_old cutoff) tables.portfolio_snapshots;
      },
    )

pub record Retained : Type 0 where
  pub last_scheduled_day : Option String
  pub tables : Tables
  pub jobs : List JobRecord

abbrev pub is_day : String → Option String → Bool
is_day today none = false
is_day today (some day) = str_eq day today

unfoldable pub apply_scheduled : Option ℕ → String → ℕ → Retained → Retained × Option Deleted
unfolding apply
apply_scheduled retention_days today now r =
    if is_day today r.last_scheduled_day
    then (r, none)
    else let (tables, deleted) = apply retention_days now r.tables in
      (record r { last_scheduled_day = some today; tables = tables }, some deleted)

unfoldable pub apply_all_scheduled :
    Option ℕ → Option ℕ → String → ℕ → Retained → Retained × Option (Deleted × ℕ)
unfolding apply apply_failed_jobs
apply_all_scheduled retention_days failed_job_retention_hours today now r =
    if is_day today r.last_scheduled_day
    then (r, none)
    else let (tables, deleted) = apply retention_days now r.tables in
      let (jobs, failed_jobs) = apply_failed_jobs failed_job_retention_hours now r.jobs in
      (
        record { last_scheduled_day = some today; tables = tables; jobs = jobs },
        some (deleted, failed_jobs),
      )
