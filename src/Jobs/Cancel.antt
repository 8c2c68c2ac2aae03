-- ===== src/Jobs/Cancel.antt =====
-- The statements of other services that cancel jobs: `delete` of api/src/services/addresses.ts,
-- `cancelMarketSyncForAsset` and `cancelIfDisabled` of api/src/services/market.ts.
use cryptotracker.Base.{ℕ, String, Bool, ◌&&◌, none, some, List, str_eq}
use cryptotracker.Jobs.Record.{JobRecord, cancelled, is_waiting, is_running, has_id, update_where}

abbrev pub mark_cancelled : ℕ → JobRecord → JobRecord
mark_cancelled now job = record job {
  status = cancelled;
  completed_at_ms = some now;
  updated_at_ms = now;
}

abbrev pub unlock : JobRecord → JobRecord
unlock job = record job { locked_at_ms = none; locked_by = none }

-- `resource` is the text `address:${id}`.
unfoldable pub cancel_address_jobs : String → ℕ → List JobRecord → List JobRecord
cancel_address_jobs resource now jobs =
    update_where (λ job. str_eq job.resource_key resource && is_waiting job.status)
      (mark_cancelled now) jobs

-- `like` is the database's test `resource_key LIKE '%:asset:%'`.
unfoldable pub cancel_market_jobs : (String → Bool) → ℕ → List JobRecord → List JobRecord
cancel_market_jobs like now jobs =
    update_where
      (λ job. str_eq job.job_type "market.sync" && (is_waiting job.status && like job.resource_key))
      (λ job. unlock (mark_cancelled now job)) jobs

unfoldable pub cancel_if_disabled : String → ℕ → List JobRecord → List JobRecord
cancel_if_disabled id now jobs =
    update_where (λ job. has_id id job && is_running job.status)
      (λ job. unlock (mark_cancelled now job)) jobs
