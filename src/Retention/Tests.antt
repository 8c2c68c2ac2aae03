-- ===== src/Retention/Tests.antt =====
-- A run of the retention (api/src/services/retention.ts), and the theorem at it.
use cryptotracker.Base.{ℕ, ◌≡◌, refl, none, some, [], ◌∷◌}
use cryptotracker.Retention.Service.{Tables, Deleted, apply, Retained, apply_all_scheduled}
use cryptotracker.Retention.Daily.{IsDaily, apply_all_scheduled-IsDaily}

abbrev tables : Tables
tables = record {
  market_points = 100 ∷ 90000000 ∷ [];
  address_balance_points = 86400000 ∷ [];
  kraken_snapshots = [];
  kraken_account_observations = 200000000 ∷ 5 ∷ [];
  portfolio_snapshots = 1 ∷ [];
}

abbrev retained : Retained
retained = record { last_scheduled_day = some "1970-01-01"; tables = tables; jobs = [] }

one_day_back : (apply (some 1) 172800000 tables).0.market_points ≡ 90000000 ∷ []
unfolding apply
one_day_back = refl

apply_all_scheduled-IsDaily_example :
    (after : Retained) × (deleted : Deleted) × (failed_jobs : ℕ) × (apply_all_scheduled
        (some 1)
        none
        "1970-01-03"
        172800000
        retained
      ≡ (after, some (deleted, failed_jobs)))
    × IsDaily 1 none "1970-01-03" 172800000 retained after deleted
apply_all_scheduled-IsDaily_example =
    apply_all_scheduled-IsDaily 1 none "1970-01-03" 172800000 retained refl
