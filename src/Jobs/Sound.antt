-- ===== src/Jobs/Sound.antt =====
-- The invariant of the jobs table (api/src/jobs/queue.ts), and updates of rows that keep it.
use mathlib.Core.Logic.{◌≢◌}
use cryptotracker.Base.{
  ℕ, String, some, sym, subst, arith, eq_iff, filter, any-false, All-imp, All-append, All-filter,
  AllPairs-push, AllPairs-filter, ◌≡◌, refl, Bool, true, false, none, List, [], ◌∷◌, All, AllPairs,
  AllPairs-map, Bool-cases, inl, inr, if◌then◌else◌,
}
use cryptotracker.Jobs.Record.{JobRecord, is_open, is_running, update_where}
use cryptotracker.Jobs.Enqueue.{JobContinuation, EnqueueResult, new_job, enqueue}
use cryptotracker.Jobs.Serial.{
  Apart, IsSerial, clashes, joined, inserted, enqueue-Enqueued, enqueue-IsSerial,
}

-- A lock is held exactly while the job runs, and an open job has no completion time.
pub record IsRow (job : JobRecord) : Type 0 where
  pub unlocked : is_running job.status ≡ false → (job.locked_at_ms ≡ none) × (job.locked_by ≡ none)
  pub locked : is_running job.status ≡ true → (job.locked_at_ms ≢ none) × (job.locked_by ≢ none)
  pub unfinished : is_open job.status ≡ true → job.completed_at_ms ≡ none

pub record IsSound (jobs : List JobRecord) : Type 0 where
  pub serial : IsSerial jobs
  pub rows : All IsRow jobs

-- Two rows have different ids and idempotency keys.
pub record Distinct (a b : JobRecord) : Type 0 where
  pub ids : a.id ≢ b.id
  pub keys : a.idempotency_key ≢ b.idempotency_key

-- What holds of the table also where a closed job is opened again.
pub record IsTidy (jobs : List JobRecord) : Type 0 where
  pub distinct : AllPairs Distinct jobs
  pub rows : All IsRow jobs

-- A change of a row that keeps its keys, opens no closed job and keeps the row's own invariant.
pub record Keeps (job new : JobRecord) : Type 0 where
  pub id : new.id ≡ job.id
  pub key : new.idempotency_key ≡ job.idempotency_key
  pub job_type : new.job_type ≡ job.job_type
  pub resource_key : new.resource_key ≡ job.resource_key
  pub opens_none : is_open new.status ≡ true → is_open job.status ≡ true
  pub row : IsRow job → IsRow new

pub Keeps-refl : (job : JobRecord) → Keeps job job
Keeps-refl job = record {
  id = refl;
  key = refl;
  job_type = refl;
  resource_key = refl;
  opens_none = λ h. h;
  row = λ h. h;
}

pub Apart-Keeps : (a b a' b' : JobRecord) → Keeps a a' → Keeps b b' → Apart a b → Apart a' b'
Apart-Keeps a b a' b' ka kb apart = record {
  ids = λ e. apart.ids (cc);
  keys = λ e. apart.keys (cc);
  slots = λ oa ob t r. apart.slots (ka.opens_none oa) (kb.opens_none ob) (cc) (cc);
}

Distinct-Keeps : (a b a' b' : JobRecord) → Keeps a a' → Keeps b b' → Distinct a b → Distinct a' b'
Distinct-Keeps a b a' b' ka kb apart = record {
  ids = λ e. apart.ids (cc);
  keys = λ e. apart.keys (cc);
}

module _ (test : JobRecord → Bool) (change : JobRecord → JobRecord)
    (keep : (job : JobRecord) → test job ≡ true → Keeps job (change job)) where
  keep_where : (job : JobRecord) → Keeps job (if test job then change job else job)
  keep_where job = elim (Bool-cases (test job)) [
    | inl e ↦ rw e (keep job e)
    | inr e ↦ rw e (Keeps-refl job)
  ]

  rows_where : (jobs : List JobRecord) → All IsRow jobs → All IsRow (update_where test change jobs)
  rows_where [] h = tt
  rows_where (job ∷ jobs) h = ((keep_where job).row h.0, rows_where jobs h.1)

  pub update_where-IsSound :
      (jobs : List JobRecord) → IsSound jobs → IsSound (update_where test change jobs)
  update_where-IsSound jobs s = record {
    serial =
        AllPairs-map Apart (λ job. if test job then change job else job)
          (λ a b. Apart-Keeps a b _ _ (keep_where a) (keep_where b)) jobs s.serial;
    rows = rows_where jobs s.rows;
  }

  pub update_where-IsTidy :
      (jobs : List JobRecord) → IsTidy jobs → IsTidy (update_where test change jobs)
  update_where-IsTidy jobs s = record {
    distinct =
        AllPairs-map Distinct (λ job. if test job then change job else job)
          (λ a b. Distinct-Keeps a b _ _ (keep_where a) (keep_where b)) jobs s.distinct;
    rows = rows_where jobs s.rows;
  }

pub Keeps-row :
    (job new : JobRecord)
    → new.id ≡ job.id
    → new.idempotency_key ≡ job.idempotency_key
    → new.job_type ≡ job.job_type
    → new.resource_key ≡ job.resource_key
    → (is_open new.status ≡ true → is_open job.status ≡ true)
    → IsRow new
    → Keeps job new
Keeps-row job new i k t r o w = record {
  id = i;
  key = k;
  job_type = t;
  resource_key = r;
  opens_none = o;
  row = λ _. w;
}

-- A property of tables that every update of `Keeps`, every new job and every deletion keep.
pub record IsStable (P : List JobRecord → Type 0) : Type 0 where
  pub updates :
      (test : JobRecord → Bool) (change : JobRecord → JobRecord)
      → ((job : JobRecord) → test job ≡ true → Keeps job (change job))
      → (jobs : List JobRecord) → P jobs
      → P (update_where test change jobs)
  pub enqueues :
      (request : JobContinuation) (id : String) (now : ℕ) (jobs stored : List JobRecord)
      (result : EnqueueResult)
      → P jobs
      → enqueue request id now jobs ≡ some (stored, result)
      → P stored
  pub deletes : (test : JobRecord → Bool) (jobs : List JobRecord) → P jobs → P (filter test jobs)

new_job-IsRow : (request : JobContinuation) (id : String) (now : ℕ) → IsRow (new_job request id now)
new_job-IsRow request id now = record {
  unlocked = λ _. (refl, refl);
  locked = λ h. absurd (ground arith);
  unfinished = λ _. refl;
}

rows-enqueue :
    (request : JobContinuation) (id : String) (now : ℕ) (jobs stored : List JobRecord)
    (result : EnqueueResult)
    → All IsRow jobs
    → enqueue request id now jobs ≡ some (stored, result)
    → All IsRow stored
rows-enqueue request id now jobs stored result rows h =
    elim (enqueue-Enqueued request id now jobs stored result h) [
      | joined job how same _ ↦ subst (All IsRow) (sym same) rows
      | inserted _ _ grown _ ↦ subst (All IsRow) (sym grown) (
          All-append IsRow jobs (new_job request id now ∷ []) rows
            (new_job-IsRow request id now, tt))
    ]

Distinct-new :
    (request : JobContinuation) (id : String) (now : ℕ) (job : JobRecord)
    → clashes request id job ≡ false
    → Distinct job (new_job request id now)
Distinct-new request id now job fresh = record {
  ids = λ e. ground (arith, eq_iff job.id id);
  keys = λ e. ground (arith, eq_iff job.idempotency_key request.idempotency_key);
}

enqueue-IsTidy :
    (request : JobContinuation) (id : String) (now : ℕ) (jobs stored : List JobRecord)
    (result : EnqueueResult)
    → IsTidy jobs
    → enqueue request id now jobs ≡ some (stored, result)
    → IsTidy stored
enqueue-IsTidy request id now jobs stored result s h = record {
  distinct = elim (enqueue-Enqueued request id now jobs stored result h) [
    | joined job how same _ ↦ subst (AllPairs Distinct) (sym same) s.distinct
    | inserted _ fresh grown _ ↦ subst (AllPairs Distinct) (sym grown) (
        AllPairs-push Distinct jobs (new_job request id now)
          (All-imp _ _ jobs (Distinct-new request id now)
            (any-false (clashes request id) jobs fresh))
          s.distinct)
  ];
  rows = rows-enqueue request id now jobs stored result s.rows h;
}

pub IsSound-IsStable : IsStable IsSound
IsSound-IsStable = record {
  updates = update_where-IsSound;
  enqueues = λ request id now jobs stored result s h. record {
    serial = enqueue-IsSerial request id now jobs stored result s.serial h;
    rows = rows-enqueue request id now jobs stored result s.rows h;
  };
  deletes = λ test jobs s. record {
    serial = AllPairs-filter Apart test jobs s.serial;
    rows = All-filter IsRow test jobs s.rows;
  };
}

pub IsTidy-IsStable : IsStable IsTidy
IsTidy-IsStable = record {
  updates = update_where-IsTidy;
  enqueues = enqueue-IsTidy;
  deletes = λ test jobs s. record {
    distinct = AllPairs-filter Distinct test jobs s.distinct;
    rows = All-filter IsRow test jobs s.rows;
  };
}
