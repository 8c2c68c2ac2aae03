-- ===== src/Jobs/Serial.antt =====
-- The queue's main invariant, and `enqueue` (api/src/jobs/queue.ts) against it.
use mathlib.Core.Logic.{◌≢◌}
use cryptotracker.Base.{
  ℕ, String, ◌≡◌, ◌⊎◌, refl, sym, subst, ap, ◌∙◌, Bool, true, false, ◌&&◌, ◌||◌, none, some, List,
  [], ◌∷◌, ◌++◌, arith, str_eq, eq_iff, All, AllPairs, AllPairs-push, All-imp, All-imp₂, any,
  any-false, any_of_false, filter, filter-nil, filter-append, find?-none, find?_of_false,
  Option-cases, Bool-cases, inl, inr,
}
use cryptotracker.Jobs.Record.{JobRecord, is_open, has_id, has_resource, get_job}
use cryptotracker.Jobs.Enqueue.{
  JobContinuation, EnqueueResult, new_job, first_least, created_before, open_job, known_job,
  enqueue,
}

-- Two rows have different keys, and are not both open for one job type and resource.
pub record Apart (a b : JobRecord) : Type 0 where
  pub ids : a.id ≢ b.id
  pub keys : a.idempotency_key ≢ b.idempotency_key
  pub slots :
      is_open a.status ≡ true
      → is_open b.status ≡ true
      → a.job_type ≡ b.job_type
      → a.resource_key ≢ b.resource_key

abbrev pub IsSerial : List JobRecord → Type 0
IsSerial = AllPairs Apart

pub first_least-none :
    (less : JobRecord → JobRecord → Bool) (xs : List JobRecord)
    → first_least less xs ≡ none
    → xs ≡ []
unfolding first_least
first_least-none less [] h = refl
first_least-none less (x ∷ xs) h = absurd (ground arith)

-- Without an open job of the resource, without the key and the id, the new row is apart from `job`.
Apart-new :
    (request : JobContinuation) (id : String) (now : ℕ) (job : JobRecord)
    → (has_resource request.job_type request.resource_key job && is_open job.status) ≡ false
    → (has_id id job || str_eq job.idempotency_key request.idempotency_key) ≡ false
    → Apart job (new_job request id now)
Apart-new request id now job closed fresh = record {
  ids = λ e. ground (arith, eq_iff job.id id);
  keys = λ e. ground (arith, eq_iff job.idempotency_key request.idempotency_key);
  slots = λ o _ t r.
      ground
        (arith, eq_iff job.job_type request.job_type, eq_iff job.resource_key request.resource_key);
}

-- The test that the INSERT's constraints make of a row.
abbrev pub clashes : JobContinuation → String → JobRecord → Bool
clashes request id old = has_id id old || str_eq old.idempotency_key request.idempotency_key

abbrev pub competes : JobContinuation → JobRecord → Bool
competes request job = has_resource request.job_type request.resource_key job && is_open job.status

-- What `enqueue` did: it coalesced with a row, or appended the new row that nothing clashes with.
pub data Enqueued (request : JobContinuation) (id : String) (now : ℕ) (jobs stored : List JobRecord)
    (result : EnqueueResult) : Type 0 where
  joined :
      (job : JobRecord)
      → (open_job request jobs ≡ some job)
        ⊎ ((open_job request jobs ≡ none) × (known_job request jobs ≡ some job))
      → stored ≡ jobs
      → result ≡ record { job = some job; coalesced = true }
      → Enqueued request id now jobs stored result
  inserted :
      open_job request jobs ≡ none
      → any (clashes request id) jobs ≡ false
      → stored ≡ jobs ++ new_job request id now ∷ []
      → result ≡ record { job = get_job id stored; coalesced = false }
      → Enqueued request id now jobs stored result

pub enqueue-Enqueued :
    (request : JobContinuation) (id : String) (now : ℕ) (jobs stored : List JobRecord)
    (result : EnqueueResult)
    → enqueue request id now jobs ≡ some (stored, result)
    → Enqueued request id now jobs stored result
unfolding enqueue
enqueue-Enqueued request id now jobs stored result h = elim (Option-cases (open_job request jobs)) [
  | inr (a, e) ↦ Enqueued.joined a (inl e) (ground arith) (ground arith)
  | inl free ↦ elim (Option-cases (known_job request jobs)) [
    | inr (k, e) ↦ Enqueued.joined k (inr (free, e)) (ground arith) (ground arith)
    | inl unknown ↦ elim (Bool-cases (any (clashes request id) jobs)) [
      | inl clash ↦ absurd (ground arith)
      | inr fresh ↦ Enqueued.inserted free fresh (ground arith) (ground arith)
    ]
  ]
]

not-open_job :
    (request : JobContinuation) (jobs : List JobRecord)
    → open_job request jobs ≡ none
    → filter (competes request) jobs ≡ []
unfolding open_job
not-open_job request jobs h = first_least-none created_before (filter (competes request) jobs) h

-- Enqueueing keeps the table serial: ids and idempotency keys stay unique, and no job type and
-- resource gets a second open job.
pub enqueue-IsSerial :
    (request : JobContinuation) (id : String) (now : ℕ) (jobs stored : List JobRecord)
    (result : EnqueueResult)
    → IsSerial jobs
    → enqueue request id now jobs ≡ some (stored, result)
    → IsSerial stored
enqueue-IsSerial request id now jobs stored result s h =
    elim (enqueue-Enqueued request id now jobs stored result h) [
      | joined job how same _ ↦ subst IsSerial (sym same) s
      | inserted free fresh grown _ ↦ subst IsSerial (sym grown) (
          AllPairs-push Apart jobs (new_job request id now)
            (All-imp₂ _ _ _ jobs (Apart-new request id now)
              (filter-nil (competes request) jobs (not-open_job request jobs free))
              (any-false (clashes request id) jobs fresh))
            s)
    ]

competes-new :
    (request : JobContinuation) (id : String) (now : ℕ)
    → competes request (new_job request id now) ≡ true
competes-new request id now = rw (
  (eq_iff request.job_type request.job_type).1 refl,
  (eq_iff request.resource_key request.resource_key).1 refl,
)

has_id-new :
    (request : JobContinuation) (id : String) (now : ℕ) → has_id id (new_job request id now) ≡ true
has_id-new request id now = (eq_iff id id).1 refl

open_job-grown :
    (request : JobContinuation) (id : String) (now : ℕ) (jobs : List JobRecord)
    → open_job request jobs ≡ none
    → open_job request (jobs ++ new_job request id now ∷ []) ≡ some (new_job request id now)
unfolding open_job first_least
open_job-grown request id now jobs free =
    ap (first_least created_before) {y = new_job request id now ∷ []} (
      filter-append (competes request) jobs (new_job request id now ∷ [])
      ∙ rw (not-open_job request jobs free, competes-new request id now))

get_job-grown :
    (request : JobContinuation) (id : String) (now : ℕ) (jobs : List JobRecord)
    → any (clashes request id) jobs ≡ false
    → get_job id (jobs ++ new_job request id now ∷ []) ≡ some (new_job request id now)
unfolding get_job
get_job-grown request id now jobs fresh =
    find?_of_false (has_id id) jobs (new_job request id now ∷ [])
      (All-imp _ _ jobs (λ job no_clash. ground arith) (any-false (clashes request id) jobs fresh))
    ∙ rw (has_id-new request id now)

known_job-none :
    (request : JobContinuation) (jobs : List JobRecord)
    → known_job request jobs ≡ none
    → All (λ job. str_eq job.idempotency_key request.idempotency_key ≡ false) jobs
unfolding known_job
known_job-none request jobs h = find?-none _ jobs h

-- `enqueue` when an open job or the key is known already.
enqueue_joined :
    (request : JobContinuation) (id : String) (now : ℕ) (jobs : List JobRecord) (job : JobRecord)
    → (open_job request jobs ≡ some job)
      ⊎ ((open_job request jobs ≡ none) × (known_job request jobs ≡ some job))
    → enqueue request id now jobs ≡ some (jobs, record { job = some job; coalesced = true })
unfolding enqueue
enqueue_joined request id now jobs job (inl e) = ground arith
enqueue_joined request id now jobs job (inr (e, k)) = ground arith

-- Enqueueing the same request a second time, at any later moment, adds nothing and answers with the
-- row of the first time.
enqueue_again :
    (request : JobContinuation) (id id' : String) (now now' : ℕ) (jobs stored : List JobRecord)
    (result : EnqueueResult)
    → enqueue request id now jobs ≡ some (stored, result)
    → enqueue request id' now' stored ≡ some (stored, record { job = result.job; coalesced = true })
enqueue_again request id id' now now' jobs stored result h =
    elim (enqueue-Enqueued request id now jobs stored result h) [
      | joined job how same answer ↦
          rw (same, answer) (enqueue_joined request id' now' jobs job how)
      | inserted free fresh grown answer ↦
          rw (answer, grown, get_job-grown request id now jobs fresh)
            (enqueue_joined request id' now' _ _ (inl (open_job-grown request id now jobs free)))
    ]

-- With an id that no row has, `enqueue` never fails on a constraint of the table.
enqueue_succeeds :
    (request : JobContinuation) (id : String) (now : ℕ) (jobs : List JobRecord)
    → All (λ job. job.id ≢ id) jobs
    → (stored : List JobRecord) × (result : EnqueueResult) × (enqueue request id now jobs
        ≡ some (stored, result))
unfolding enqueue
enqueue_succeeds request id now jobs fresh = elim (Option-cases (open_job request jobs)) [
  | inr (a, e) ↦ (jobs, record { job = some a; coalesced = true }, ground arith)
  | inl free ↦ elim (Option-cases (known_job request jobs)) [
    | inr (k, e) ↦ (jobs, record { job = some k; coalesced = true }, ground arith)
    | inl unknown ↦
        let no_clash : any (clashes request id) jobs ≡ false =
          any_of_false (clashes request id) jobs (
            All-imp₂ _ _ _ jobs (λ job other no_key. ground (arith, eq_iff job.id id)) fresh
              (known_job-none request jobs unknown)) in
        let grown = jobs ++ new_job request id now ∷ [] in
        (grown, record { job = get_job id grown; coalesced = false }, ground arith)
  ]
]
