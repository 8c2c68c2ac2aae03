-- ===== src/Jobs/Choice.antt =====
-- Which job `claim` takes, and that it always succeeds when a job is due (api/src/jobs/queue.ts).
use mathlib.Core.List.{Memᴰ}
use mathlib.Core.Logic.{◌≢◌, ◌↔◌}
use cryptotracker.Base.{
  ℕ, suc, ◌+◌, String, str_eq, Option, ◌++◌, ◌≡◌, refl, sym, subst, ap, Bool, true, false, none,
  some, List, [], ◌∷◌, arith, eq_iff, All, All-imp, All-Memᴰ, count, filter, filter-nil,
  filter_of_false, filter-All, Memᴰ-filter, Option-cases, Bool-cases, inl, inr,
}
use cryptotracker.Jobs.Record.{JobRecord, running, is_waiting, is_running, get_job}
use cryptotracker.Jobs.Enqueue.{first_least}
use cryptotracker.Jobs.Claim.{is_due, runs_before, candidate, mark_running, start_job, claim}
use cryptotracker.Jobs.Serial.{Apart, IsSerial, first_least-none}

module _ (less : JobRecord → JobRecord → Bool) (irrefl : (x : JobRecord) → less x x ≡ false)
    (asym : (x y : JobRecord) → less x y ≡ true → less y x ≡ false)
    (negtrans : (x y z : JobRecord) → less x y ≡ false → less y z ≡ false → less x z ≡ false) where
  first_least_lem :
      (xs : List JobRecord) (a : JobRecord)
      → first_least less xs ≡ some a
      → Memᴰ a xs × All (λ x. less x a ≡ false) xs
  unfolding first_least
  first_least_lem [] a h = absurd (grind arith)
  first_least_lem (x ∷ xs) a h = elim (Option-cases (first_least less xs)) [
    | inl e ↦
        let same : x ≡ a = ground arith in
        let empty = first_least-none less xs e in
        (
          Memᴰ.head (sym same),
          (
            subst (λ b. less x b ≡ false) same (irrefl x),
            subst (All (λ z. less z a ≡ false)) (sym empty) tt,
          ),
        )
    | inr (y, e) ↦
        let (listed, least) = first_least_lem xs y e in
        elim (Bool-cases (less y x)) [
          | inl sooner ↦
              let same : y ≡ a = ground arith in
              subst (λ b. Memᴰ b (x ∷ xs) × All (λ z. less z b ≡ false) (x ∷ xs)) same
                (Memᴰ.tail listed, (asym y x sooner, least))
          | inr later ↦
              let same : x ≡ a = ground arith in
              subst (λ b. Memᴰ b (x ∷ xs) × All (λ z. less z b ≡ false) (x ∷ xs)) same
                (Memᴰ.head refl, (irrefl x, All-imp _ _ xs (λ z h. negtrans z y x h later) least))
        ]
  ]

runs_before_irrefl : (x : JobRecord) → runs_before x x ≡ false
runs_before_irrefl x = ground arith

runs_before_asym : (x y : JobRecord) → runs_before x y ≡ true → runs_before y x ≡ false
runs_before_asym x y h = ground arith

runs_before_negtrans :
    (x y z : JobRecord)
    → runs_before x y ≡ false
    → runs_before y z ≡ false
    → runs_before x z ≡ false
runs_before_negtrans x y z h k = ground arith

filter_bounds {ℓ} :
    {A : Type ℓ} (test less : A → Bool) (xs : List A)
    → All (λ x. less x ≡ false) (filter test xs)
    → All (λ x. test x ≡ true → less x ≡ false) xs
filter_bounds test less [] h = tt
filter_bounds test less (x ∷ xs) h = elim (Bool-cases (test x)) [
  | inl e ↦ let h' = rw e at h in (λ _. h'.0, filter_bounds test less xs h'.1)
  | inr e ↦ (λ t. absurd (ground arith), filter_bounds test less xs (rw e at h))
]

-- The row that a claim takes.
pub record IsChosen (now : ℕ) (jobs : List JobRecord) (job : JobRecord) : Type 0 where
  pub listed : Memᴰ job jobs
  pub due : is_due now job ≡ true
  pub first : All (λ other. is_due now other ≡ true → runs_before other job ≡ false) jobs

candidate-IsChosen :
    (now : ℕ) (jobs : List JobRecord) (job : JobRecord)
    → candidate now jobs ≡ some job
    → IsChosen now jobs job
unfolding candidate
candidate-IsChosen now jobs job h =
    let (listed, least) =
      first_least_lem runs_before runs_before_irrefl runs_before_asym runs_before_negtrans
        (filter (is_due now) jobs) job h in
    record {
      listed = Memᴰ-filter (is_due now) jobs job listed;
      due = All-Memᴰ _ _ job (filter-All (is_due now) jobs) listed;
      first = filter_bounds (is_due now) (λ other. runs_before other job) jobs least;
    }

candidate-none :
    (now : ℕ) (jobs : List JobRecord)
    → candidate now jobs ≡ none
    → All (λ job. is_due now job ≡ false) jobs
unfolding candidate
candidate-none now jobs h =
    filter-nil (is_due now) jobs (first_least-none runs_before (filter (is_due now) jobs) h)

-- Reading back the claimed row finds it, since ids are unique.
get_job-start_job :
    (now : ℕ) (worker : String) (jobs : List JobRecord) (job : JobRecord)
    → IsSerial jobs
    → Memᴰ job jobs
    → is_waiting job.status ≡ true
    → get_job job.id (start_job now worker job.id jobs) ≡ some (mark_running now worker job)
unfolding get_job start_job
get_job-start_job now worker [] job s m w = elim m [ ]
get_job-start_job now worker (x ∷ xs) job s (Memᴰ.head e) w =
    subst
      (λ x.
        get_job job.id (start_job now worker job.id (x ∷ xs)) ≡ some (mark_running now worker job))
      e (ground (arith, eq_iff job.id job.id))
get_job-start_job now worker (x ∷ xs) job s (Memᴰ.tail m) w =
    let other = (All-Memᴰ (Apart x) xs job s.0 m).ids in
    ground (arith, eq_iff x.id job.id, get_job-start_job now worker xs job s.1 m w)

-- Rows apart from the claimed one stay as they are.
start_job_apart :
    (now : ℕ) (worker : String) (job : JobRecord) (xs : List JobRecord)
    → All (λ x. x.id ≢ job.id) xs
    → start_job now worker job.id xs ≡ xs
unfolding start_job
start_job_apart now worker job [] h = refl
start_job_apart now worker job (x ∷ xs) h =
    ground (arith, eq_iff x.id job.id, start_job_apart now worker job xs h.1)

-- The table before and after a claim of a row.
pub record IsStarted (now : ℕ) (worker : String) (jobs stored : List JobRecord) (chosen : JobRecord)
    (answer : Option JobRecord) : Type 0 where
  pub earlier : List JobRecord
  pub later : List JobRecord
  pub was : jobs ≡ earlier ++ chosen ∷ later
  pub is_now :
      stored
      ≡ earlier
        ++ record chosen {
          status = running;
          locked_at_ms = some now;
          locked_by = some worker;
          attempts = chosen.attempts + 1;
          updated_at_ms = now;
        }
          ∷ later
  pub answered :
      answer
      ≡ some (record chosen {
        status = running;
        locked_at_ms = some now;
        locked_by = some worker;
        attempts = chosen.attempts + 1;
        updated_at_ms = now;
      })

start_job-IsStarted :
    (now : ℕ) (worker : String) (jobs : List JobRecord) (job : JobRecord)
    → IsSerial jobs
    → Memᴰ job jobs
    → is_waiting job.status ≡ true
    → IsStarted now worker jobs
        (start_job now worker job.id jobs)
        job
        (some (mark_running now worker job))
unfolding start_job
start_job-IsStarted now worker [] job s m w = elim m [ ]
start_job-IsStarted now worker (x ∷ xs) job s (Memᴰ.head e) w =
    let rest = start_job_apart now worker job xs (
      subst (λ j. All (λ x. x.id ≢ j.id) xs) (sym e)
        (All-imp (Apart x) _ xs (λ y apart same. apart.ids (sym same)) s.0)) in
    subst
      (λ y.
        IsStarted now worker (y ∷ xs) (start_job now worker job.id (y ∷ xs)) job
          (some (mark_running now worker job)))
      e
      (record {
        earlier = [];
        later = xs;
        was = refl;
        is_now = rw ((eq_iff job.id job.id).1 refl, w, rest) refl;
        answered = refl;
      })
start_job-IsStarted now worker (x ∷ xs) job s (Memᴰ.tail m) w =
    let other : str_eq x.id job.id ≡ false =
      ground (arith, eq_iff x.id job.id, (All-Memᴰ (Apart x) xs job s.0 m).ids) in
    let rest = start_job-IsStarted now worker xs job s.1 m w in
    record {
      earlier = x ∷ rest.earlier;
      later = rest.later;
      was = ap (λ ys. x ∷ ys) rest.was;
      is_now = rw other (ap (λ ys. x ∷ ys) rest.is_now);
      answered = refl;
    }

-- When a job is due, a claim takes a due job that no due job runs before, and answers it running, locked by the worker
-- and with one attempt more; it writes that into its row, and leaves every other row and their order as they are.
pub claim-IsChosen :
    (now : ℕ) (worker : String) (jobs : List JobRecord) (job : JobRecord)
    → IsSerial jobs
    → Memᴰ job jobs
    → is_due now job ≡ true
    → (chosen : JobRecord) × IsChosen now jobs chosen
      × IsStarted now worker jobs (claim now worker jobs).0 chosen (claim now worker jobs).1
unfolding claim
claim-IsChosen now worker jobs job s m due = elim (Option-cases (candidate now jobs)) [
  | inl e ↦ absurd (grind (arith, All-Memᴰ _ jobs job (candidate-none now jobs e) m))
  | inr (c, e) ↦
      let chosen = candidate-IsChosen now jobs c e in
      let waits : is_waiting c.status ≡ true = ground (arith, chosen.due) in
      (
        c,
        chosen,
        rw (e, claim)
            (subst (IsStarted now worker jobs (start_job now worker c.id jobs) c)
              (sym (get_job-start_job now worker jobs c s chosen.listed waits))
              (start_job-IsStarted now worker jobs c s chosen.listed waits)),
      )
]

-- A claim returns no job exactly when no job is due.
pub claim-none_iff :
    (now : ℕ) (worker : String) (jobs : List JobRecord)
    → IsSerial jobs
    → ((claim now worker jobs).1 ≡ none) ↔ All (λ job. is_due now job ≡ false) jobs
unfolding claim
claim-none_iff now worker jobs s = elim (Option-cases (candidate now jobs)) [
  | inl e ↦ (λ _. candidate-none now jobs e, λ _. ground arith)
  | inr (c, e) ↦
      let chosen = candidate-IsChosen now jobs c e in
      let waits : is_waiting c.status ≡ true = ground (arith, chosen.due) in
      (
        λ h. absurd (ground (arith, get_job-start_job now worker jobs c s chosen.listed waits)),
        λ idle. absurd (grind (arith, All-Memᴰ _ jobs c idle chosen.listed, chosen.due)),
      )
]

abbrev pub running_count : List JobRecord → ℕ
running_count = count (λ job. is_running job.status)

running_count-start_job :
    (now : ℕ) (worker : String) (jobs : List JobRecord) (job : JobRecord)
    → IsSerial jobs
    → Memᴰ job jobs
    → is_waiting job.status ≡ true
    → running_count (start_job now worker job.id jobs) ≡ suc (running_count jobs)
unfolding start_job
running_count-start_job now worker [] job s m w = elim m [ ]
running_count-start_job now worker (x ∷ xs) job s (Memᴰ.head e) w =
    let rest = start_job_apart now worker job xs (
      subst (λ j. All (λ x. x.id ≢ j.id) xs) (sym e)
        (All-imp (Apart x) _ xs (λ y apart same. apart.ids (sym same)) s.0)) in
    subst (λ x. running_count (start_job now worker job.id (x ∷ xs)) ≡ suc (running_count (x ∷ xs)))
      e (ground (arith, eq_iff job.id job.id, ap running_count rest))
running_count-start_job now worker (x ∷ xs) job s (Memᴰ.tail m) w =
    let other = (All-Memᴰ (Apart x) xs job s.0 m).ids in
    ground (arith, eq_iff x.id job.id, running_count-start_job now worker xs job s.1 m w)

-- A claim that returns a job makes exactly one more job running.
claim-running_count :
    (now : ℕ) (worker : String) (jobs : List JobRecord) (job : JobRecord)
    → IsSerial jobs
    → (claim now worker jobs).1 ≡ some job
    → running_count (claim now worker jobs).0 ≡ suc (running_count jobs)
unfolding claim
claim-running_count now worker jobs job s h = elim (Option-cases (candidate now jobs)) [
  | inl e ↦ absurd (ground arith)
  | inr (c, e) ↦
      let chosen = candidate-IsChosen now jobs c e in
      let waits : is_waiting c.status ≡ true = ground (arith, chosen.due) in
      ground (arith, running_count-start_job now worker jobs c s chosen.listed waits)
]

-- Without a due job a claim writes nothing.
pub claim_of_idle :
    (now : ℕ) (worker : String) (jobs : List JobRecord)
    → All (λ job. is_due now job ≡ false) jobs
    → (claim now worker jobs).0 ≡ jobs
unfolding claim candidate first_least
claim_of_idle now worker jobs idle = ground (arith, filter_of_false (is_due now) jobs idle)
