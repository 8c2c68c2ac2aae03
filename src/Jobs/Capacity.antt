-- ===== src/Jobs/Capacity.antt =====
-- The worker never runs more jobs at once than its concurrency, and a tick leaves no slot idle while a
-- job is due (api/src/jobs/queue.ts).
use mathlib.Core.List.{Memᴰ}
use cryptotracker.Base.{
  ℕ, zero, suc, ◌+◌, ◌-◌, ◌≤◌, ltb, String, ◌≡◌, ◌⊎◌, sym, subst, Bool, true, false, ◌&&◌, not,
  none, List, [], ◌∷◌, ◌++◌, eq_iff, arith, All, length, length-append, Bool-cases, Option-cases,
  inl, inr, if◌then◌else◌,
}
use cryptotracker.Jobs.Record.{JobRecord}
use cryptotracker.Jobs.Claim.{claim, is_due}
use cryptotracker.Jobs.Choice.{claim-none_iff, claim_of_idle}
use cryptotracker.Jobs.Sound.{IsSound}
use cryptotracker.Jobs.Kept.{claim-IsSound}
use cryptotracker.Jobs.Worker.{Queue, tick, Ending, execute, remove, settle, start, stop}

-- The active count is the number of executions under way, and within the concurrency.
pub record IsBounded (q : Queue) : Type 0 where
  pub counted : q.active ≡ length q.in_flight
  pub within : q.active ≤ q.concurrency

tick-IsBounded : (fuel now : ℕ) (q : Queue) → IsBounded q → IsBounded (tick fuel now q)
unfolding tick
tick-IsBounded zero now q b = b
tick-IsBounded (suc fuel) now q b =
    elim (Bool-cases (not q.stopped && ltb q.active q.concurrency)) [
      | inr e ↦ rw (e, tick) b
      | inl e ↦ elim (Option-cases (claim now q.worker_id q.jobs).1) [
        | inl f ↦ rw (e, f, tick) (record { counted = b.counted; within = b.within })
        | inr (job, f) ↦
            rw (e, f, tick)
              (tick-IsBounded fuel now
                (record q {
                  jobs = (claim now q.worker_id q.jobs).0;
                  active = q.active + 1;
                  in_flight = q.in_flight ++ job ∷ [];
                })
                (record {
                  counted = omega (arith, b.counted, length-append q.in_flight (job ∷ []));
                  within = ground arith;
                }))
      ]
    ]

length-remove :
    (job : JobRecord) (xs : List JobRecord)
    → Memᴰ job xs
    → suc (length (remove job.id xs)) ≡ length xs
unfolding remove
length-remove job [] m = elim m [ ]
length-remove job (x ∷ xs) (Memᴰ.head e) =
    subst (λ x. suc (length (remove job.id (x ∷ xs))) ≡ suc (length xs)) e
      (ground (arith, eq_iff job.id job.id))
length-remove job (x ∷ xs) (Memᴰ.tail m) = ground (arith, length-remove job xs m)

-- What happens to the worker: a tick, the end of an execution, a start, a stop, or other writes to the
-- table.
pub data WorkerStep (q : Queue) : Queue → Type 0 where
  ticked : (now : ℕ) → WorkerStep q (tick q.concurrency now q)
  settled :
      (now : ℕ) (job : JobRecord) (ending : Ending)
      → Memᴰ job q.in_flight
      → WorkerStep q (settle now job ending q)
  started : (now : ℕ) → WorkerStep q (start now q)
  halted : WorkerStep q (stop q)
  written : (jobs : List JobRecord) → WorkerStep q (record q { jobs = jobs })

pub data WorkerReach (q : Queue) : Queue → Type 0 where
  here : WorkerReach q q
  after : {r s : Queue} → WorkerReach q r → WorkerStep r s → WorkerReach q s

if-IsBounded :
    (test : Bool) (q r : Queue) → IsBounded q → IsBounded r → IsBounded (if test then q else r)
if-IsBounded true q r b c = b
if-IsBounded false q r b c = c

settle-IsBounded :
    (now : ℕ) (job : JobRecord) (ending : Ending) (q : Queue)
    → Memᴰ job q.in_flight
    → IsBounded q
    → IsBounded (settle now job ending q)
unfolding settle
settle-IsBounded now job ending q m b =
    if-IsBounded q.stopped _ _ freed (tick-IsBounded q.concurrency now _ freed)
  where
    freed : IsBounded (record q {
      jobs = execute q.handlers now job ending q.jobs;
      active = q.active - 1;
      in_flight = remove job.id q.in_flight;
    })
    freed = record {
      counted = omega (arith, b.counted, length-remove job q.in_flight m);
      within = omega (arith, b.within);
    }

start-IsBounded : (now : ℕ) (q : Queue) → IsBounded q → IsBounded (start now q)
unfolding start
start-IsBounded now q b =
    if-IsBounded q.stopped _ _
      (tick-IsBounded q.concurrency now _ (record { counted = b.counted; within = b.within })) b

WorkerStep-IsBounded : {q r : Queue} → WorkerStep q r → IsBounded q → IsBounded r
unfolding stop
WorkerStep-IsBounded {q} (ticked now) b = tick-IsBounded q.concurrency now q b
WorkerStep-IsBounded {q} (settled now job ending m) b = settle-IsBounded now job ending q m b
WorkerStep-IsBounded {q} (started now) b = start-IsBounded now q b
WorkerStep-IsBounded {q} halted b = record { counted = b.counted; within = b.within }
WorkerStep-IsBounded {q} (written jobs) b = record { counted = b.counted; within = b.within }

-- However ticks, endings, starts, stops and outside writes follow one another, the worker counts its
-- executions exactly and never has more than its concurrency allows.
pub WorkerReach-IsBounded : {q r : Queue} → IsBounded q → WorkerReach q r → IsBounded r
WorkerReach-IsBounded b here = b
WorkerReach-IsBounded b (after r step) = WorkerStep-IsBounded step (WorkerReach-IsBounded b r)

claim_idle :
    (now : ℕ) (worker : String) (jobs : List JobRecord)
    → (claim now worker jobs).1 ≡ none
    → IsSound jobs
    → All (λ job. is_due now job ≡ false) (claim now worker jobs).0
claim_idle now worker jobs h s =
    let idle = (claim-none_iff now worker jobs s.serial).0 h in
    subst (All (λ job. is_due now job ≡ false)) (sym (claim_of_idle now worker jobs idle)) idle

-- A tick on one unit of fuel for each slot ends by its own tests: afterwards the queue is stopped, or
-- every slot is taken, or no job of the table is due.
pub tick_exhausts :
    (fuel now : ℕ) (q : Queue)
    → IsSound q.jobs
    → q.active ≤ q.concurrency
    → q.concurrency ≤ q.active + fuel
    → let r = tick fuel now q in
      (r.stopped ≡ true) ⊎ (r.active ≡ r.concurrency) ⊎ All (λ job. is_due now job ≡ false) r.jobs
unfolding tick
tick_exhausts zero now q s within enough = inr (inl (omega arith))
tick_exhausts (suc fuel) now q s within enough =
    elim (Bool-cases (not q.stopped && ltb q.active q.concurrency)) [
      | inr e ↦
          rw (e, tick)
            (elim (Bool-cases q.stopped) [ inl st ↦ inl st | inr go ↦ inr (inl (ground arith)) ])
      | inl e ↦ elim (Option-cases (claim now q.worker_id q.jobs).1) [
        | inl f ↦ rw (e, f, tick) (inr (inr (claim_idle now q.worker_id q.jobs f s)))
        | inr (job, f) ↦
            rw (e, f, tick)
              (tick_exhausts fuel now
                (record q {
                  jobs = (claim now q.worker_id q.jobs).0;
                  active = q.active + 1;
                  in_flight = q.in_flight ++ job ∷ [];
                })
                (claim-IsSound now q.worker_id q.jobs s) (ground arith) (omega (arith, enough)))
      ]
    ]
