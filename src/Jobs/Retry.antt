-- ===== src/Jobs/Retry.antt =====
-- The retry policy of `fail` (api/src/jobs/queue.ts): delays, circuit cooldowns and the attempt budget.
use native.Mathlib.Nat.{pow-suc}
use cryptotracker.Base.{
  ℕ, zero, suc, ◌+◌, ◌-◌, ◌*◌, ◌^◌, ◌≤◌, ◌<◌, min, max, String, ◌≡◌, ◌⊎◌, refl, true, false, Option,
  none, some, List, [], ◌∷◌, arith, All, leb, ◌==◌, if◌then◌else◌, Bool-cases, Option-cases, inl,
  inr, length,
}
use cryptotracker.Jobs.Record.{JobRecord, retry, failed}
use cryptotracker.Jobs.Claim.{mark_running}
use cryptotracker.Jobs.Outcome.{
  JobError, app_error, is_circuit_open, is_non_retryable, is_terminal, hour_ms, retry_delay,
  cooldown_until, next_retry_at, mark_failed,
}

pow_pos : (n : ℕ) → 1 ≤ 2 ^ n
pow_pos zero = omega arith
pow_pos (suc n) = grind (arith, pow_pos n)

-- Every retry delay lies between a second and an hour.
retry_delay_bounds : (n : ℕ) → (1000 ≤ retry_delay n) × (retry_delay n ≤ hour_ms)
unfolding retry_delay
retry_delay_bounds n = omega (arith, pow_pos (n - 1))

suc_sub : (n : ℕ) → suc n - 1 ≡ n
suc_sub n = omega arith

-- From one failed attempt to the next the delay doubles, up to the hour.
retry_delay_doubles : (n : ℕ) → retry_delay (suc (suc n)) ≡ min hour_ms (2 * retry_delay (suc n))
unfolding retry_delay
retry_delay_doubles n = rw (suc_sub (suc n), suc_sub n, pow-suc 2 n) (omega arith)

-- What `fail` decides, on every branch, with the claimed job as the row that it writes.
pub record Verdict (now : ℕ) (error : JobError) (job row : JobRecord) : Type 0 where
  pub unlocked : (row.locked_at_ms ≡ none) × (row.locked_by ≡ none)
  pub terminal :
      (is_non_retryable error ≡ true)
        ⊎ ((is_circuit_open error ≡ false) × (job.max_attempts ≤ job.attempts))
      → (row.status ≡ failed) × (row.next_retry_at_ms ≡ none) × (row.completed_at_ms ≡ some now)
  pub waits :
      is_non_retryable error ≡ false
      → (is_circuit_open error ≡ true) ⊎ (job.attempts < job.max_attempts)
      → (at : ℕ) × (row.status ≡ retry)
        × (row.next_retry_at_ms ≡ some at)
        × (row.completed_at_ms ≡ none)
        × (now + 1000 ≤ at)
  pub cooled :
      is_non_retryable error ≡ false
      → is_circuit_open error ≡ true
      → (until : ℕ) → cooldown_until error ≡ some until
      → row.next_retry_at_ms ≡ some (max (now + 1000) until)
  pub bounded :
      (is_circuit_open error ≡ false) ⊎ (cooldown_until error ≡ none)
      → (row.next_retry_at_ms ≡ none)
        ⊎ ((at : ℕ) × (row.next_retry_at_ms ≡ some at) × (at ≤ now + hour_ms))

next_retry_at_waits :
    (now : ℕ) (job : JobRecord) (error : JobError)
    → is_terminal job error ≡ false
    → (at : ℕ) × (next_retry_at now job error ≡ some at) × (now + 1000 ≤ at)
unfolding next_retry_at
next_retry_at_waits now job error h = elim (Bool-cases (is_circuit_open error)) [
  | inr usual ↦
      (now + retry_delay job.attempts, ground arith, omega (arith, retry_delay_bounds job.attempts))
  | inl open_circuit ↦ elim (Option-cases (cooldown_until error)) [
    | inl unknown ↦ (
      now + retry_delay job.attempts,
      ground arith,
      omega (arith, retry_delay_bounds job.attempts),
    )
    | inr (until, known) ↦ (max (now + 1000) until, ground arith, omega arith)
  ]
]

-- A failed job is terminal exactly when the provider refused the request itself, or when it has used
-- its attempts and no circuit was open; otherwise it waits a second or more: until the cooldown
-- that an open circuit gives where that is later, and an hour at most where no open circuit gives one. In every case the lock is released.
pub fail-Verdict :
    (now : ℕ) (job : JobRecord) (error : JobError)
    → Verdict now error job (mark_failed now job error job)
unfolding mark_failed
fail-Verdict now job error = record {
  unlocked = (refl, refl);
  terminal = λ h. ground arith;
  waits = λ h k.
      let going : is_terminal job error ≡ false = ground arith in
      let (at, when, least) = next_retry_at_waits now job error going in
      (at, ground arith, ground arith, ground arith, least);
  cooled = λ h k until known. ground arith;
  bounded = λ h. elim (Bool-cases (is_terminal job error)) [
    | inl over ↦ inl (ground arith)
    | inr going ↦ inr (
      now + retry_delay job.attempts,
      ground arith,
      omega (arith, retry_delay_bounds job.attempts),
    )
  ];
}

abbrev pub circuit_key : String
circuit_key = "PROVIDER_CIRCUIT_OPEN"

-- A claim that ends in an open circuit costs the job nothing: it waits with the attempts that it had
-- before the claim, however few are left, until the cooldown has passed.
circuit_keeps_budget :
    (now later : ℕ) (worker message : String) (cooldown : ℕ) (status : Option ℕ) (row : JobRecord)
    → let error =
        app_error circuit_key message
          (some (record { status = status; cooldown_until_ms = some cooldown })) in
      let job = mark_running now worker row in
      let after = mark_failed later job error job in
      (after.attempts ≡ row.attempts)
      × (after.status ≡ retry)
      × (after.next_retry_at_ms ≡ some (max (later + 1000) cooldown))
unfolding mark_failed
circuit_keeps_budget now later worker message cooldown status row = (ground arith, refl, refl)

-- One round of a job that fails: it is claimed at `now` and its handler throws `error` at `later`.
pub record Round : Type 0 where
  pub now : ℕ
  pub later : ℕ
  pub error : JobError

abbrev pub fail_round : String → Round → JobRecord → JobRecord
fail_round worker round row =
    let job = mark_running round.now worker row in mark_failed round.later job round.error job

abbrev pub fail_rounds : String → List Round → JobRecord → JobRecord
fail_rounds worker [] row = row
fail_rounds worker (round ∷ rounds) row = fail_rounds worker rounds (fail_round worker round row)

-- An error that is retried and spends an attempt.
abbrev pub IsOrdinary : Round → Type 0
IsOrdinary round = (is_circuit_open round.error ≡ false) × (is_non_retryable round.error ≡ false)

fail_round-ordinary :
    (worker : String) (round : Round) (row : JobRecord)
    → IsOrdinary round
    → let after = fail_round worker round row in
      (after.attempts ≡ row.attempts + 1)
      × (after.max_attempts ≡ row.max_attempts)
      × (after.status ≡ (if leb row.max_attempts (row.attempts + 1) then failed else retry))
unfolding mark_failed
fail_round-ordinary worker round row h = (ground arith, refl, ground arith)

-- The attempt budget: a job that fails again and again by ordinary errors waits for a retry until its
-- last allowed attempt, and that one fails it for good.
pub fail_rounds-budget :
    (worker : String) (round : Round) (rounds : List Round) (row : JobRecord)
    → All IsOrdinary (round ∷ rounds)
    → row.attempts + length (round ∷ rounds) ≤ row.max_attempts
    → let after = fail_rounds worker (round ∷ rounds) row in
      (after.attempts ≡ row.attempts + length (round ∷ rounds))
      × (after.status ≡ (if after.attempts == row.max_attempts then failed else retry))
unfolding mark_failed
fail_rounds-budget worker round [] row h b =
    let (more, same, status) = fail_round-ordinary worker round row h.0 in
    (omega arith, ground arith)
fail_rounds-budget worker round (next ∷ rounds) row h b =
    let (more, same, status) = fail_round-ordinary worker round row h.0 in
    let (total, verdict) =
      fail_rounds-budget worker next rounds (fail_round worker round row) h.1 (omega arith) in
    (omega arith, verdict)
