-- ===== src/Providers/Outcomes.antt =====
-- What a call of `executeWithRetry` comes to (api/src/providers/rate-limiter.ts).
use cryptotracker.Base.{
  ℕ, zero, suc, ◌+◌, ◌≤◌, ◌<◌, ◌==◌, ◌≡◌, ◌⊎◌, inl, inr, refl, subst, ap, ◌∙◌, Bool, true, false,
  Option, some, [], arith, length, Bool-cases, get_or_else,
}
use cryptotracker.Providers.Circuit.{
  CircuitState, ProviderRateConfig, record_success, record_failure, assert_circuit_available,
}
use cryptotracker.Providers.Attempts.{
  Attempt, value, http_error, app_error, network_error, returned, thrown, ProviderError, app,
  network, http_failure, backoff, Execution, is_retryable, after, attempt_from, execute_with_retry,
}

-- A failed attempt that the loop makes again while it may.
abbrev pub is_retried {ℓ} : {A : Type ℓ} → Attempt A → Bool
is_retried (value a) = false
is_retried (http_error status retry_after) = is_retryable status
is_retried (app_error key status) = true
is_retried (network_error reason) = true

module _ {ℓ} {A : Type ℓ} (config : ProviderRateConfig) (task : ℕ → Attempt A)
    (now random : ℕ → ℕ) where
  abbrev run : ℕ → ℕ → CircuitState → Execution A
  run = attempt_from config task now random

  Attempt-cases :
      (t : Attempt A)
      → ((a : A) × (t ≡ value a))
        ⊎ ((is_retried t ≡ true)
            ⊎ ((status : ℕ) × (retry_after : Option ℕ) × (t ≡ http_error status retry_after)
                × (is_retryable status ≡ false)))
  Attempt-cases (value a) = inl (a, refl)
  Attempt-cases (http_error status retry_after) = elim (Bool-cases (is_retryable status)) [
    | inl e ↦ inr (inl e)
    | inr e ↦ inr (inr (status, retry_after, refl, e))
  ]
  Attempt-cases (app_error key status) = inr (inl refl)
  Attempt-cases (network_error reason) = inr (inl refl)

  run-value :
      (left attempt : ℕ) (circuit : CircuitState) (a : A)
      → task attempt ≡ value a
      → run left attempt circuit ≡ record {
        circuit = record_success (now attempt) circuit;
        attempts = suc attempt;
        waits = [];
        result = returned a;
      }
  unfolding attempt_from
  run-value zero attempt circuit a e = rw (e, attempt_from) refl
  run-value (suc left) attempt circuit a e = rw (e, attempt_from) refl

  -- One more failure on the circuit, and the rest of the loop.
  run-retried :
      (left attempt : ℕ) (circuit : CircuitState)
      → is_retried (task attempt) ≡ true
      → (limited : Bool) × (wait : ℕ) × (run (suc left) attempt circuit
          ≡ after wait
              (run left (suc attempt) (record_failure config (now attempt) limited circuit)))
  unfolding attempt_from
  run-retried left attempt circuit h = retried_as (task attempt) refl h
    where
      retried_as :
          (t : Attempt A)
          → task attempt ≡ t
          → is_retried t ≡ true
          → (limited : Bool) × (wait : ℕ) × (run (suc left) attempt circuit
              ≡ after wait
                  (run left (suc attempt) (record_failure config (now attempt) limited circuit)))
      retried_as (value a) e r = absurd (ground (arith, r))
      retried_as (http_error status retry_after) e r = (
        status == 429,
        get_or_else retry_after (backoff config random attempt),
        rw (e, r, attempt_from) refl,
      )
      retried_as (app_error key status) e r =
          (status == 429, backoff config random attempt, rw (e, attempt_from) refl)
      retried_as (network_error reason) e r =
          (false, backoff config random attempt, rw (e, attempt_from) refl)

  run-refused :
      (left attempt : ℕ) (circuit : CircuitState) (status : ℕ) (retry_after : Option ℕ)
      → task attempt ≡ http_error status retry_after
      → is_retryable status ≡ false
      → run left attempt circuit ≡ record {
        circuit = circuit;
        attempts = suc attempt;
        waits = [];
        result = thrown (http_failure status);
      }
  unfolding attempt_from
  run-refused zero attempt circuit status retry_after e r = rw (e, r, attempt_from) refl
  run-refused (suc left) attempt circuit status retry_after e r = rw (e, r, attempt_from) refl

  -- The last attempt failed in a way that would be tried again.
  run-exhausted :
      (attempt : ℕ) (circuit : CircuitState)
      → is_retried (task attempt) ≡ true
      → (limited : Bool) × (error : ProviderError) × (run 0 attempt circuit ≡ record {
        circuit = record_failure config (now attempt) limited circuit;
        attempts = suc attempt;
        waits = [];
        result = thrown error;
      })
  unfolding attempt_from
  run-exhausted attempt circuit h = exhausted_as (task attempt) refl h
    where
      exhausted_as :
          (t : Attempt A)
          → task attempt ≡ t
          → is_retried t ≡ true
          → (limited : Bool) × (error : ProviderError) × (run 0 attempt circuit ≡ record {
            circuit = record_failure config (now attempt) limited circuit;
            attempts = suc attempt;
            waits = [];
            result = thrown error;
          })
      exhausted_as (value a) e r = absurd (ground (arith, r))
      exhausted_as (http_error status retry_after) e r =
          (status == 429, http_failure status, rw (e, r, attempt_from) refl)
      exhausted_as (app_error key status) e r =
          (status == 429, app key status, rw (e, attempt_from) refl)
      exhausted_as (network_error reason) e r = (false, network reason, rw (e, attempt_from) refl)

  -- The loop returns the first value, after attempts that all failed in a way that is tried again.
  attempt_from-first :
      (left attempt before : ℕ) (circuit : CircuitState) (a : A)
      → before ≤ left
      → ((i : ℕ) → i < before → is_retried (task (attempt + i)) ≡ true)
      → task (attempt + before) ≡ value a
      → let e = run left attempt circuit in
        (e.result ≡ returned a)
        × (e.attempts ≡ suc (attempt + before))
        × (length e.waits ≡ before)
        × (e.circuit.consecutive_failures ≡ 0)
        × (e.circuit.cooldown_until_ms ≡ 0)
  unfolding record_success
  attempt_from-first left attempt zero circuit a le retried found =
      rw (run-value left attempt circuit a (subst (λ n. task n ≡ value a) (omega arith) found))
        (refl, omega arith, refl, refl, refl)
  attempt_from-first zero attempt (suc before) circuit a le retried found = absurd (omega arith)
  attempt_from-first (suc left) attempt (suc before) circuit a le retried found =
      let (limited, wait, step) =
        run-retried left attempt circuit
          (subst (λ n. is_retried (task n) ≡ true) (omega arith) (retried 0 (omega arith))) in
      let (result, attempts, waits, failures, cooldown) =
        attempt_from-first left (suc attempt) before
          (record_failure config (now attempt) limited circuit) a (omega arith)
          (λ i h.
            subst (λ n. is_retried (task n) ≡ true) (omega arith) (retried (suc i) (omega arith)))
          (subst (λ n. task n ≡ value a) (omega arith) found) in
      rw step (result, attempts ∙ omega arith, ap suc waits, failures, cooldown)

  -- Every attempt failed in a way that is tried again.
  attempt_from-exhausted :
      (left attempt : ℕ) (circuit : CircuitState)
      → ((i : ℕ) → i ≤ left → is_retried (task (attempt + i)) ≡ true)
      → let e = run left attempt circuit in
        ((error : ProviderError) × (e.result ≡ thrown error))
        × (e.attempts ≡ suc (attempt + left))
        × (length e.waits ≡ left)
        × (e.circuit.consecutive_failures ≡ circuit.consecutive_failures + suc left)
  unfolding record_failure
  attempt_from-exhausted zero attempt circuit retried =
      let (limited, error, last) =
        run-exhausted attempt circuit
          (subst (λ n. is_retried (task n) ≡ true) (omega arith) (retried 0 (omega arith))) in
      rw last ((error, refl), omega arith, refl, omega arith)
  attempt_from-exhausted (suc left) attempt circuit retried =
      let (limited, wait, step) =
        run-retried left attempt circuit
          (subst (λ n. is_retried (task n) ≡ true) (omega arith) (retried 0 (omega arith))) in
      let (thrown_error, attempts, waits, failures) =
        attempt_from-exhausted left (suc attempt)
          (record_failure config (now attempt) limited circuit)
          (λ i h.
            subst (λ n. is_retried (task n) ≡ true) (omega arith)
              (retried (suc i) (omega arith))) in
      rw step (thrown_error, attempts ∙ omega arith, ap suc waits, failures ∙ omega arith)

  execute_with_retry-available :
      (started : ℕ) (circuit available : CircuitState)
      → assert_circuit_available started circuit ≡ some available
      → execute_with_retry config task now random started circuit
        ≡ run config.max_retries 0 available
  unfolding execute_with_retry
  execute_with_retry-available started circuit available h = rw (h, execute_with_retry) refl

  -- While the circuit is available, and the attempts before number `before` all fail in a way that is tried
  -- again and that attempt gives a value, within the retries: the call returns the value, has attempted no
  -- more, has waited once before each retry, and leaves the circuit closed with no failure counted.
  pub execute_with_retry-first :
      (started before : ℕ) (circuit available : CircuitState) (a : A)
      → assert_circuit_available started circuit ≡ some available
      → before ≤ config.max_retries
      → ((i : ℕ) → i < before → is_retried (task i) ≡ true)
      → task before ≡ value a
      → let e = execute_with_retry config task now random started circuit in
        (e.result ≡ returned a)
        × (e.attempts ≡ suc before)
        × (length e.waits ≡ before)
        × (e.circuit.consecutive_failures ≡ 0)
        × (e.circuit.cooldown_until_ms ≡ 0)
  execute_with_retry-first started before circuit available a h le retried found =
      let (result, attempts, waits, failures, cooldown) =
        attempt_from-first config.max_retries 0 before available a le
          (λ i k. subst (λ n. is_retried (task n) ≡ true) (omega arith) (retried i k))
          (subst (λ n. task n ≡ value a) (omega arith) found) in
      rw (execute_with_retry-available started circuit available h)
        (result, attempts ∙ omega arith, waits, failures, cooldown)

  -- While the circuit is available, and every attempt fails in a way that is tried again: the call throws after
  -- one attempt more than the retries, with a wait before each retry, and counts each failure once.
  execute_with_retry-exhausted :
      (started : ℕ) (circuit available : CircuitState)
      → assert_circuit_available started circuit ≡ some available
      → ((i : ℕ) → i ≤ config.max_retries → is_retried (task i) ≡ true)
      → let e = execute_with_retry config task now random started circuit in
        ((error : ProviderError) × (e.result ≡ thrown error))
        × (e.attempts ≡ suc config.max_retries)
        × (length e.waits ≡ config.max_retries)
        × (e.circuit.consecutive_failures ≡ available.consecutive_failures + suc config.max_retries)
  execute_with_retry-exhausted started circuit available h retried =
      let (thrown_error, attempts, waits, failures) =
        attempt_from-exhausted config.max_retries 0 available
          (λ i k. subst (λ n. is_retried (task n) ≡ true) (omega arith) (retried i k)) in
      rw (execute_with_retry-available started circuit available h)
        (thrown_error, attempts ∙ omega arith, waits, failures)
