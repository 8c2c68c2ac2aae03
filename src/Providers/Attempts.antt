-- ===== src/Providers/Attempts.antt =====
-- `executeWithRetry` and the error that `execute` reports (api/src/providers/rate-limiter.ts). The attempts'
-- outcomes, the times at which they end and the random jitters are functions of the attempt's number.
use cryptotracker.Base.{
  ℕ, zero, suc, ◌+◌, ◌*◌, ◌/◌, ◌^◌, ◌%◌, max, leb, ◌==◌, String, Bool, true, false, ◌||◌, Option,
  none, some, List, [], ◌∷◌, if◌then◌else◌, get_or_else,
}
use cryptotracker.Providers.Circuit.{
  CircuitState, ProviderRateConfig, record_success, record_failure, assert_circuit_available,
}

-- What one attempt ends in: a response or another value; a response that is not ok, with the wait that its
-- `retry-after` header asks for; an `AppError` (a timeout is one); any other error. Every attempt throws an error object
-- of its own, so the loop catches its last error again only where it threw it itself, for a response that is not ok.
pub data Attempt {ℓ} (A : Type ℓ) : Type ℓ where
  value : (a : A) → Attempt A
  http_error : (status : ℕ) (retry_after_ms : Option ℕ) → Attempt A
  app_error : (error_key : String) (status : ℕ) → Attempt A
  network_error : (reason : String) → Attempt A

pub data ProviderError : Type 0 where
  circuit_open : (cooldown_until_ms : ℕ) → ProviderError
  http : (error_key : String) (status : ℕ) (provider_status : ℕ) → ProviderError
  app : (error_key : String) (status : ℕ) → ProviderError
  network : (reason : String) → ProviderError

pub data Result {ℓ} (A : Type ℓ) : Type ℓ where
  returned : (a : A) → Result A
  thrown : (e : ProviderError) → Result A

-- What a call of `executeWithRetry` did: the circuit that it leaves, how often it attempted, the waits between
-- attempts, and the result.
pub record Execution {ℓ} (A : Type ℓ) : Type ℓ where
  pub circuit : CircuitState
  pub attempts : ℕ
  pub waits : List ℕ
  pub result : Result A

abbrev pub is_retryable : ℕ → Bool
is_retryable status = (status == 429) || leb 500 status

abbrev pub http_failure : ℕ → ProviderError
http_failure status =
    if status == 429
    then http "PROVIDER_RATE_LIMITED" 429 status
    else http "PROVIDER_REQUEST_FAILED" 502 status

abbrev pub exponential : ProviderRateConfig → ℕ → ℕ
exponential config attempt = config.base_backoff_ms * 2 ^ attempt

-- `Math.floor(Math.random() * Math.max(1, Math.floor(exponential / 4)))`; the random number as any natural.
abbrev pub jitter : ProviderRateConfig → ℕ → ℕ → ℕ
jitter config attempt random = random % max 1 (exponential config attempt / 4)

abbrev pub backoff : ProviderRateConfig → (ℕ → ℕ) → ℕ → ℕ
backoff config random attempt = exponential config attempt + jitter config attempt (random attempt)

abbrev pub after {ℓ} : {A : Type ℓ} → ℕ → Execution A → Execution A
after wait e = record e { waits = wait ∷ e.waits }

module _ {ℓ} {A : Type ℓ} (config : ProviderRateConfig) (task : ℕ → Attempt A)
    (now random : ℕ → ℕ) where
  -- The loop from `attempt` on, `left` more attempts after this one.
  unfoldable pub attempt_from : ℕ → ℕ → CircuitState → Execution A
  unfolding record_success record_failure
  attempt_from zero attempt circuit = elim (task attempt) [
    | value a ↦ record {
      circuit = record_success (now attempt) circuit;
      attempts = suc attempt;
      waits = [];
      result = returned a;
    }
    | http_error status retry_after ↦ record {
      circuit =
          if is_retryable status
          then record_failure config (now attempt) (status == 429) circuit
          else circuit;
      attempts = suc attempt;
      waits = [];
      result = thrown (http_failure status);
    }
    | app_error key status ↦ record {
      circuit = record_failure config (now attempt) (status == 429) circuit;
      attempts = suc attempt;
      waits = [];
      result = thrown (app key status);
    }
    | network_error reason ↦ record {
      circuit = record_failure config (now attempt) false circuit;
      attempts = suc attempt;
      waits = [];
      result = thrown (network reason);
    }
  ]
  attempt_from (suc left) attempt circuit = elim (task attempt) [
    | value a ↦ record {
      circuit = record_success (now attempt) circuit;
      attempts = suc attempt;
      waits = [];
      result = returned a;
    }
    | http_error status retry_after ↦ elim (is_retryable status) [
      | true ↦ after (get_or_else retry_after (backoff config random attempt)) (
          attempt_from left (suc attempt)
            (record_failure config (now attempt) (status == 429) circuit))
      | false ↦ record {
        circuit = circuit;
        attempts = suc attempt;
        waits = [];
        result = thrown (http_failure status);
      }
    ]
    | app_error key status ↦ after (backoff config random attempt) (
        attempt_from left (suc attempt)
          (record_failure config (now attempt) (status == 429) circuit))
    | network_error reason ↦
        after (backoff config random attempt)
          (attempt_from left (suc attempt) (record_failure config (now attempt) false circuit))
  ]

  unfoldable pub execute_with_retry : ℕ → CircuitState → Execution A
  unfolding assert_circuit_available attempt_from
  execute_with_retry started circuit = elim (assert_circuit_available started circuit) [
    | none ↦ record {
      circuit = circuit;
      attempts = 0;
      waits = [];
      result = thrown (circuit_open circuit.cooldown_until_ms);
    }
    | some available ↦ attempt_from config.max_retries 0 available
  ]

-- The key and the status of the error that `execute` throws to its caller.
unfoldable pub reported : ProviderError → String × ℕ
reported (circuit_open until) = ("PROVIDER_CIRCUIT_OPEN", 503)
reported (http key status provider_status) = (key, status)
reported (app key status) = (key, status)
reported (network reason) = ("PROVIDER_REQUEST_FAILED", 502)
