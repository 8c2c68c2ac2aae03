-- ===== src/Providers/Tests.antt =====
-- Runs of the limiter (api/src/providers/rate-limiter.ts), and the theorems at them.
use cryptotracker.Base.{
  ℕ, zero, suc, ◌≤◌, ◌<◌, ◌+◌, String, ◌≡◌, ◌↔◌, refl, true, false, none, some, [], ◌∷◌, length,
  arith,
}
use cryptotracker.Providers.Circuit.{
  ProviderRateConfig, initial_circuit, record_success, assert_circuit_available,
}
use cryptotracker.Providers.Slots.{Slots, acquire, release, resume}
use cryptotracker.Providers.Attempts.{
  Attempt, value, http_error, network_error, returned, execute_with_retry,
}
use cryptotracker.Providers.Opening.{record_failures, record_failures-open_iff}
use cryptotracker.Providers.Gate.{retry_overcommits}
use cryptotracker.Providers.Outcomes.{is_retried, execute_with_retry-first}

abbrev config : ProviderRateConfig
config = record {
  concurrency = 2;
  minimum_spacing_ms = 100;
  max_retries = 2;
  base_backoff_ms = 500;
  cooldown_threshold = 3;
  cooldown_ms = 60000;
}

record_failures-open_iff_example :
    (assert_circuit_available 5000 (
        record_failures config
          ((1000, false) ∷ (2000, true) ∷ (3000, false) ∷ [])
          (record_success 0 initial_circuit))
      ≡ none)
    ↔ ((3 ≤ 3) × (5000 < 3000 + 60000))
record_failures-open_iff_example =
    record_failures-open_iff config 0 initial_circuit ((1000, false) ∷ (2000, true) ∷ []) 3000 false
      5000

abbrev full_slots : Slots
full_slots = record { active = 2; waiting = 7 ∷ []; resumed = [] }

retry_overcommits_example :
    resume (acquire 2 1 (release full_slots))
    ≡ some (record { active = 3; waiting = []; resumed = [] })
retry_overcommits_example = retry_overcommits 2 1 7 [] full_slots (omega arith) refl refl refl

abbrev third_time : ℕ → Attempt String
third_time zero = http_error 429 (some 1000)
third_time (suc zero) = network_error "reset"
third_time _ = value "data"

third_time-fails : (i : ℕ) → i < 2 → is_retried (third_time i) ≡ true
third_time-fails zero h = refl
third_time-fails (suc zero) h = refl
third_time-fails (suc (suc i)) h = absurd (omega arith)

execute_with_retry-first_example :
    let e = execute_with_retry config third_time (λ i. 1000) (λ i. 0) 900 initial_circuit in
    (e.result ≡ returned "data")
    × (e.attempts ≡ 3)
    × (length e.waits ≡ 2)
    × (e.circuit.consecutive_failures ≡ 0)
    × (e.circuit.cooldown_until_ms ≡ 0)
unfolding assert_circuit_available
execute_with_retry-first_example =
    execute_with_retry-first config third_time (λ i. 1000) (λ i. 0) 900 2 initial_circuit
      initial_circuit "data" refl (omega arith) third_time-fails refl

-- The header's wait, then the exponential one.
waits_of_third_time :
    (execute_with_retry config third_time (λ i. 1000) (λ i. 7) 900 initial_circuit).waits
    ≡ 1000 ∷ 1007 ∷ []
unfolding execute_with_retry
waits_of_third_time = refl
