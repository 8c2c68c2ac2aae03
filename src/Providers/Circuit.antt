-- ===== src/Providers/Circuit.antt =====
-- The circuit of a provider (api/src/providers/rate-limiter.ts): `recordSuccess`, `recordFailure` and
-- `assertCircuitAvailable`, at the time that `Date.now` gives them.
use cryptotracker.Base.{ℕ, suc, ◌+◌, leb, Bool, true, false, Option, none, some, if◌then◌else◌}

pub data Status : Type 0 where
  healthy degraded rate_limited unavailable : Status

pub record CircuitState : Type 0 where
  pub status : Status
  pub consecutive_failures : ℕ
  pub cooldown_until_ms : ℕ
  pub last_success_at_ms : Option ℕ
  pub last_failure_at_ms : Option ℕ

-- `ProviderRateConfig`, less the rate of the tokens and the timeout of a request.
pub record ProviderRateConfig : Type 0 where
  pub concurrency : ℕ
  pub minimum_spacing_ms : ℕ
  pub max_retries : ℕ
  pub base_backoff_ms : ℕ
  pub cooldown_threshold : ℕ
  pub cooldown_ms : ℕ

abbrev pub initial_circuit : CircuitState
initial_circuit = record {
  status = healthy;
  consecutive_failures = 0;
  cooldown_until_ms = 0;
  last_success_at_ms = none;
  last_failure_at_ms = none;
}

unfoldable pub record_success : ℕ → CircuitState → CircuitState
record_success now circuit = record {
  status = healthy;
  consecutive_failures = 0;
  cooldown_until_ms = 0;
  last_success_at_ms = some now;
  last_failure_at_ms = circuit.last_failure_at_ms;
}

unfoldable pub record_failure : ProviderRateConfig → ℕ → Bool → CircuitState → CircuitState
record_failure config now limited circuit =
    let consecutive_failures = suc circuit.consecutive_failures in
    let opens = leb config.cooldown_threshold consecutive_failures in
    record circuit {
      status = if limited then rate_limited else if opens then unavailable else degraded;
      consecutive_failures = consecutive_failures;
      cooldown_until_ms = if opens then now + config.cooldown_ms else circuit.cooldown_until_ms;
      last_failure_at_ms = some now;
    }

abbrev pub is_unavailable : Status → Bool
is_unavailable unavailable = true
is_unavailable _ = false

-- `none` where the source throws PROVIDER_CIRCUIT_OPEN.
unfoldable pub assert_circuit_available : ℕ → CircuitState → Option CircuitState
assert_circuit_available now circuit =
    if leb circuit.cooldown_until_ms now
    then some
        (if is_unavailable circuit.status then record circuit { status = degraded } else circuit)
    else none
