-- ===== src/Providers/Opening.antt =====
-- When failures open the circuit of a provider (api/src/providers/rate-limiter.ts).
use cryptotracker.Base.{
  ℕ, suc, ◌+◌, ◌≤◌, ◌<◌, ◌≡◌, ◌↔◌, refl, ◌∙◌, Bool, none, List, [], ◌∷◌, ◌++◌, arith, leb, inl, inr,
  length, Bool-cases,
}
use cryptotracker.Providers.Circuit.{
  CircuitState, ProviderRateConfig, record_success, record_failure, assert_circuit_available,
}

-- Failures one after the other, each at its time, and by a rate limit or not.
unfoldable pub record_failures : ProviderRateConfig → List (ℕ × Bool) → CircuitState → CircuitState
unfolding record_failure
record_failures config [] circuit = circuit
record_failures config ((now, limited) ∷ rest) circuit =
    record_failures config rest (record_failure config now limited circuit)

record_failures-count :
    (config : ProviderRateConfig) (failures : List (ℕ × Bool)) (circuit : CircuitState)
    → (record_failures config failures circuit).consecutive_failures
      ≡ circuit.consecutive_failures + length failures
unfolding record_failures
record_failures-count config [] circuit = omega arith
record_failures-count config ((now, limited) ∷ rest) circuit =
    record_failures-count config rest (record_failure config now limited circuit) ∙ omega arith

record_failures-cooldown :
    (config : ProviderRateConfig) (failures : List (ℕ × Bool)) (circuit : CircuitState)
    → circuit.consecutive_failures + length failures < config.cooldown_threshold
    → (record_failures config failures circuit).cooldown_until_ms ≡ circuit.cooldown_until_ms
unfolding record_failures
record_failures-cooldown config [] circuit h = refl
record_failures-cooldown config ((now, limited) ∷ rest) circuit h =
    record_failures-cooldown config rest (record_failure config now limited circuit) (omega arith)
    ∙ ground arith

record_failures-append :
    (config : ProviderRateConfig) (failures : List (ℕ × Bool)) (last : ℕ) (limited : Bool)
    (circuit : CircuitState)
    → record_failures config (failures ++ (last, limited) ∷ []) circuit
      ≡ record_failure config last limited (record_failures config failures circuit)
unfolding record_failures
record_failures-append config [] last limited circuit = refl
record_failures-append config ((now, l) ∷ rest) last limited circuit =
    record_failures-append config rest last limited (record_failure config now l circuit)

last_failure :
    (config : ProviderRateConfig) (last now : ℕ) (limited : Bool) (circuit : CircuitState)
    → (circuit.consecutive_failures < config.cooldown_threshold → circuit.cooldown_until_ms ≡ 0)
    → (assert_circuit_available now (record_failure config last limited circuit) ≡ none) ↔ (
        (config.cooldown_threshold ≤ suc circuit.consecutive_failures)
        × (now < last + config.cooldown_ms))
unfolding assert_circuit_available record_failure
last_failure config last now limited circuit h =
    elim (Bool-cases (leb config.cooldown_threshold (suc circuit.consecutive_failures))) [
      | inl opens ↦ ground (arith, opens)
      | inr shut ↦ let z = h (ground (arith, shut)) in ground (arith, shut, z)
    ]

-- After a success and a series of failures, a request is refused exactly when the failures are at least as
-- many as the threshold and the cooldown of the last one has not passed. Rate limits count like failures.
pub record_failures-open_iff :
    (config : ProviderRateConfig) (recovered : ℕ) (circuit : CircuitState)
    (failures : List (ℕ × Bool)) (last : ℕ) (limited : Bool) (now : ℕ)
    → (assert_circuit_available now (
          record_failures config
            (failures ++ (last, limited) ∷ [])
            (record_success recovered circuit))
        ≡ none)
      ↔ ((config.cooldown_threshold ≤ suc (length failures)) × (now < last + config.cooldown_ms))
unfolding record_success
record_failures-open_iff config recovered circuit failures last limited now =
    let closed : CircuitState = record_success recovered circuit in
    let count = record_failures-count config failures closed in
    let unopened = record_failures-cooldown config failures closed in
    let (f, g) =
      last_failure config last now limited (record_failures config failures closed)
        (λ h. unopened (omega (arith, h, count))) in
    rw (record_failures-append config failures last limited closed) (
      (λ e. let (a, b) = f e in (omega (arith, a, count), b)),
      (λ p. g (omega (arith, p.0, count), p.1)),
    )
