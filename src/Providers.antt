-- ===== src/Providers.antt =====
-- The circuit breaker and the retries around calls of the payment provider:
-- apps/api/src/providers/resilience.ts.
--
-- A call of the provider, with its timeout, is an attempt with an outcome and the instant at which
-- the outcome is known; the waits between the attempts show in those instants.
pub mod Circuit
use pay_kh.Prelude.{
  ℕ, suc, zero, ◌+◌, ◌-◌, ◌*◌, ◌^◌, Bool, true, false, Option, none, some, List, [], ◌∷◌, leb,
  if◌then◌else◌,
}

pub record CircuitBreaker : Type 0 where
  pub failures : ℕ
  pub opened_at : Option ℕ

abbrev pub closed_breaker : CircuitBreaker
closed_breaker = record { failures = 0; opened_at = none }

-- `record_success`
abbrev pub record_success : CircuitBreaker → CircuitBreaker
record_success b = record { failures = 0; opened_at = none }

module _ (failure_threshold cooldown_ms : ℕ) where
  -- The answer, and the breaker it leaves: after the cooldown it is closed again for a trial.
  unfoldable pub is_open : (now : ℕ) → CircuitBreaker → Bool × CircuitBreaker
  is_open now b = elim b.opened_at [
    | none ↦ (false, b)
    | some t ↦ if leb cooldown_ms (now - t) then (false, closed_breaker) else (true, b)
  ]

  unfoldable pub record_failure : (now : ℕ) → CircuitBreaker → CircuitBreaker
  record_failure now b =
      let failures = b.failures + 1 in
      record {
        failures = failures;
        opened_at = if leb failure_threshold failures then some now else b.opened_at;
      }

-- What an attempt comes to: a value, or an error or a timeout, and when.
pub record Attempt (T : Type 0) : Type 0 where
  pub value : Option T
  pub at : ℕ

-- What the caller gets: the value, the last error, or the refusal of an open circuit.
pub data Called (T : Type 0) : Type 0 where
  returned : T → Called T
  failed : Called T
  refused : Called T

-- The wait after a failed attempt: exponential backoff.
abbrev pub backoff_ms : (retry_delay_ms attempt : ℕ) → ℕ
backoff_ms retry_delay_ms attempt = retry_delay_ms * 2 ^ attempt

module _ {T : Type 0} (failure_threshold cooldown_ms : ℕ) (attempt : ℕ → Attempt T) where
  -- The loop, with `left` attempts to go, at attempt `n`: the result, the breaker, and how many
  -- calls of the provider were made.
  unfoldable pub attempts : (left n : ℕ) → CircuitBreaker → Called T × CircuitBreaker × ℕ
  attempts zero n b = (failed, b, 0)
  attempts (suc left) n b =
      let (r, b', made) =
        attempts left (suc n) (record_failure failure_threshold cooldown_ms (attempt n).at b) in
      elim (attempt n).value [
        | some v ↦ (returned v, record_success b, 1)
        | none ↦ (r, b', suc made)
      ]

  unfoldable pub with_resilience :
      (retries now : ℕ) → CircuitBreaker → Called T × CircuitBreaker × ℕ
  with_resilience retries now b =
      let (is_refused, b') = is_open failure_threshold cooldown_ms now b in
      let tried = attempts (suc retries) 0 b' in if is_refused then (refused, b', 0) else tried
