-- ===== src/Providers/Circuit.antt =====
-- What the circuit breaker and the retries guarantee (apps/api/src/providers/resilience.ts).
use pay_kh.Prelude.{
  ℕ, suc, zero, ◌+◌, ◌-◌, ◌≤◌, ◌<◌, ◌≡◌, refl, inl, inr, ◌⊎◌, true, none, some, arith, leb,
  Option-cases, Bool-cases,
}
use pay_kh.Providers.{
  CircuitBreaker, closed_breaker, is_open, record_failure, Attempt, refused, attempts,
  with_resilience,
}

-- An open circuit has at least the threshold's number of failures behind it, and one that has so
-- many is open.
pub record IsConsistent (failure_threshold : ℕ) (b : CircuitBreaker) : Type 0 where
  pub opened : (t : ℕ) → b.opened_at ≡ some t → failure_threshold ≤ b.failures
  pub shut : b.opened_at ≡ none → b.failures < failure_threshold

module _ {T : Type 0} (failure_threshold cooldown_ms : ℕ) (attempt : ℕ → Attempt T) where
  attempts-le :
      (left n : ℕ) (b : CircuitBreaker)
      → (attempts failure_threshold cooldown_ms attempt left n b).2 ≤ left
  unfolding attempts
  attempts-le zero n b = omega arith
  attempts-le (suc left) n b = elim (Option-cases (attempt n).value) [
    | inl none_back ↦
        let ih =
          attempts-le left (suc n)
            (record_failure failure_threshold cooldown_ms (attempt n).at b) in
        rw (none_back, attempts) (omega arith)
    | inr (v, back) ↦ rw (back, attempts) (omega arith)
  ]

  failure-IsConsistent :
      (now : ℕ) (b : CircuitBreaker)
      → IsConsistent failure_threshold b
      → IsConsistent failure_threshold (record_failure failure_threshold cooldown_ms now b)
  unfolding record_failure
  failure-IsConsistent now b h = elim (Bool-cases (leb failure_threshold (b.failures + 1))) [
    | inl over ↦ record { opened = λ t e. ground arith; shut = λ e. ground arith }
    | inr under ↦ record {
      opened = λ t e. let k = h.opened t in ground arith;
      shut = λ e. ground arith;
    }
  ]

  attempts-IsConsistent :
      (left n : ℕ) (b : CircuitBreaker)
      → 0 < failure_threshold
      → IsConsistent failure_threshold b
      → IsConsistent failure_threshold (attempts failure_threshold cooldown_ms attempt left n b).1
  unfolding attempts
  attempts-IsConsistent zero n b some_left h = h
  attempts-IsConsistent (suc left) n b some_left h = elim (Option-cases (attempt n).value) [
    | inl none_back ↦
        let b' = record_failure failure_threshold cooldown_ms (attempt n).at b in
        rw (none_back, attempts)
          (attempts-IsConsistent left (suc n) b' some_left
            (failure-IsConsistent (attempt n).at b h))
    | inr (v, back) ↦
        rw (back, attempts) (record { opened = λ t e. ground arith; shut = λ e. ground arith })
  ]

  is_open_leaves :
      (now : ℕ) (b : CircuitBreaker)
      → let r = is_open failure_threshold cooldown_ms now b in (r.1 ≡ b) ⊎ (r.1 ≡ closed_breaker)
  unfolding is_open
  is_open_leaves now b = elim (Option-cases b.opened_at) [
    | inl shut ↦ inl (ground arith)
    | inr (t, open_since) ↦ elim (Bool-cases (leb cooldown_ms (now - t))) [
      | inl cooled ↦ inr (ground arith)
      | inr hot ↦ inl (ground arith)
    ]
  ]

  is_open-IsConsistent :
      (now : ℕ) (b : CircuitBreaker)
      → 0 < failure_threshold
      → IsConsistent failure_threshold b
      → IsConsistent failure_threshold (is_open failure_threshold cooldown_ms now b).1
  is_open-IsConsistent now b some_left h = elim (is_open_leaves now b) [
    | inl same ↦ rw same h
    | inr closed ↦ rw closed (record { opened = λ t e. ground arith; shut = λ e. ground arith })
  ]

  open_stays :
      (now : ℕ) (b : CircuitBreaker)
      → (is_open failure_threshold cooldown_ms now b).0 ≡ true
      → (is_open failure_threshold cooldown_ms now b).1 ≡ b
  unfolding is_open
  open_stays now b h = elim (Option-cases b.opened_at) [
    | inl shut ↦ ground arith
    | inr (t, open_since) ↦ elim (Bool-cases (leb cooldown_ms (now - t))) [
      | inl cooled ↦ ground arith
      | inr hot ↦ ground arith
    ]
  ]

  -- A call keeps the breaker consistent, calls the provider at most once more than the number of
  -- retries, and not at all while the circuit is open; a circuit that is open is still as it was.
  pub with_resilience_lem :
      (retries now : ℕ) (b : CircuitBreaker)
      → 0 < failure_threshold
      → IsConsistent failure_threshold b
      → let r = with_resilience failure_threshold cooldown_ms attempt retries now b in
        IsConsistent failure_threshold r.1
        × (r.2 ≤ suc retries)
        × ((is_open failure_threshold cooldown_ms now b).0 ≡ true
            → (r.0 ≡ refused) × (r.1 ≡ b) × (r.2 ≡ 0))
  unfolding with_resilience
  with_resilience_lem retries now b some_left h =
      let o = is_open failure_threshold cooldown_ms now b in
      let fine = is_open-IsConsistent now b some_left h in
      elim (Bool-cases o.0) [
        | inl refuses ↦ rw refuses (fine, omega arith, λ e. (refl, open_stays now b refuses, refl))
        | inr serves ↦ rw serves (
          attempts-IsConsistent (suc retries) 0 o.1 some_left fine,
          attempts-le (suc retries) 0 o.1,
          λ e. absurd (ground arith),
        )
      ]
