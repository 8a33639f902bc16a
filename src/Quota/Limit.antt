-- ===== src/Quota/Limit.antt =====
-- What the quota guarantees (apps/api/src/billing/quota.service.ts).
use pay_kh.Prelude.{
  ℕ, ◌+◌, ◌≤◌, Bool, Option, none, some, List, [], ◌∷◌, arith, leb, if◌then◌else◌, inl, inr,
  Option-cases, length,
}
use pay_kh.Quota.{
  warning_level, Usage, assert_within_quota, maybe_warn, record_paid, QuotaEvent, created, captured,
  ended, quota_step, quota_run,
}

-- How many of the three levels lie above a level.
abbrev pub levels_above : ℕ → ℕ
levels_above n = if leb 100 n then 0 else if leb 90 n then 1 else if leb 70 n then 2 else 3

step_within :
    (suspended : Bool) (quota : ℕ) (e : QuotaEvent) (u : Usage)
    → u.paid_count + u.in_flight ≤ quota
    → let v = (quota_step suspended (some quota) e u).0 in v.paid_count + v.in_flight ≤ quota
unfolding quota_step assert_within_quota record_paid maybe_warn
step_within suspended quota created u h = ground arith
step_within suspended quota captured u h = ground arith
step_within suspended quota ended u h = omega arith

-- What a step tells uses up one of the levels that were left.
step_told :
    (suspended : Bool) (quota : Option ℕ) (e : QuotaEvent) (u : Usage)
    → let r = quota_step suspended quota e u in
      elim r.1 as (λ o. ℕ) [ none ↦ 0 | some l ↦ 1 ] + levels_above r.0.last_warned_level
      ≤ levels_above u.last_warned_level
unfolding quota_step assert_within_quota record_paid maybe_warn warning_level
step_told suspended quota created u = ground arith
step_told suspended none captured u = ground arith
step_told suspended (some q) captured u = ground arith
step_told suspended quota ended u = ground arith

-- As long as payments are created behind the check, one after the other, and paid only while they
-- are in flight, what is paid and in flight stays within the quota.
pub quota_run-within :
    (suspended : Bool) (quota : ℕ) (es : List QuotaEvent) (u : Usage)
    → u.paid_count + u.in_flight ≤ quota
    → let v = (quota_run suspended (some quota) es u).0 in v.paid_count + v.in_flight ≤ quota
unfolding quota_run
quota_run-within suspended quota [] u h = h
quota_run-within suspended quota (e ∷ es) u h =
    let r = quota_step suspended (some quota) e u in
    let ih = quota_run-within suspended quota es r.0 (step_within suspended quota e u h) in
    elim (Option-cases r.1) [
      | inl silent ↦ rw (silent, quota_run) ih
      | inr (level, told) ↦ rw (told, quota_run) ih
    ]

told-levels :
    (suspended : Bool) (quota : Option ℕ) (es : List QuotaEvent) (u : Usage)
    → length (quota_run suspended quota es u).1 ≤ levels_above u.last_warned_level
unfolding quota_run
told-levels suspended quota [] u = omega arith
told-levels suspended quota (e ∷ es) u =
    let r = quota_step suspended quota e u in
    let ih = told-levels suspended quota es r.0 in
    let used = step_told suspended quota e u in
    elim (Option-cases r.1) [ inl silent ↦ ground arith | inr (level, told) ↦ ground arith ]

levels_above-le : (n : ℕ) → levels_above n ≤ 3
levels_above-le n = ground arith

-- The owners are told of a level at most three times in a period, whatever the events are.
pub quota_run-told :
    (suspended : Bool) (quota : Option ℕ) (es : List QuotaEvent) (u : Usage)
    → length (quota_run suspended quota es u).1 ≤ 3
quota_run-told suspended quota es u =
    omega (arith, told-levels suspended quota es u, levels_above-le u.last_warned_level)
