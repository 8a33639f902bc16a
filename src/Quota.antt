-- ===== src/Quota.antt =====
-- The monthly quota of paid transactions: `warningLevel` of apps/api/src/billing/period.util.ts,
-- and `assertWithinQuota`, `recordPaid` and `maybeWarn` of apps/api/src/billing/quota.service.ts,
-- for one organization in one period. `none` is a quota below 0, which is unlimited.
pub mod Limit
use pay_kh.Prelude.{
  ℕ, ◌+◌, ◌-◌, ◌*◌, Bool, true, false, Option, none, some, List, [], ◌∷◌, Result, ok, err, ◌>>=◌,
  ◌>>◌, throw_if, forbidden, quota_exceeded, leb, if◌then◌else◌,
}

-- The level that a ratio of use has reached, 0 for none.
unfoldable pub warning_level : (used : ℕ) → (quota : Option ℕ) → ℕ
warning_level used none = 0
warning_level used (some quota) =
    if leb (100 * quota) (100 * used)
    then 100
    else if leb (90 * quota) (100 * used)
    then 90
    else if leb (70 * quota) (100 * used)
    then 70
    else 0

-- `UsageRecord`, and the number of payments of the period that are pending or scanned.
pub record Usage : Type 0 where
  pub paid_count : ℕ
  pub last_warned_level : ℕ
  pub in_flight : ℕ

unfoldable pub assert_within_quota :
    (suspended : Bool) → (quota : Option ℕ) → Usage → Result (Unit {0})
assert_within_quota suspended quota u = do
  throw_if suspended forbidden
  throw_if (elim quota [ none ↦ false | some q ↦ leb q (u.paid_count + u.in_flight) ])
      quota_exceeded

-- `maybeWarn`: the usage, and the level that the owners are told, if any.
unfoldable pub maybe_warn : (quota : Option ℕ) → Usage → Usage × Option ℕ
maybe_warn quota u =
    let level = warning_level u.paid_count quota in
    if leb level u.last_warned_level
    then (u, none)
    else (record u { last_warned_level = level }, some level)

unfoldable pub record_paid : (quota : Option ℕ) → Usage → Usage × Option ℕ
record_paid quota u = maybe_warn quota (record u { paid_count = u.paid_count + 1 })

-- What happens to the payments of the period: one is created, behind the check; one that is in
-- flight is paid; one that is in flight ends otherwise.
pub data QuotaEvent : Type 0 where
  created captured ended : QuotaEvent

unfoldable pub quota_step :
    (suspended : Bool) → (quota : Option ℕ) → QuotaEvent → Usage → Usage × Option ℕ
quota_step suspended quota created u = elim (assert_within_quota suspended quota u) [
  | err e ↦ (u, none)
  | ok done ↦ (record u { in_flight = u.in_flight + 1 }, none)
]
quota_step suspended quota captured u =
    let moved = record_paid quota (record u { in_flight = u.in_flight - 1 }) in
    if leb 1 u.in_flight then moved else (u, none)
quota_step suspended quota ended u = (record u { in_flight = u.in_flight - 1 }, none)

-- The events in turn, with the levels that are told.
unfoldable pub quota_run :
    (suspended : Bool) → (quota : Option ℕ) → List QuotaEvent → Usage → Usage × List ℕ
quota_run suspended quota [] u = (u, [])
quota_run suspended quota (e ∷ es) u =
    let (u', told) = quota_step suspended quota e u in
    let (v, rest) = quota_run suspended quota es u' in
    elim told [ none ↦ (v, rest) | some level ↦ (v, level ∷ rest) ]
