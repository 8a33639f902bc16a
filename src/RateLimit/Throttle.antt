-- ===== src/RateLimit/Throttle.antt =====
-- What the throttle of failed logins does
-- (apps/api/src/ratelimit/account-throttle.service.ts).
use pay_kh.Prelude.{
  ℕ, ◌+◌, ◌<◌, ◌≡◌, refl, ap, ◌∙◌, false, none, some, List, [], ◌∷◌, arith, leb, ltb, if◌then◌else◌,
  All, sum_by, Bool, Option, true, inl, inr, Bool-cases,
}
use pay_kh.RateLimit.{
  Hit, Bucket, incr, fixed_window, live_count, is_locked, record_failed_login, failed_logins,
  account_limit, account_window_sec,
}

-- The failed logins that reach Redis.
abbrev pub recorded : List Hit → ℕ
recorded = sum_by (λ h. if h.redis_down then 0 else 1)

live_failure :
    (now count ends : ℕ)
    → now < ends
    → record_failed_login false now (some (record { count = count; expires_at = some ends }))
      ≡ some (record { count = count + 1; expires_at = some ends })
unfolding record_failed_login fixed_window incr
live_failure now count ends h = ground arith

first_failure :
    (now : ℕ)
    → record_failed_login false now none
      ≡ some (record { count = 1; expires_at = some (now + account_window_sec) })
unfolding record_failed_login fixed_window incr
first_failure now = refl

lost_failure :
    (redis_down : Bool) (now : ℕ) (b : Option Bucket)
    → redis_down ≡ true
    → record_failed_login redis_down now b ≡ b
unfolding record_failed_login
lost_failure redis_down now b h = rw (record_failed_login, h) refl

live_failures :
    (count ends : ℕ) (hits : List Hit)
    → All (λ h. h.at < ends) hits
    → failed_logins hits (some (record { count = count; expires_at = some ends }))
      ≡ some (record { count = count + recorded hits; expires_at = some ends })
unfolding failed_logins
live_failures count ends [] h = ground arith
live_failures count ends (h ∷ hits) (early, rest) = elim (Bool-cases h.redis_down) [
  | inl down ↦
      ap (failed_logins hits) (lost_failure h.redis_down h.at _ down)
      ∙ live_failures count ends hits rest
      ∙ ground arith
  | inr up ↦
      ap (failed_logins hits) (
        ap
          (λ d.
            record_failed_login d h.at (some (record { count = count; expires_at = some ends })))
          up
        ∙ live_failure h.at count ends early)
      ∙ live_failures (count + 1) ends hits rest
      ∙ ground arith
]

-- Of failed logins within the window of the first one that is recorded, those during an outage of
-- Redis do not count: the account is locked until the window ends, and no longer, exactly if ten or
-- more are recorded, and it is open to every login during an outage.
pub failed_logins-lock :
    (first now : ℕ) (redis_down : Bool) (hits : List Hit)
    → All (λ h. h.at < first + account_window_sec) hits
    → is_locked redis_down now
        (failed_logins (record { redis_down = false; at = first } ∷ hits) none)
      ≡ (if redis_down
          then false
          else if ltb now (first + account_window_sec)
          then leb account_limit (1 + recorded hits)
          else false)
unfolding is_locked live_count failed_logins
failed_logins-lock first now redis_down hits h =
    let all =
      ap (failed_logins hits) (first_failure first)
      ∙ live_failures 1 (first + account_window_sec) hits h in
    ap (is_locked redis_down now) all ∙ ground arith
