-- ===== src/RateLimit.antt =====
-- The fixed-window rate limiter, apps/api/src/ratelimit/rate-limit.ts, for one key of Redis. Times
-- are in seconds; a key is gone once its time to live is over.
pub mod Window
pub mod Throttle
use pay_kh.Prelude.{
  ℕ, suc, zero, ◌+◌, ◌-◌, Bool, true, false, not, ◌*◌, Option, none, some, List, [], ◌∷◌, leb, ltb,
  if◌then◌else◌,
}

-- The counter under a key, and when it expires, if it does.
pub record Bucket : Type 0 where
  pub count : ℕ
  pub expires_at : Option ℕ

abbrev pub is_gone : ℕ → Bucket → Bool
is_gone now b = elim b.expires_at [ none ↦ false | some t ↦ leb t now ]

-- `INCR`, of a key that may be absent.
unfoldable pub incr : ℕ → Option Bucket → Bucket
incr now none = record { count = 1; expires_at = none }
incr now (some b) =
    if is_gone now b
    then (record { count = 1; expires_at = none })
    else (record b { count = b.count + 1 })

-- `FIXED_WINDOW_LUA`: a key without a time to live gets one.
unfoldable pub fixed_window : (window_sec now : ℕ) → Option Bucket → Bucket
fixed_window window_sec now b =
    let c = incr now b in
    elim c.expires_at [
      | none ↦ record { count = c.count; expires_at = some (now + window_sec) }
      | some t ↦ c
    ]

-- `canActivate`: whether the request goes through; it always does while Redis is down.
unfoldable pub can_activate :
    (limit window_sec : ℕ) → (redis_down : Bool) → (now : ℕ) → Option Bucket → Bool × Option Bucket
can_activate limit window_sec redis_down now b =
    let c = fixed_window window_sec now b in
    if redis_down then (true, b) else if ltb limit c.count then (false, some c) else (true, some c)

-- A request, or a failed login: whether Redis is down for it, and its time.
pub record Hit : Type 0 where
  pub redis_down : Bool
  pub at : ℕ

-- How many of these requests go through.
unfoldable pub admitted : (limit window_sec : ℕ) → List Hit → Option Bucket → ℕ
admitted limit window_sec [] b = 0
admitted limit window_sec (h ∷ hits) b =
    let (passes, b') = can_activate limit window_sec h.redis_down h.at b in
    (if passes then 1 else 0) + admitted limit window_sec hits b'

-- `GlobalThrottleGuard.canActivate`, of a request that is HTTP or not and whose path is skipped or
-- not.
unfoldable pub global_can_activate :
    (is_http is_skipped redis_down : Bool) → (now : ℕ) → Option Bucket → Bool × Option Bucket
global_can_activate is_http is_skipped redis_down now b =
    let decided = can_activate 200 10 redis_down now b in
    if not is_http then (true, b) else if is_skipped then (true, b) else decided

-- The throttle of failed logins of apps/api/src/ratelimit/account-throttle.service.ts, for one
-- account: `LIMIT` and `WINDOW_SEC`.
abbrev pub account_limit : ℕ
account_limit = 10

abbrev pub account_window_sec : ℕ
account_window_sec = 15 * 60

-- `Number(await redis.get(key))`, which is 0 for an absent key.
unfoldable pub live_count : ℕ → Option Bucket → ℕ
live_count now none = 0
live_count now (some b) = if is_gone now b then 0 else b.count

-- Whether `assertNotLocked` throws; it does not while Redis is down.
unfoldable pub is_locked : (redis_down : Bool) → (now : ℕ) → Option Bucket → Bool
is_locked redis_down now b = if redis_down then false else leb account_limit (live_count now b)

unfoldable pub record_failed_login : (redis_down : Bool) → (now : ℕ) → Option Bucket → Option Bucket
record_failed_login redis_down now b =
    let c = fixed_window account_window_sec now b in if redis_down then b else some c

unfoldable pub clear_logins : (redis_down : Bool) → Option Bucket → Option Bucket
clear_logins redis_down b = if redis_down then b else none

-- Failed logins, in this order.
unfoldable pub failed_logins : List Hit → Option Bucket → Option Bucket
failed_logins [] b = b
failed_logins (h ∷ hits) b = failed_logins hits (record_failed_login h.redis_down h.at b)
