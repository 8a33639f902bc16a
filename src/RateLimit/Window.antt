-- ===== src/RateLimit/Window.antt =====
-- What a window lets through (apps/api/src/ratelimit/rate-limit.ts).
use pay_kh.Prelude.{
  ℕ, ◌+◌, ◌-◌, ◌≤◌, ◌<◌, ◌≡◌, true, false, none, some, List, [], ◌∷◌, arith, ltb, if◌then◌else◌,
  All, inl, inr, Bool-cases, sum_by, refl, Option,
}
use pay_kh.RateLimit.{Hit, Bucket, incr, fixed_window, can_activate, admitted}

-- The requests during an outage of Redis.
abbrev pub unguarded : List Hit → ℕ
unguarded = sum_by (λ h. if h.redis_down then 1 else 0)

-- A request before the end of the window raises the counter.
live_request :
    (limit window_sec now count ends : ℕ)
    → now < ends
    → can_activate limit window_sec false now
        (some (record { count = count; expires_at = some ends }))
      ≡ (
        (if ltb limit (count + 1) then false else true),
        some (record { count = count + 1; expires_at = some ends }),
      )
unfolding can_activate fixed_window incr
live_request limit window_sec now count ends h = elim (Bool-cases (ltb limit (count + 1))) [
  | inl over ↦ ground arith
  | inr under ↦ ground arith
]

let_through :
    (limit window_sec now : ℕ) (b : Option Bucket)
    → can_activate limit window_sec true now b ≡ (true, b)
unfolding can_activate
let_through limit window_sec now b = refl

live_window :
    (limit window_sec count ends : ℕ) (hits : List Hit)
    → All (λ h. h.at < ends) hits
    → admitted limit window_sec hits (some (record { count = count; expires_at = some ends }))
      ≤ (limit - count) + unguarded hits
unfolding admitted
live_window limit window_sec count ends [] h = omega arith
live_window limit window_sec count ends (h ∷ hits) (early, rest) = elim (Bool-cases h.redis_down) [
  | inl down ↦
      let ih = live_window limit window_sec count ends hits rest in
      rw (down, let_through limit window_sec h.at _, admitted) (ground arith)
  | inr up ↦
      let ih = live_window limit window_sec (count + 1) ends hits rest in
      rw (up, live_request limit window_sec h.at count ends early, admitted) (ground arith)
]

first_request :
    (limit window_sec now : ℕ)
    → can_activate limit window_sec false now none ≡ (
      (if ltb limit 1 then false else true),
      some (record { count = 1; expires_at = some (now + window_sec) }),
    )
unfolding can_activate fixed_window incr
first_request limit window_sec now = elim (Bool-cases (ltb limit 1)) [
  | inl over ↦ ground arith
  | inr under ↦ ground arith
]

-- Of the requests of a window, which starts with the first one that reaches Redis, at most the
-- limit goes through, besides those during an outage of Redis, which the guard lets pass.
pub window-admitted :
    (limit window_sec now : ℕ) (hits : List Hit)
    → All (λ h. h.at < now + window_sec) hits
    → admitted limit window_sec (record { redis_down = false; at = now } ∷ hits) none
      ≤ limit + unguarded hits
unfolding admitted
window-admitted limit window_sec now hits h =
    let rest = live_window limit window_sec 1 (now + window_sec) hits h in
    rw (first_request limit window_sec now, admitted) (ground arith)
