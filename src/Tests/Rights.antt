-- ===== src/Tests/Rights.antt =====
-- Policies, quotas and rate limits at concrete inputs.
use pay_kh.Prelude.{
  ℕ, ltb, leb, if◌then◌else◌, arith, length, ◌+◌, [], ◌∷◌, List, ◌≤◌, ◌≡◌, ◌≢◌, ◌↔◌, true, false,
  none, some,
}
use pay_kh.Types.{analyst, owner}
use pay_kh.Access.{
  AbacRequest, payment_refund, high_value_refund_threshold, allow, evaluate, evaluate_from,
  policies, is_live_store,
}
use pay_kh.Quota.{Usage, created, captured, ended, QuotaEvent, quota_run}
use pay_kh.Quota.Limit.{quota_run-within, quota_run-told}
use pay_kh.RateLimit.{admitted}
use pay_kh.RateLimit.Window.{unguarded, window-admitted}
use pay_kh.RateLimit.{Hit, is_locked, failed_logins, account_limit}
use pay_kh.RateLimit.Throttle.{failed_logins-lock}
use pay_kh.Risk.{RiskSignals, score_payment}
use pay_kh.Risk.Cases.{IsOpened, score_payment-IsOpened}
use pay_kh.Access.Policies.{NoneDenies, evaluate_from-NoneDenies, evaluate-refund}

-- An owner without MFA who refunds 600 of a live store.
abbrev big_refund : AbacRequest
big_refund = record {
  role = some owner;
  mfa_enabled = false;
  action = payment_refund;
  store_live_mode = some true;
  amount = some 60_000;
  mode = none;
}

evaluate_from-NoneDenies_run :
    (evaluate_from policies big_refund ≡ allow) ↔ NoneDenies policies big_refund
evaluate_from-NoneDenies_run = evaluate_from-NoneDenies policies big_refund

evaluate-refund_example : (evaluate big_refund ≡ allow) ↔ (
    (is_live_store big_refund ≡ true → (some owner ≢ none) × (some owner ≢ some analyst))
    × (high_value_refund_threshold ≤ 60_000
        → (some owner ≡ some owner) × (is_live_store big_refund ≡ true → false ≡ true)))
evaluate-refund_example = evaluate-refund (some owner) false (some true) 60_000 none

-- A quota of two: the third payment is refused until one has ended.
abbrev busy_month : List QuotaEvent
busy_month = created ∷ created ∷ created ∷ captured ∷ ended ∷ created ∷ captured ∷ []

abbrev new_month : Usage
new_month = record { paid_count = 0; last_warned_level = 0; in_flight = 0 }

quota_run-within_example :
    let v = (quota_run false (some 2) busy_month new_month).0 in v.paid_count + v.in_flight ≤ 2
quota_run-within_example = quota_run-within false 2 busy_month new_month (omega arith)

quota_run-told_run : length (quota_run false (some 2) busy_month new_month).1 ≤ 3
quota_run-told_run = quota_run-told false (some 2) busy_month new_month

-- Two requests a minute: of three, the last one does not go through.
abbrev at : ℕ → Hit
at t = record { redis_down = false; at = t }

abbrev unseen_at : ℕ → Hit
unseen_at t = record { redis_down = true; at = t }

window-admitted_example :
    admitted 2 60 (at 100 ∷ at 110 ∷ unseen_at 120 ∷ at 159 ∷ []) none
    ≤ 2 + unguarded (at 110 ∷ unseen_at 120 ∷ at 159 ∷ [])
window-admitted_example =
    window-admitted 2 60 100 (at 110 ∷ unseen_at 120 ∷ at 159 ∷ [])
      (omega arith, (omega arith, (omega arith, tt)))

abbrev ten_failures : List Hit
ten_failures = at 1 ∷ at 2 ∷ at 3 ∷ at 4 ∷ at 5 ∷ at 6 ∷ at 7 ∷ at 8 ∷ at 9 ∷ []

failed_logins-lock_example :
    is_locked false 20 (failed_logins (at 0 ∷ ten_failures) none)
    ≡ (if false then false else if ltb 20 900 then leb account_limit 10 else false)
failed_logins-lock_example = failed_logins-lock 0 20 false ten_failures (
  omega arith,
  (
    omega arith,
    (
      omega arith,
      (omega arith, (omega arith, (omega arith, (omega arith, (omega arith, (omega arith, tt)))))),
    ),
  ),
)

-- A new customer's 1,000.
abbrev signals : RiskSignals
signals = record { payment_id = 1; amount = 10_000_000; customer = some (0, true); same_amount = 0 }

score_payment-IsOpened_run : IsOpened (score_payment signals [])
score_payment-IsOpened_run = score_payment-IsOpened signals [] tt
