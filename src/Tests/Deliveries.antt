-- ===== src/Tests/Deliveries.antt =====
-- Deliveries of webhooks at concrete inputs.
use pay_kh.Prelude.{
  ℕ, zero, suc, ◌≡◌, ◌<◌, ◌↔◌, refl, true, false, none, some, [], ◌∷◌, take, lookup, arith,
}
use pay_kh.Webhooks.{pending, is_succeeded, WebhookDelivery, WebhookEndpoint, WebhookDb}
use pay_kh.Webhooks.Delivery.{
  is_ok, Answer, answered, rejected, process, process_from, run_job, webhook_max_attempts,
  maybe_disable_endpoint, statuses_of,
}
use pay_kh.Webhooks.Settled.{IsEnd, run_job_settles}
use pay_kh.Webhooks.Races.{
  Ready, IsDelivered, IsDelivered-at_first_accepted, late_failure_overwrites,
}
use pay_kh.Webhooks.Fanout.{FailedRun, maybe_disable_endpoint_iff}

abbrev parcel : WebhookDelivery
parcel = record {
  id = 1;
  endpoint_id = 5;
  event_id = 9;
  status = pending;
  attempt = 0;
  response_status = none;
  error = none;
  next_attempt_at = none;
  created_at = 100;
}

abbrev shop_hook : WebhookEndpoint
shop_hook = record { id = 5; store_id = 7; disabled = false; enabled_events = [] }

abbrev hooks : WebhookDb
hooks = record {
  deliveries = (1, parcel) ∷ [];
  endpoints = (5, shop_hook) ∷ [];
  events = [];
  secrets = record { endpoint_id = 5; active = true; expires_at = none } ∷ [];
  queue = 1 ∷ [];
  security_events = [];
  next_id = 10;
}

-- Refused once, then accepted.
abbrev second_time : ℕ → Answer
second_time zero = answered 500
second_time (suc n) = answered 200

run_job_settles_example :
    (d : WebhookDelivery) × (lookup 1
        (run_job webhook_max_attempts 0 1 (λ k. k) (λ k. true) (λ k. rejected) hooks).deliveries
      ≡ some d)
    × IsEnd d.status
unfolding lookup
run_job_settles_example =
    run_job_settles 1 (λ k. k) (λ k. true) (λ k. rejected) hooks parcel shop_hook refl refl refl

parcel_there : lookup 1 hooks.deliveries ≡ some parcel
unfolding lookup
parcel_there = refl

hook_there : lookup 5 hooks.endpoints ≡ some shop_hook
unfolding lookup
hook_there = refl

abbrev waiting : Ready 1 hooks
waiting = record {
  row = parcel;
  endpoint = shop_hook;
  found = parcel_there;
  keyed = refl;
  waits = refl;
  target = hook_there;
  enabled = refl;
  signing = λ t. refl;
}

first_refused : (j : ℕ) → j < 1 → is_ok (second_time j) ≡ false
first_refused zero lt = refl
first_refused (suc j) lt = absurd (omega arith)

IsDelivered-at_first_accepted_example :
    IsDelivered 1 2 (run_job webhook_max_attempts 0 1 (λ k. k) (λ _. true) second_time hooks)
IsDelivered-at_first_accepted_example =
    IsDelivered-at_first_accepted 1 (λ k. k) second_time 1 hooks waiting (omega arith) first_refused
      refl

late_failure_overwrites_example :
    let (_, db1) = process_from parcel shop_hook 100 0 true (answered 200) hooks in
    let (throws, db2) = process_from parcel shop_hook 101 1 true rejected db1 in
    let (_, db3) = process 1 200 2 true (answered 200) db2 in
    IsDelivered 1 1 db1
    × (throws ≡ true)
    × ((d : WebhookDelivery) × (lookup 1 db2.deliveries ≡ some d) × (is_succeeded d.status ≡ false))
    × IsDelivered 1 3 db3
late_failure_overwrites_example =
    late_failure_overwrites 1 100 101 200 0 1 (answered 200) rejected (answered 200) hooks waiting
      refl refl refl (omega arith)

maybe_disable_endpoint_iff_example :
    (lookup 5 (maybe_disable_endpoint 5 hooks).endpoints
      ≡ some (record shop_hook { disabled = true }))
    ↔ FailedRun 20 (take 60 (statuses_of 5 hooks.deliveries))
unfolding lookup
maybe_disable_endpoint_iff_example = maybe_disable_endpoint_iff 5 hooks shop_hook refl refl
