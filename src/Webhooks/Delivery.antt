-- ===== src/Webhooks/Delivery.antt =====
-- One run of a delivery's job (`WebhookDeliveryProcessor` of
-- apps/api/src/worker/webhook-delivery.processor.ts, constants of
-- apps/api/src/queue/queue.constants.ts), and the runs of the queue.
--
-- What the receiver answers, and whether the target is safe, are arguments. BullMQ is a parameter
-- by its documented rule: a job that throws runs again, with one more in `attemptsMade`, until its
-- attempts are used.
use pay_kh.Prelude.{
  ℕ, zero, suc, ◌+◌, ◌*◌, ◌^◌, Bool, true, false, not, ◌&&◌, ◌||◌, Option, none, some, List, [],
  ◌∷◌, length, take, leb, ltb, ◌==◌, if◌then◌else◌, Table, lookup, insert,
}
use pay_kh.Webhooks.{
  WebhookDeliveryStatus, pending, succeeded, failed, is_succeeded, DeliveryError, endpoint_disabled,
  no_secret, blocked_target, unreachable, http_status, WebhookDelivery, WebhookEndpoint,
  WebhookSecret, WebhookDb,
}

abbrev pub webhook_max_attempts : ℕ
webhook_max_attempts = 6

abbrev pub webhook_backoff_ms : ℕ
webhook_backoff_ms = 30_000

abbrev pub endpoint_failure_disable_threshold : ℕ
endpoint_failure_disable_threshold = 20

-- What `fetch` comes to.
pub data Answer : Type 0 where
  answered : ℕ → Answer
  rejected : Answer

-- `responseStatus && responseStatus >= 200 && responseStatus < 300`
abbrev pub is_ok : Answer → Bool
is_ok (answered status) = leb 200 status && ltb status 300
is_ok rejected = false

abbrev pub status_of : Answer → Option ℕ
status_of (answered status) = some status
status_of rejected = none

abbrev pub error_of : Answer → Option DeliveryError
error_of (answered status) =
    if leb 200 status && ltb status 300 then none else some (http_status status)
error_of rejected = some unreachable

-- The secrets that sign: active, or rotated out and not yet expired.
abbrev pub valid_secrets : (endpoint_id now : ℕ) → List WebhookSecret → List WebhookSecret
valid_secrets endpoint_id now [] = []
valid_secrets endpoint_id now (s ∷ ss) =
    if (s.endpoint_id == endpoint_id)
      && (s.active || (elim s.expires_at [ none ↦ false | some at ↦ ltb now at ]))
    then s ∷ valid_secrets endpoint_id now ss
    else valid_secrets endpoint_id now ss

-- `prisma.webhookDelivery.update`
abbrev pub update_delivery :
    (id : ℕ) → (WebhookDelivery → WebhookDelivery) → Table WebhookDelivery → Table WebhookDelivery
update_delivery id f t = elim (lookup id t) [ none ↦ t | some d ↦ insert id (f d) t ]

abbrev pub statuses_of : (endpoint_id : ℕ) → Table WebhookDelivery → List WebhookDeliveryStatus
statuses_of endpoint_id [] = []
statuses_of endpoint_id ((id, d) ∷ ds) =
    if d.endpoint_id == endpoint_id
    then d.status ∷ statuses_of endpoint_id ds
    else statuses_of endpoint_id ds

-- The count stops at the first success; rows that are pending are passed over.
unfoldable pub consecutive_failures : List WebhookDeliveryStatus → ℕ
consecutive_failures [] = 0
consecutive_failures (succeeded ∷ ss) = 0
consecutive_failures (failed ∷ ss) = suc (consecutive_failures ss)
consecutive_failures (pending ∷ ss) = consecutive_failures ss

unfoldable pub maybe_disable_endpoint : (endpoint_id : ℕ) → WebhookDb → WebhookDb
maybe_disable_endpoint endpoint_id db =
    let recent =
      take (endpoint_failure_disable_threshold * 3) (statuses_of endpoint_id db.deliveries) in
    if leb endpoint_failure_disable_threshold (consecutive_failures recent)
    then elim (lookup endpoint_id db.endpoints) [
      | none ↦ db
      | some e ↦ if e.disabled then db else record db {
        endpoints = insert endpoint_id (record e { disabled = true }) db.endpoints;
        security_events = endpoint_id ∷ db.security_events;
      }
    ]
    else db

unfoldable pub mark_permanent_failure :
    (delivery_id endpoint_id attempts_made : ℕ)
    → (response_status : Option ℕ) → Option DeliveryError
    → WebhookDb
    → WebhookDb
mark_permanent_failure delivery_id endpoint_id attempts_made response_status error db =
    maybe_disable_endpoint endpoint_id (record db {
      deliveries =
          update_delivery delivery_id
            (λ d. record d {
              status = failed;
              attempt = suc attempts_made;
              response_status = response_status;
              error = error;
              next_attempt_at = none;
            })
            db.deliveries;
    })

-- The writes after the request, which take no part of the row from what was read: `true` where the
-- job throws, so as to run again.
unfoldable pub conclude :
    (now delivery_id endpoint_id attempts_made : ℕ) → Answer → WebhookDb → Bool × WebhookDb
conclude now delivery_id endpoint_id attempts_made answer db =
    if is_ok answer
    then (
      false,
      record db {
        deliveries =
            update_delivery delivery_id
              (λ d. record d {
                status = succeeded;
                attempt = suc attempts_made;
                response_status = status_of answer;
                error = none;
                next_attempt_at = none;
              })
              db.deliveries;
      },
    )
    else if leb webhook_max_attempts (suc attempts_made)
    then (
      false,
      mark_permanent_failure delivery_id endpoint_id attempts_made (status_of answer)
          (error_of answer) db,
    )
    else (
      true,
      record db {
        deliveries =
            update_delivery delivery_id
              (λ d. record d {
                status = pending;
                attempt = suc attempts_made;
                response_status = status_of answer;
                error = error_of answer;
                next_attempt_at = some (now + webhook_backoff_ms * 2 ^ attempts_made);
              })
              db.deliveries;
      },
    )

-- `process`, from the delivery and the endpoint that it read on.
unfoldable pub process_from :
    WebhookDelivery
    → WebhookEndpoint
    → (now attempts_made : ℕ) → (safe : Bool) → Answer
    → WebhookDb
    → Bool × WebhookDb
process_from delivery endpoint now attempts_made safe answer db =
    if is_succeeded delivery.status
    then (false, db)
    else if endpoint.disabled
    then (
      false,
      record db {
        deliveries =
            update_delivery delivery.id
              (λ d. record d { status = failed; error = some endpoint_disabled }) db.deliveries;
      },
    )
    else if length (valid_secrets endpoint.id now db.secrets) == 0
    then (
      false,
      mark_permanent_failure delivery.id endpoint.id attempts_made none (some no_secret) db,
    )
    else if not safe
    then (
      false,
      mark_permanent_failure delivery.id endpoint.id attempts_made none (some blocked_target) db,
    )
    else conclude now delivery.id endpoint.id attempts_made answer db

-- `findUnique` with the endpoint, which a delivery always has.
unfoldable pub process :
    (delivery_id now attempts_made : ℕ) → (safe : Bool) → Answer → WebhookDb → Bool × WebhookDb
process delivery_id now attempts_made safe answer db = elim (lookup delivery_id db.deliveries) [
  | none ↦ (false, db)
  | some delivery ↦ elim (lookup delivery.endpoint_id db.endpoints) [
    | none ↦ (false, db)
    | some endpoint ↦ process_from delivery endpoint now attempts_made safe answer db
  ]
]

-- The runs of a job by the queue. Each run has its own time, answer and check of the target.
unfoldable pub run_job :
    (attempts_left attempts_made delivery_id : ℕ)
    → (now : ℕ → ℕ) → (safe : ℕ → Bool) → (answer : ℕ → Answer) → WebhookDb
    → WebhookDb
run_job zero attempts_made delivery_id now safe answer db = db
run_job (suc left) attempts_made delivery_id now safe answer db =
    let (throws, db') =
      process delivery_id (now attempts_made) attempts_made (safe attempts_made)
        (answer attempts_made) db in
    let again = run_job left (suc attempts_made) delivery_id now safe answer db' in
    if throws then again else db'
