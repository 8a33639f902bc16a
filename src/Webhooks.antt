-- ===== src/Webhooks.antt =====
-- Webhooks: the fan-out of events to endpoints (`WebhookEventsService` of
-- apps/api/src/webhooks/webhook-events.service.ts) and their delivery
-- (apps/api/src/worker/webhook-delivery.processor.ts, in Delivery).
--
-- The rows of deliveries stand with the newest first. The queue holds the jobs that were added; the
-- body of an event, its signature and the stored response body are left out, like the messages
-- that the notifications and the connectors of `emit` send.
pub mod Delivery
pub mod Settled
pub mod Races
pub mod Fanout
use pay_kh.Prelude.{
  ℕ, suc, ◌+◌, ◌-◌, ◌*◌, Bool, true, false, not, ◌&&◌, ◌||◌, Option, none, some, List, [], ◌∷◌,
  length, take, leb, ltb, ◌==◌, if◌then◌else◌, Table, lookup, insert, includes,
}
use pay_kh.Types.{
  PaymentStatus, WebhookEventType, status_to_event, payment_created, payment_scanned,
  payment_completed, payment_failed, payment_cancelled, payment_refunded,
}
use pay_kh.Payments.{Payment}

pub data WebhookDeliveryStatus : Type 0 where
  pending succeeded failed : WebhookDeliveryStatus

abbrev pub is_pending : WebhookDeliveryStatus → Bool
is_pending pending = true
is_pending _ = false

abbrev pub is_succeeded : WebhookDeliveryStatus → Bool
is_succeeded succeeded = true
is_succeeded _ = false

abbrev pub is_failed : WebhookDeliveryStatus → Bool
is_failed failed = true
is_failed _ = false

-- What `error` says.
pub data DeliveryError : Type 0 where
  endpoint_disabled no_secret blocked_target unreachable : DeliveryError
  http_status : ℕ → DeliveryError

pub record WebhookDelivery : Type 0 where
  pub id : ℕ
  pub endpoint_id : ℕ
  pub event_id : ℕ
  pub status : WebhookDeliveryStatus
  pub attempt : ℕ
  pub response_status : Option ℕ
  pub error : Option DeliveryError
  pub next_attempt_at : Option ℕ
  pub created_at : ℕ

pub record WebhookEndpoint : Type 0 where
  pub id : ℕ
  pub store_id : ℕ
  pub disabled : Bool
  pub enabled_events : List WebhookEventType

pub record WebhookEvent : Type 0 where
  pub id : ℕ
  pub store_id : ℕ
  pub payment_id : ℕ
  pub type : WebhookEventType

pub record WebhookSecret : Type 0 where
  pub endpoint_id : ℕ
  pub active : Bool
  pub expires_at : Option ℕ

-- `next_id` is the next of the generated ids; `security_events` are the endpoints that were
-- reported as disabled.
pub record WebhookDb : Type 0 where
  pub deliveries : Table WebhookDelivery
  pub endpoints : Table WebhookEndpoint
  pub events : List WebhookEvent
  pub secrets : List WebhookSecret
  pub queue : List ℕ
  pub security_events : List ℕ
  pub next_id : ℕ

abbrev pub event_code : WebhookEventType → ℕ
event_code payment_created = 0
event_code payment_scanned = 1
event_code payment_completed = 2
event_code WebhookEventType.payment_expired = 3
event_code payment_failed = 4
event_code payment_cancelled = 5
event_code payment_refunded = 6

-- An endpoint with no list of events takes all.
abbrev pub subscribes : WebhookEndpoint → WebhookEventType → Bool
subscribes e type = (length e.enabled_events == 0) || includes event_code e.enabled_events type

unfoldable pub matching : (store_id : ℕ) → WebhookEventType → Table WebhookEndpoint → List ℕ
matching store_id type [] = []
matching store_id type ((id, e) ∷ es) =
    if (e.store_id == store_id) && not e.disabled && subscribes e type
    then id ∷ matching store_id type es
    else matching store_id type es

unfoldable pub enqueue : (delivery_id : ℕ) → WebhookDb → WebhookDb
enqueue delivery_id db = record db { queue = delivery_id ∷ db.queue }

module _ (now : ℕ) where
  -- The loop of `emit`: a delivery and a job for each endpoint.
  unfoldable pub create_deliveries : (event_id : ℕ) → List ℕ → WebhookDb → WebhookDb
  create_deliveries event_id [] db = db
  create_deliveries event_id (endpoint_id ∷ ids) db =
      let delivery : WebhookDelivery = record {
        id = db.next_id;
        endpoint_id = endpoint_id;
        event_id = event_id;
        status = pending;
        attempt = 0;
        response_status = none;
        error = none;
        next_attempt_at = none;
        created_at = now;
      } in
      create_deliveries event_id ids (
        enqueue db.next_id (record db {
          deliveries = (db.next_id, delivery) ∷ db.deliveries;
          next_id = suc db.next_id;
        }))

  unfoldable pub emit : Payment → WebhookEventType → WebhookDb → WebhookDb
  emit payment type db =
      let endpoint_ids = matching payment.store_id type db.endpoints in
      let event : WebhookEvent = record {
        id = db.next_id;
        store_id = payment.store_id;
        payment_id = payment.id;
        type = type;
      } in
      if length endpoint_ids == 0
      then db
      else create_deliveries db.next_id endpoint_ids
          (record db { events = event ∷ db.events; next_id = suc db.next_id })

  unfoldable pub emit_for_status : Payment → PaymentStatus → WebhookDb → WebhookDb
  emit_for_status payment status db = elim (status_to_event status) [
    | none ↦ db
    | some type ↦ emit payment type db
  ]

  unfoldable pub emit_created : Payment → WebhookDb → WebhookDb
  emit_created payment db = emit payment payment_created db

  unfoldable pub emit_refunded : Payment → WebhookDb → WebhookDb
  emit_refunded payment db = emit payment payment_refunded db

  -- The condition of `reconcilePending`.
  abbrev pub is_orphaned : (orphan_ms : ℕ) → Table WebhookEndpoint → WebhookDelivery → Bool
  is_orphaned orphan_ms endpoints d =
      is_pending d.status
      && (elim (lookup d.endpoint_id endpoints) [ none ↦ false | some e ↦ not e.disabled ])
      && (elim d.next_attempt_at [
        | some at ↦ ltb at now
        | none ↦ ltb (d.created_at + orphan_ms) now
      ])

  unfoldable pub orphans : (orphan_ms : ℕ) → Table WebhookEndpoint → Table WebhookDelivery → List ℕ
  orphans orphan_ms endpoints [] = []
  orphans orphan_ms endpoints ((id, d) ∷ ds) =
      if is_orphaned orphan_ms endpoints d
      then id ∷ orphans orphan_ms endpoints ds
      else orphans orphan_ms endpoints ds

  unfoldable pub enqueue_all : List ℕ → WebhookDb → WebhookDb
  enqueue_all [] db = db
  enqueue_all (id ∷ ids) db = enqueue_all ids (enqueue id db)

  unfoldable pub reconcile_pending : (orphan_ms : ℕ) → WebhookDb → ℕ × WebhookDb
  reconcile_pending orphan_ms db =
      let found = take 500 (orphans orphan_ms db.endpoints db.deliveries) in
      (length found, enqueue_all found db)
