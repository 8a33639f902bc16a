-- ===== src/Payments/Refund.antt =====
-- Refunds: `PaymentsService.refund` of apps/api/src/payments/payments.service.ts. The provider's
-- answer, the idempotency pre-check and the transaction are three steps; other requests may run
-- between them.
use pay_kh.Prelude.{
  ℕ, ◌+◌, ◌-◌, Bool, true, not, Option, none, some, List, [], ◌∷◌, Result, ok, err, ◌>>=◌, ◌>>◌,
  throw_if, invalid_request, amount_too_low, payment_provider_error, idempotency_conflict,
  internal_error, ltb, leb, ◌==◌, if◌then◌else◌, lookup, insert,
}
use pay_kh.Types.{paid, refunded, status_code, payment_refunded}
use pay_kh.Money.{validate_amount}
use pay_kh.Idempotency.{Slot, IdempotencyRecord, Response, Executed, execute, find, replay}
use pay_kh.Payments.{
  Payment, StatusChange, RefundRow, Db, Effect, Outcome, find_scoped, transition, emit_webhook,
}

-- The amount of the refund, for the payment that the call read: the whole rest unless the request
-- names an amount, which an empty text does not.
unfoldable pub refund_amount : Payment → Option (List ℕ) → Result ℕ
refund_amount payment amount =
    let remaining = payment.amount - payment.refunded_amount in
    do
      throw_if (not (status_code payment.status == status_code paid)) invalid_request
      throw_if (leb payment.amount payment.refunded_amount) invalid_request
      value ← elim amount [
        | none ↦ ok remaining
        | some [] ↦ ok remaining
        | some (c ∷ text) ↦ validate_amount (c ∷ text) payment.currency
      ]
      throw_if (leb value 0) amount_too_low
      throw_if (ltb remaining value) invalid_request
      ok value

-- What the provider answers to `refundPayment`: it throws, or it says whether it went through.
pub data ProviderAnswer : Type 0 where
  thrown : ProviderAnswer
  answered : (is_ok : Bool) → ProviderAnswer

-- The work of the transaction, for the payment `seen` that was read before: the update that is
-- locked on `refundedAmount`, the refund and the history row.
unfoldable pub reserve : Payment → (value refund_id : ℕ) → Db → Result (RefundRow × ℕ × Db)
reserve seen value refund_id db = elim (lookup seen.id db.payments) [
  | none ↦ err idempotency_conflict
  | some row ↦
      let refund : RefundRow = record { id = refund_id; payment_id = seen.id; amount = value } in
      let change : StatusChange = record {
        payment_id = seen.id;
        from_status = some paid;
        to_status = paid;
      } in
      let row' : Payment = record row { refunded_amount = seen.refunded_amount + value } in
      if row.refunded_amount == seen.refunded_amount
      then ok (
        refund,
        201,
        record db {
          payments = insert seen.id row' db.payments;
          history = change ∷ db.history;
          refunds = refund ∷ db.refunds;
        },
      )
      else err idempotency_conflict
]

-- One request for a refund, with what it met on its way: the record that its pre-checks read,
-- and the provider's answer.
pub record RefundRequest : Type 0 where
  pub store_id : ℕ
  pub payment_id : ℕ
  pub amount : Option (List ℕ)
  pub slot : Option Slot
  pub request_hash : ℕ
  pub refund_id : ℕ
  pub answer : ProviderAnswer

-- What the call has read and decided before its transaction: the payment and the amount.
unfoldable pub prepare_refund : RefundRequest → Db → Result (Payment × ℕ)
prepare_refund q db = do
  payment ← find_scoped q.store_id q.payment_id db
  value ← refund_amount payment q.amount
  throw_if (elim q.answer [ thrown ↦ true | answered is_ok ↦ not is_ok ]) payment_provider_error
  ok (payment, value)

-- What follows a refund that took effect: a full refund moves the payment to `refunded`, a
-- partial one only announces itself. (The ledger and audit entries are their own components.)
unfoldable pub after_refund : (Effect → Bool) → ℕ → Payment → ℕ → Db → Outcome (Option Payment)
after_refund fails now seen value db =
    let o = transition fails now seen.id refunded db in
    let row = lookup seen.id db.payments in
    if leb seen.amount (seen.refunded_amount + value)
    then (record {
      result = elim o.result [ ok p ↦ ok (some p) | err e ↦ err e ];
      db = o.db;
      effects = o.effects;
    })
    else elim row [
      | none ↦ record { result = ok none; db = db; effects = [] }
      | some p ↦
          let announced = emit_webhook p payment_refunded in
          if fails announced
          then (record { result = err internal_error; db = db; effects = [] })
          else (record { result = ok (some p); db = db; effects = announced ∷ [] })
    ]

abbrev prior_of :
    Option Slot → List (IdempotencyRecord RefundRow) → Option (IdempotencyRecord RefundRow)
prior_of none records = none
prior_of (some slot) records = find slot records

-- What is left to do behind the guard: nothing, unless the refund is fresh.
settle_refund :
    (Effect → Bool)
    → ℕ
    → Payment
    → ℕ
    → Executed Db RefundRow
    → Outcome (Response RefundRow) × List (IdempotencyRecord RefundRow)
unfolding after_refund
settle_refund fails now seen value e = elim e.result [
  | err c ↦ (record { result = err c; db = e.state; effects = [] }, e.records)
  | ok r ↦
      let o = after_refund fails now seen value e.state in
      if r.replayed then (record { result = ok r; db = e.state; effects = [] }, e.records) else (
        record {
          result = elim o.result [ ok p ↦ ok r | err c ↦ err c ];
          db = o.db;
          effects = o.effects;
        },
        e.records,
      )
]

-- The whole call, run with nothing in between.
unfoldable pub refund :
    (Effect → Bool)
    → ℕ
    → RefundRequest
    → Db
    → List (IdempotencyRecord RefundRow)
    → Outcome (Response RefundRow) × List (IdempotencyRecord RefundRow)
unfolding prepare_refund reserve execute find settle_refund
refund fails now q db records = elim (prior_of q.slot records) [
  | some p ↦ (record { result = replay p q.request_hash; db = db; effects = [] }, records)
  | none ↦ elim (prepare_refund q db) [
    | err c ↦ (record { result = err c; db = db; effects = [] }, records)
    | ok (seen, value) ↦ settle_refund fails now seen value (
        execute (reserve seen value q.refund_id) now q.slot q.request_hash (prior_of q.slot records)
          db records)
  ]
]
