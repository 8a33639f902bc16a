-- ===== src/Checkout.antt =====
-- Creating a payment: `PaymentsService.create` of apps/api/src/payments/payments.service.ts, with the
-- quota, the coupon, the gift card, the guard of the write APIs and the transition that it calls.
--
-- The answer of the provider of the QR code is an argument; its row, the QR text and the fields that
-- are only stored are left out. Of the free `metadata` of a request the two keys that other
-- services read are kept.
pub mod Price
pub mod Covered
use pay_kh.Prelude.{
  ℕ, suc, ◌+◌, ◌*◌, Bool, true, false, not, ◌&&◌, Option, none, some, List, [], ◌∷◌, ◌++◌, Result,
  ok, err, ◌>>=◌, ◌>>◌, throw_if, internal_error, invalid_request, payment_provider_error, leb, ltb,
  ◌==◌, if◌then◌else◌, Table, lookup, insert,
}
use pay_kh.Types.{PaymentStatus, pending, paid, Currency, KeyMode, payment_created}
use pay_kh.Decimal.{Rounding}
use pay_kh.Money.{validate_amount, format_amount}
use pay_kh.Payments.{
  Payment, CouponSnapshot, GiftCardSnapshot, StatusChange, Db, Effect, emit_webhook, Outcome,
  guarded, transition,
}
use pay_kh.Idempotency.{Slot, IdempotencyRecord, Response, Executed, find, replay, execute}
use pay_kh.Quota.{Usage, assert_within_quota}
use pay_kh.Coupons
use pay_kh.GiftCards
use pay_kh.Loyalty.{Customer}

-- `CreatePaymentDto`
pub record CreatePayment : Type 0 where
  pub amount : List ℕ
  pub currency : Currency
  pub branch_id : Option ℕ
  pub customer_id : Option ℕ
  pub coupon_code : Option ℕ
  pub gift_card_code : Option ℕ
  pub metadata_coupon : Option CouponSnapshot
  pub metadata_gift_card : Option GiftCardSnapshot
  pub expires_in_seconds : Option ℕ

-- `ApiKeyContext`
pub record ApiKeyContext : Type 0 where
  pub store_id : ℕ
  pub mode : KeyMode

pub record Branch : Type 0 where
  pub id : ℕ
  pub store_id : ℕ
  pub is_active : Bool

-- The tables that `create` only reads.
pub record Catalog : Type 0 where
  pub suspended : Bool
  pub quota : Option ℕ
  pub usage : Usage
  pub branches : Table Branch
  pub customers : Table Customer
  pub coupons : Coupons.CouponDb
  pub gift_cards : GiftCards.GiftCardDb

-- `DEFAULT_EXPIRY_SECONDS`
abbrev pub default_expiry_seconds : ℕ
default_expiry_seconds = 300

unfoldable pub resolve_active : (store_id : ℕ) → Option ℕ → Table Branch → Result (Option ℕ)
resolve_active store_id none branches = ok none
resolve_active store_id (some id) branches = elim (lookup id branches) [
  | none ↦ err invalid_request
  | some b ↦ do
    throw_if (not (b.store_id == store_id)) invalid_request
    throw_if (not b.is_active) invalid_request
    ok (some b.id)
]

unfoldable pub resolve_for_store : (store_id : ℕ) → Option ℕ → Table Customer → Result (Option ℕ)
resolve_for_store store_id none customers = ok none
resolve_for_store store_id (some id) customers = elim (lookup id customers) [
  | none ↦ err invalid_request
  | some c ↦ do throw_if (not (c.store_id == store_id)) invalid_request; ok (some c.id)
]

-- What the payer is charged, and what the metadata records of it.
pub record Charge : Type 0 where
  pub amount : ℕ
  pub coupon : Option CouponSnapshot
  pub gift_card : Option GiftCardSnapshot
  pub covers_fully : Bool

module _ (round : Rounding) (now : ℕ) where
  -- The discount code, if the request has one.
  unfoldable pub price_coupon :
      (store_id : ℕ)
      → CreatePayment
      → (customer_id : Option ℕ) → (amount : ℕ) → Coupons.CouponDb
      → Result (ℕ × Option CouponSnapshot)
  price_coupon store_id dto customer_id amount db = elim dto.coupon_code [
    | none ↦ ok (amount, dto.metadata_coupon)
    | some code ↦ do
      q ← Coupons.quote round store_id (some code) amount dto.currency customer_id now db
      charged ← validate_amount (format_amount round q.amount_after dto.currency) dto.currency
      ok (
        charged,
        some (record { id = q.coupon_id; discount = q.discount; amount_before = q.amount_before }),
      )
  ]

  -- The gift card, if the request has one.
  unfoldable pub price_gift_card :
      (store_id : ℕ)
      → CreatePayment
      → (amount : ℕ) → Option CouponSnapshot
      → GiftCards.GiftCardDb
      → Result Charge
  price_gift_card store_id dto amount coupon db = elim dto.gift_card_code [
    | none ↦ ok (record {
      amount = amount;
      coupon = coupon;
      gift_card = dto.metadata_gift_card;
      covers_fully = false;
    })
    | some code ↦ do
      g ← GiftCards.quote round store_id (some code) amount dto.currency now db
      ok (record {
        amount = g.remaining;
        coupon = coupon;
        gift_card = some (record { id = g.gift_card_id; applied = g.applied });
        covers_fully = leb g.remaining 0;
      })
  ]

  unfoldable pub price_order :
      (store_id : ℕ)
      → CreatePayment
      → (customer_id : Option ℕ) → (amount : ℕ) → Catalog
      → Result Charge
  price_order store_id dto customer_id amount catalog = do
    (charged, coupon) ← price_coupon store_id dto customer_id amount catalog.coupons
    price_gift_card store_id dto charged coupon catalog.gift_cards

  -- What `create` does before it asks the provider.
  unfoldable pub prepare_payment :
      ApiKeyContext → CreatePayment → (store_exists : Bool) → Catalog → Result (Option ℕ × Charge)
  prepare_payment ctx dto store_exists catalog = do
    assert_within_quota catalog.suspended catalog.quota catalog.usage
    amount ← validate_amount dto.amount dto.currency
    throw_if (not store_exists) internal_error
    branch ← resolve_active ctx.store_id dto.branch_id catalog.branches
    customer_id ← resolve_for_store ctx.store_id dto.customer_id catalog.customers
    charge ← price_order ctx.store_id dto customer_id amount catalog
    ok (customer_id, charge)

  -- The provider is asked only if there is something to pay; `none` is an exception that is not an
  -- `ApiError`.
  unfoldable pub ask_provider :
      (amount : ℕ) → (answer : Option (Result (Unit {0}))) → Result (Unit {0})
  ask_provider amount answer =
      if leb amount 0 then ok tt else elim answer [ none ↦ err payment_provider_error | some r ↦ r ]

  abbrev pub expiry_of : CreatePayment → ℕ
  expiry_of dto =
      now + (elim dto.expires_in_seconds [ none ↦ default_expiry_seconds | some s ↦ s ]) * 1000

  -- The row that is created.
  abbrev pub new_payment :
      ApiKeyContext → CreatePayment → (payment_id : ℕ) → Option ℕ → Charge → Payment
  new_payment ctx dto payment_id customer_id charge = record {
    id = payment_id;
    store_id = ctx.store_id;
    mode = ctx.mode;
    status = pending;
    amount = charge.amount;
    currency = dto.currency;
    coupon = charge.coupon;
    gift_card = charge.gift_card;
    customer_id = customer_id;
    refunded_amount = 0;
    expires_at = expiry_of dto;
    paid_at = none;
  }

  -- The work under the guard.
  unfoldable pub insert_payment : Payment → Db → Result (Payment × ℕ × Db)
  insert_payment row db =
      let created : StatusChange = record {
        payment_id = row.id;
        from_status = none;
        to_status = pending;
      } in
      ok (
        row,
        201,
        record db { payments = insert row.id row db.payments; history = created ∷ db.history },
      )

  -- What follows the guard: the event of a genuine first creation and, where the card covers all, the
  -- capture. `fails` says which of the effects throw.
  unfoldable pub after_create :
      (fails : Effect → Bool) → Charge → Executed Db Payment → Outcome Payment
  after_create fails charge done = elim done.result [
    | err e ↦ record { result = err e; db = done.state; effects = [] }
    | ok response ↦
        let emitted = emit_webhook response.resource payment_created in
        let moved = transition fails now response.resource.id paid done.state in
        if response.replayed
        then record { result = ok response.resource; db = done.state; effects = [] }
        else if fails emitted
        then record { result = err internal_error; db = done.state; effects = [] }
        else if charge.covers_fully
        then record { result = moved.result; db = moved.db; effects = emitted ∷ moved.effects }
        else record { result = ok response.resource; db = done.state; effects = emitted ∷ [] }
  ]

  unfoldable pub create :
      (fails : Effect → Bool)
      → (answer : Option (Result (Unit {0}))) → ApiKeyContext
      → CreatePayment
      → Option Slot
      → (request_hash payment_id : ℕ) → (store_exists : Bool) → Catalog
      → List (IdempotencyRecord Payment)
      → Db
      → Outcome Payment × List (IdempotencyRecord Payment)
  create fails answer ctx dto slot request_hash payment_id store_exists catalog records db =
      let prior : Option (IdempotencyRecord Payment) = elim slot [
        | none ↦ none
        | some s ↦ find s records
      ] in
      let ready : Result (Option ℕ × Charge) = do
        (customer_id, charge) ← prepare_payment ctx dto store_exists catalog
        ask_provider charge.amount answer
        ok (customer_id, charge)
      in elim prior [
        | some p ↦ elim (replay p request_hash) [
          | err e ↦ (record { result = err e; db = db; effects = [] }, records)
          | ok response ↦ (record { result = ok response.resource; db = db; effects = [] }, records)
        ]
        | none ↦ elim ready [
          | err e ↦ (record { result = err e; db = db; effects = [] }, records)
          | ok (customer_id, charge) ↦
              let done =
                execute (insert_payment (new_payment ctx dto payment_id customer_id charge)) now
                  slot request_hash none db records in
              (after_create fails charge done, done.records)
        ]
      ]
