-- ===== src/Payments.antt =====
-- Payments: the row, the tables that a payment call writes, and the methods of
-- `PaymentsService` that move a payment along its lifecycle
-- (apps/api/src/payments/payments.service.ts): `transition`, `findScoped`, `applyLazyExpiry`,
-- `retrieve`, `cancel`, `simulate`.
--
-- Ids are only compared, so they are numbers; instants are numbers of milliseconds; amounts are
-- in units of 1/10000, the scale of the database column `Decimal(20,4)`. The texts of reasons and
-- log lines are left out.
pub mod Moves
pub mod Once
pub mod Refund
pub mod RefundSafety
use pay_kh.Prelude.{
  ℕ, ◌<◌, Bool, true, false, not, ◌&&◌, ◌||◌, Option, none, some, List, [], ◌∷◌, ◌++◌, Result, ok,
  err, ◌>>=◌, ◌>>◌, throw_if, ApiErrorCode, payment_not_found, invalid_request, forbidden,
  internal_error, ltb, ◌==◌, if◌then◌else◌, Table, lookup, insert,
}
use pay_kh.Types.{
  PaymentStatus, pending, scanned, paid, expired, failed, cancelled, refunded, status_code,
  can_transition, KeyMode, test, live, Currency, WebhookEventType, status_to_event,
}

-- What `create` stores in `payment.metadata` for the effects of the `paid` transition.
pub record CouponSnapshot : Type 0 where
  pub id : ℕ
  pub discount : ℕ
  pub amount_before : ℕ

pub record GiftCardSnapshot : Type 0 where
  pub id : ℕ
  pub applied : ℕ

pub record Payment : Type 0 where
  pub id : ℕ
  pub store_id : ℕ
  pub mode : KeyMode
  pub status : PaymentStatus
  pub amount : ℕ
  pub currency : Currency
  pub coupon : Option CouponSnapshot
  pub gift_card : Option GiftCardSnapshot
  pub customer_id : Option ℕ
  pub refunded_amount : ℕ
  pub expires_at : ℕ
  pub paid_at : Option ℕ

-- A row of `PaymentStatusHistory`.
pub record StatusChange : Type 0 where
  pub payment_id : ℕ
  pub from_status : Option PaymentStatus
  pub to_status : PaymentStatus

-- A row of `Refund`.
pub record RefundRow : Type 0 where
  pub id : ℕ
  pub payment_id : ℕ
  pub amount : ℕ

pub record Db : Type 0 where
  pub payments : Table Payment
  pub history : List StatusChange
  pub refunds : List RefundRow

-- What a transition sets off in other services, in the order of the code.
pub data Effect : Type 0 where
  record_paid : (store_id : ℕ) → Effect
  redeem_coupon debit_gift_card award_points reward_referral accrue_commission : Payment → Effect
  issue_games score_risk send_receipt post_captured : Payment → Effect
  publish : ℕ → PaymentStatus → Effect
  emit_webhook : Payment → WebhookEventType → Effect

-- A call's result, the tables it leaves, and the effects that took place.
pub record Outcome (A : Type 0) : Type 0 where
  pub result : Result A
  pub db : Db
  pub effects : List Effect

-- `tx.payment.updateMany({ where: { id, status: payment.status }, … })` and the history row, for
-- a payment `seen` that was read before; `none` is a count of 0.
unfoldable pub claim : Payment → PaymentStatus → ℕ → Db → Option (Payment × Db)
claim seen to now db = elim (lookup seen.id db.payments) [
  | none ↦ none
  | some row ↦
      let moved : Payment = record row {
        status = to;
        paid_at = if status_code to == status_code paid then some now else seen.paid_at;
      } in
      let change : StatusChange = record {
        payment_id = seen.id;
        from_status = some seen.status;
        to_status = to;
      } in
      if status_code row.status == status_code seen.status
      then some (
        moved,
        record db { payments = insert seen.id moved db.payments; history = change ∷ db.history },
      )
      else none
]

-- The transaction of `transition` after its read; the flag says whether to emit.
unfoldable pub transition_from : Payment → PaymentStatus → ℕ → Db → Result (Bool × Payment × Db)
unfolding claim
transition_from seen to now db =
    if status_code seen.status == status_code to
    then ok (false, seen, db)
    else if not (can_transition seen.status to)
    then err invalid_request
    else elim (claim seen to now db) [
      | none ↦ ok (false, seen, db)
      | some (moved, db') ↦ ok (true, moved, db')
    ]

unfoldable pub transition_tx : ℕ → PaymentStatus → ℕ → Db → Result (Bool × Payment × Db)
unfolding transition_from
transition_tx id to now db = elim (lookup id db.payments) [
  | none ↦ err payment_not_found
  | some payment ↦ transition_from payment to now db
]

unfoldable pub webhook_effects : Payment → PaymentStatus → List Effect
webhook_effects p to = elim (status_to_event to) [ none ↦ [] | some e ↦ emit_webhook p e ∷ [] ]

-- The effects that follow an emitted transition.
unfoldable pub effects_of : Payment → PaymentStatus → List Effect
unfolding webhook_effects status_to_event
effects_of p to =
    (if status_code to == status_code paid
      then record_paid p.store_id
        ∷ redeem_coupon p
        ∷ debit_gift_card p
        ∷ award_points p
        ∷ reward_referral p
        ∷ accrue_commission p
        ∷ issue_games p
        ∷ score_risk p
        ∷ send_receipt p
        ∷ post_captured p
        ∷ []
      else [])
    ++ (publish p.id to ∷ webhook_effects p to)

-- The one call that stands in a `try` whose `catch` only logs.
abbrev is_caught : Effect → Bool
is_caught (post_captured p) = true
is_caught _ = false

-- The calls in turn; `fails` says which of them throw. What throws and is not caught ends the
-- row. The flag says whether the row was run to its end.
unfoldable pub fire : (Effect → Bool) → List Effect → Bool × List Effect
fire fails [] = (true, [])
fire fails (e ∷ es) =
    let (done, rest) = fire fails es in
    if fails e then (if is_caught e then (done, rest) else (false, [])) else (done, e ∷ rest)

unfoldable pub after_tx :
    (Effect → Bool) → PaymentStatus → Db → Result (Bool × Payment × Db) → Outcome Payment
unfolding fire effects_of
after_tx fails to db (err e) = record { result = err e; db = db; effects = [] }
after_tx fails to db (ok (false, p, db')) = record { result = ok p; db = db'; effects = [] }
after_tx fails to db (ok (true, p, db')) =
    let (done, fired) = fire fails (effects_of p to) in
    record { result = if done then ok p else err internal_error; db = db'; effects = fired }

unfoldable pub find_scoped : ℕ → ℕ → Db → Result Payment
find_scoped store_id id db = elim (lookup id db.payments) [
  | none ↦ err payment_not_found
  | some p ↦ if p.store_id == store_id then ok p else err payment_not_found
]

-- What a method reads and checks before its first write, then the rest of it.
abbrev pub guarded : {A B : Type 0} → Result A → Db → (A → Outcome B) → Outcome B
guarded (ok a) db k = k a
guarded (err e) db k = record { result = err e; db = db; effects = [] }

-- Every method below takes the failing effects and the clock's `now`.
module _ (fails : Effect → Bool) (now : ℕ) where
  unfoldable pub transition : ℕ → PaymentStatus → Db → Outcome Payment
  unfolding after_tx transition_tx
  transition id to db = after_tx fails to db (transition_tx id to now db)

  unfoldable pub apply_lazy_expiry : Payment → Db → Outcome Payment
  apply_lazy_expiry p db =
      if (status_code p.status == status_code pending
          || status_code p.status == status_code scanned)
        && ltb p.expires_at now
      then transition p.id expired db
      else record { result = ok p; db = db; effects = [] }

  unfoldable pub retrieve : ℕ → ℕ → Db → Outcome Payment
  unfolding find_scoped apply_lazy_expiry
  retrieve store_id id db =
      guarded (find_scoped store_id id db) db λ payment. apply_lazy_expiry payment db

  unfoldable pub cancel : ℕ → ℕ → Db → Outcome Payment
  unfolding find_scoped
  cancel store_id id db =
      guarded
        (do
          payment ← find_scoped store_id id db
          throw_if (status_code payment.status == status_code paid) invalid_request
          throw_if (not (can_transition payment.status cancelled)) invalid_request
          ok payment)
        db λ payment. transition payment.id cancelled db

  unfoldable pub simulate : ℕ → KeyMode → ℕ → PaymentStatus → Db → Outcome Payment
  unfolding find_scoped
  simulate store_id mode id target db =
      guarded
        (do
          throw_if (elim mode [ test ↦ false | live ↦ true ]) forbidden
          payment ← find_scoped store_id id db
          throw_if (not (can_transition payment.status target)) invalid_request
          ok payment)
        db λ payment. transition payment.id target db
