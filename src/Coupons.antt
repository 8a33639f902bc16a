-- ===== src/Coupons.antt =====
-- Coupons: `quote` and `onPaid` of `CouponsService`, apps/api/src/coupons/coupons.module.ts.
--
-- Amounts are in units of 10^-4; the value of a percentage coupon is in 10^-4 percent. What the
-- quote asks of other tables (the customer's paid payments, the customer's redemptions) it counts
-- in the state.
pub mod Quote
pub mod Redeem
use pay_kh.Prelude.{
  ℕ, suc, ◌+◌, ◌-◌, ◌*◌, min, Bool, true, false, not, ◌&&◌, ◌||◌, Option, none, some, List, [], ◌∷◌,
  Result, ok, err, ◌>>=◌, ◌>>◌, throw_if, ApiErrorCode, invalid_request, leb, ltb, ◌==◌,
  if◌then◌else◌, Table, lookup, insert, sum_by, is_some_eq,
}
use pay_kh.Types.{Currency, usd, khr, PaymentStatus, paid, status_code}
use pay_kh.Decimal.{Rounding}
use pay_kh.Payments.{Payment, CouponSnapshot}

pub data CouponType : Type 0 where
  percent fixed : CouponType

pub record Coupon : Type 0 where
  pub id : ℕ
  pub store_id : ℕ
  pub code : ℕ
  pub type : CouponType
  pub value : ℕ
  pub currency : Option Currency
  pub min_spend : Option ℕ
  pub max_redemptions : Option ℕ
  pub per_customer_limit : Option ℕ
  pub first_order_only : Bool
  pub redemption_count : ℕ
  pub active : Bool
  pub starts_at : Option ℕ
  pub expires_at : Option ℕ

pub record CouponRedemption : Type 0 where
  pub coupon_id : ℕ
  pub customer_id : Option ℕ
  pub payment_id : ℕ
  pub amount_before : ℕ
  pub discount : ℕ
  pub amount_after : ℕ

pub record CouponDb : Type 0 where
  pub coupons : Table Coupon
  pub redemptions : List CouponRedemption
  pub payments : List Payment

-- The units of 10^-4 in the currency's smallest unit: `DECIMALS` are 2 and 0.
abbrev pub minor_unit : Currency → ℕ
minor_unit usd = 100
minor_unit khr = 10_000

abbrev pub currency_number : Currency → ℕ
currency_number usd = 0
currency_number khr = 1

pub record CouponQuote : Type 0 where
  pub coupon_id : ℕ
  pub discount : ℕ
  pub amount_before : ℕ
  pub amount_after : ℕ

unfoldable pub find_code : ℕ → ℕ → Table Coupon → Option Coupon
find_code store_id code [] = none
find_code store_id code ((id, c) ∷ cs) =
    if (c.store_id == store_id) && (c.code == code) then some c else find_code store_id code cs

-- `payment.count({ where: { storeId, customerId, status: 'PAID' } })`
unfoldable pub prior_paid : ℕ → ℕ → List Payment → ℕ
prior_paid store_id customer_id = sum_by (λ p.
    if (p.store_id == store_id)
      && is_some_eq p.customer_id customer_id
      && (status_code p.status == status_code paid)
    then 1
    else 0)

-- `couponRedemption.count({ where: { couponId, customerId } })`
unfoldable pub used_by : ℕ → ℕ → List CouponRedemption → ℕ
used_by coupon_id customer_id =
    sum_by
      (λ r. if (r.coupon_id == coupon_id) && is_some_eq r.customer_id customer_id then 1 else 0)

-- Whether an optional bound is there and the test holds of it.
abbrev pub bound_fails : Option ℕ → (ℕ → Bool) → Bool
bound_fails none test = false
bound_fails (some n) test = test n

abbrev pub is_fixed : CouponType → Bool
is_fixed percent = false
is_fixed fixed = true

abbrev pub other_currency : Option Currency → Currency → Bool
other_currency none c = false
other_currency (some d) c = not (currency_number d == currency_number c)

-- The rules that a coupon puts on an order.
unfoldable pub check_coupon :
    Coupon
    → (amount : ℕ) → Currency
    → (customer_id : Option ℕ) → (now : ℕ) → CouponDb
    → Result (Unit {0})
check_coupon coupon amount currency customer_id now db = do
  throw_if (not coupon.active) invalid_request
  throw_if (bound_fails coupon.starts_at (λ t. ltb now t)) invalid_request
  throw_if (bound_fails coupon.expires_at (λ t. leb t now)) invalid_request
  throw_if (is_fixed coupon.type && other_currency coupon.currency currency) invalid_request
  throw_if (bound_fails coupon.max_redemptions (λ n. leb n coupon.redemption_count)) invalid_request
  throw_if (bound_fails coupon.min_spend (λ n. ltb amount n)) invalid_request
  throw_if
      (coupon.first_order_only && elim customer_id [
        | none ↦ true
        | some c ↦ ltb 0 (prior_paid coupon.store_id c db.payments)
      ])
      invalid_request
  throw_if
      (elim customer_id [
        | none ↦ false
        | some c ↦
            bound_fails coupon.per_customer_limit (λ n. leb n (used_by coupon.id c db.redemptions))
      ])
      invalid_request

module _ (round : Rounding) where
  -- The discount in whole smallest units, rounded down.
  unfoldable pub discount_of : Coupon → (amount : ℕ) → Currency → ℕ
  discount_of coupon amount currency =
      let unit = minor_unit currency in
      let rounded : ℕ = elim coupon.type [
        | percent ↦ round.down (amount * coupon.value) (1_000_000 * unit) * unit
        | fixed ↦ round.down (min coupon.value amount) unit * unit
      ] in
      if ltb amount rounded then amount else rounded

  unfoldable pub apply_coupon : Coupon → (amount : ℕ) → Currency → Result CouponQuote
  apply_coupon coupon amount currency =
      let discount = discount_of coupon amount currency in
      let after = amount - discount in
      let unit = minor_unit currency in
      if leb after 0
      then err invalid_request
      else ok (record {
        coupon_id = coupon.id;
        discount = round.half_up discount unit * unit;
        amount_before = round.half_up amount unit * unit;
        amount_after = round.half_up after unit * unit;
      })

  unfoldable pub quote :
      (store_id : ℕ)
      → (code : Option ℕ) → (amount : ℕ) → Currency
      → (customer_id : Option ℕ) → (now : ℕ) → CouponDb
      → Result CouponQuote
  quote store_id none amount currency customer_id now db = err invalid_request
  quote store_id (some code) amount currency customer_id now db =
      elim (find_code store_id code db.coupons) [
        | none ↦ err invalid_request
        | some coupon ↦ do
          check_coupon coupon amount currency customer_id now db
          apply_coupon coupon amount currency
      ]

-- Whether the payment is in the unique index of the redemptions.
unfoldable pub is_counted : ℕ → List CouponRedemption → Bool
is_counted payment_id [] = false
is_counted payment_id (r ∷ rs) = (r.payment_id == payment_id) || is_counted payment_id rs

-- A coupon that is gone makes the update, and with it the transaction, fail; that is logged.
unfoldable pub on_paid : Payment → CouponDb → CouponDb
on_paid payment db = elim payment.coupon [
  | none ↦ db
  | some c ↦ elim (lookup c.id db.coupons) [
    | none ↦ db
    | some row ↦
        let redemption : CouponRedemption = record {
          coupon_id = c.id;
          customer_id = payment.customer_id;
          payment_id = payment.id;
          amount_before = c.amount_before;
          discount = c.discount;
          amount_after = payment.amount;
        } in
        if is_counted payment.id db.redemptions then db else (record db {
          coupons =
              insert c.id (record row { redemption_count = row.redemption_count + 1 }) db.coupons;
          redemptions = redemption ∷ db.redemptions;
        })
  ]
]
