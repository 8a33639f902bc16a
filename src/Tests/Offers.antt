-- ===== src/Tests/Offers.antt =====
-- Coupons at concrete inputs.
use pay_kh.Prelude.{
  List, ℕ, ◌*◌, ◌≤◌, ◌<◌, ◌≡◌, refl, true, false, none, some, [], ◌∷◌, arith, lookup,
}
use pay_kh.Decimal.{rounding}
use pay_kh.Types.{usd}
use pay_kh.Payments.{Payment, CouponSnapshot}
use pay_kh.Coupons.{
  Coupon, percent, CouponDb, CouponQuote, minor_unit, find_code, check_coupon, discount_of,
  apply_coupon, quote, is_counted, on_paid,
}
use pay_kh.Coupons.Quote.{IsOffer, quote-IsOffer}
use pay_kh.Coupons.Redeem.{
  IsTallied, IsOnce, on_paid_all, on_paid_all-IsTallied, recount_changes_nothing, limit_is_exceeded,
}
use pay_kh.Tests.Payments.{ten_dollars}

-- Ten percent off, once.
abbrev tenth_off : Coupon
tenth_off = record {
  id = 5;
  store_id = 7;
  code = 99;
  type = percent;
  value = 100_000;
  currency = none;
  min_spend = none;
  max_redemptions = some 1;
  per_customer_limit = none;
  first_order_only = false;
  redemption_count = 0;
  active = true;
  starts_at = none;
  expires_at = none;
}

abbrev one_coupon : CouponDb
one_coupon = record { coupons = (5, tenth_off) ∷ []; redemptions = []; payments = [] }

abbrev one_dollar_off : CouponQuote
one_dollar_off = record {
  coupon_id = 5;
  discount = 10_000;
  amount_before = 100_000;
  amount_after = 90_000;
}

quote-IsOffer_example :
    (coupon : Coupon) × (find_code 7 99 one_coupon.coupons ≡ some coupon)
    × (coupon.active ≡ true)
    × ((limit : ℕ) → coupon.max_redemptions ≡ some limit → coupon.redemption_count < limit)
    × ((t : ℕ) → coupon.starts_at ≡ some t → t ≤ 0)
    × ((t : ℕ) → coupon.expires_at ≡ some t → 0 < t)
    × IsOffer coupon (1000 * minor_unit usd) one_dollar_off
unfolding quote find_code check_coupon apply_coupon discount_of
quote-IsOffer_example =
    quote-IsOffer rounding 7 99 1000 usd none 0 one_coupon {q = one_dollar_off} refl

abbrev snapshot : CouponSnapshot
snapshot = record { id = 5; discount = 10_000; amount_before = 100_000 }

abbrev order : ℕ → Payment
order id = record ten_dollars { id = id; amount = 90_000; coupon = some snapshot }

one_coupon-IsTallied : IsTallied one_coupon
unfolding lookup
one_coupon-IsTallied id c h = ground arith

abbrev announcements : List Payment
announcements = order 1 ∷ order 2 ∷ order 1 ∷ []

on_paid_all-IsTallied_example :
    IsTallied (on_paid_all announcements one_coupon)
    × IsOnce (on_paid_all announcements one_coupon).redemptions
on_paid_all-IsTallied_example =
    on_paid_all-IsTallied announcements one_coupon one_coupon-IsTallied (λ id. omega arith)

recount_changes_nothing_run :
    on_paid (order 1) (on_paid (order 1) one_coupon) ≡ on_paid (order 1) one_coupon
recount_changes_nothing_run = recount_changes_nothing (order 1) one_coupon

limit_is_exceeded_example :
    (after : Coupon) × (lookup 5 (on_paid (order 2) (on_paid (order 1) one_coupon)).coupons
      ≡ some after)
    × (after.max_redemptions ≡ some 1)
    × (1 < after.redemption_count)
unfolding lookup is_counted
limit_is_exceeded_example =
    limit_is_exceeded (order 1) (order 2) snapshot snapshot tenth_off 1 one_coupon refl refl refl
      (λ e. omega arith) refl refl refl refl refl
