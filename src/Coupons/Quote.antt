-- ===== src/Coupons/Quote.antt =====
-- What a quote promises (`quote` of apps/api/src/coupons/coupons.module.ts).
use pay_kh.Prelude.{
  ℕ, ◌+◌, ◌-◌, ◌*◌, ◌≤◌, ◌<◌, ◌≡◌, refl, ◌⊎◌, min, inl, inr, true, false, Option, none, some, ok,
  arith, ap, sym, ◌∙◌, ltb, Bool-cases, Option-cases, ◌≢◌,
}
use pay_kh.Types.{Currency, usd, khr}
use pay_kh.Decimal.{Rounding, half_up_exact}
use pay_kh.Coupons.{
  Coupon, CouponType, percent, fixed, CouponDb, CouponQuote, minor_unit, check_coupon, discount_of,
  apply_coupon, quote, find_code,
}

-- The most that a coupon takes off, against a discount: `value` at most, or its percentage.
abbrev pub IsWithin : CouponType → (value amount discount : ℕ) → Type 0
IsWithin percent value amount discount = discount * 1_000_000 ≤ amount * value
IsWithin fixed value amount discount = discount ≤ value

CouponType-cases : (t : CouponType) → (t ≡ percent) ⊎ (t ≡ fixed)
CouponType-cases percent = inl refl
CouponType-cases fixed = inr refl

-- A discount is a whole number of smallest units, within the amount and what the coupon gives.
percent_usd :
    (round : Rounding) (coupon : Coupon) (n : ℕ)
    → coupon.type ≡ percent
    → (d : ℕ) × (discount_of round coupon (n * 100) usd ≡ d * 100)
      × (d ≤ n)
      × (d * 100 * 1_000_000 ≤ n * 100 * coupon.value)
unfolding discount_of
percent_usd round coupon n is_percent =
    let d = round.down (n * 100 * coupon.value) (1_000_000 * 100) in
    let (low, high) = round.down_floor (n * 100 * coupon.value) (1_000_000 * 100) (omega arith) in
    elim (Bool-cases (ltb (n * 100) (d * 100))) [
      | inl over ↦ (n, rw (is_percent, over) refl, omega arith, ground arith)
      | inr under ↦ (d, rw (is_percent, under) refl, ground arith, ground arith)
    ]

percent_khr :
    (round : Rounding) (coupon : Coupon) (n : ℕ)
    → coupon.type ≡ percent
    → (d : ℕ) × (discount_of round coupon (n * 10_000) khr ≡ d * 10_000)
      × (d ≤ n)
      × (d * 10_000 * 1_000_000 ≤ n * 10_000 * coupon.value)
unfolding discount_of
percent_khr round coupon n is_percent =
    let d = round.down (n * 10_000 * coupon.value) (1_000_000 * 10_000) in
    let (low, high) =
      round.down_floor (n * 10_000 * coupon.value) (1_000_000 * 10_000) (omega arith) in
    elim (Bool-cases (ltb (n * 10_000) (d * 10_000))) [
      | inl over ↦ (n, rw (is_percent, over) refl, omega arith, ground arith)
      | inr under ↦ (d, rw (is_percent, under) refl, ground arith, ground arith)
    ]

fixed_discount :
    (round : Rounding) (coupon : Coupon) (n : ℕ) (currency : Currency)
    → coupon.type ≡ fixed
    → let unit = minor_unit currency in
      (d : ℕ) × (discount_of round coupon (n * unit) currency ≡ d * unit)
      × (d ≤ n)
      × (d * unit ≤ coupon.value)
unfolding discount_of
fixed_discount round coupon n usd is_fixed =
    let d = round.down (min coupon.value (n * 100)) 100 in
    let (low, high) = round.down_floor (min coupon.value (n * 100)) 100 (omega arith) in
    let under : ltb (n * 100) (d * 100) ≡ false = ground arith in
    (d, rw (is_fixed, under) refl, omega arith, omega arith)
fixed_discount round coupon n khr is_fixed =
    let d = round.down (min coupon.value (n * 10_000)) 10_000 in
    let (low, high) = round.down_floor (min coupon.value (n * 10_000)) 10_000 (omega arith) in
    let under : ltb (n * 10_000) (d * 10_000) ≡ false = ground arith in
    (d, rw (is_fixed, under) refl, omega arith, omega arith)

-- The three together, with the bound in terms of the coupon's type.
whole_discount :
    (round : Rounding) (coupon : Coupon) (n : ℕ) (currency : Currency)
    → let unit = minor_unit currency in
      (d : ℕ) × (discount_of round coupon (n * unit) currency ≡ d * unit)
      × (d ≤ n)
      × IsWithin coupon.type coupon.value (n * unit) (d * unit)
whole_discount round coupon n usd = elim (CouponType-cases coupon.type) [
  | inl p ↦ let (d, e, le, w) = percent_usd round coupon n p in (d, e, le, rw p w)
  | inr f ↦ let (d, e, le, w) = fixed_discount round coupon n usd f in (d, e, le, rw f w)
]
whole_discount round coupon n khr = elim (CouponType-cases coupon.type) [
  | inl p ↦ let (d, e, le, w) = percent_khr round coupon n p in (d, e, le, rw p w)
  | inr f ↦ let (d, e, le, w) = fixed_discount round coupon n khr f in (d, e, le, rw f w)
]

-- What a quote offers for an order: the discount and the rest make up the order, something is left
-- to pay, and the discount is within what the coupon gives.
pub record IsOffer (coupon : Coupon) (amount : ℕ) (q : CouponQuote) : Type 0 where
  pub before : q.amount_before ≡ amount
  pub complete : q.discount + q.amount_after ≡ amount
  pub payable : 0 < q.amount_after
  pub within : IsWithin coupon.type coupon.value amount q.discount

apply_parts :
    (round : Rounding) (coupon : Coupon) (amount : ℕ) (currency : Currency) {q : CouponQuote}
    → apply_coupon round coupon amount currency ≡ ok q
    → let unit = minor_unit currency in
      let d = discount_of round coupon amount currency in
      (0 < amount - d)
      × (q.discount ≡ round.half_up d unit * unit)
      × (q.amount_before ≡ round.half_up amount unit * unit)
      × (q.amount_after ≡ round.half_up (amount - d) unit * unit)
unfolding apply_coupon
apply_parts round coupon amount currency h = ground arith

-- A number of whole units is printed as it is.
printed :
    (round : Rounding) (currency : Currency) (v k : ℕ)
    → v ≡ k * minor_unit currency
    → round.half_up v (minor_unit currency) * minor_unit currency ≡ v
printed round usd v k e =
    ap (λ t. round.half_up t 100 * 100) e
    ∙ ap (λ t. t * 100) (half_up_exact round k 100 (omega arith))
    ∙ sym e
printed round khr v k e =
    ap (λ t. round.half_up t 10_000 * 10_000) e
    ∙ ap (λ t. t * 10_000) (half_up_exact round k 10_000 (omega arith))
    ∙ sym e

rest_whole :
    (currency : Currency) (n d : ℕ)
    → d ≤ n
    → n * minor_unit currency - d * minor_unit currency ≡ (n - d) * minor_unit currency
rest_whole usd n d h = omega arith
rest_whole khr n d h = omega arith

le_units :
    (currency : Currency) (n d : ℕ) → d ≤ n → d * minor_unit currency ≤ n * minor_unit currency
le_units usd n d h = omega arith
le_units khr n d h = omega arith

offered :
    (round : Rounding) (coupon : Coupon) (n : ℕ) (currency : Currency) {q : CouponQuote}
    → apply_coupon round coupon (n * minor_unit currency) currency ≡ ok q
    → IsOffer coupon (n * minor_unit currency) q
offered round coupon n currency {q} h =
    let amount = n * minor_unit currency in
    let (left, qd, qb, qa) = apply_parts round coupon amount currency h in
    let (d, e, le, w) = whole_discount round coupon n currency in
    let pd = printed round currency (discount_of round coupon amount currency) d e in
    let rest : amount - discount_of round coupon amount currency ≡ (n - d) * minor_unit currency =
      ap (λ t. amount - t) e ∙ rest_whole currency n d le in
    let pa =
      printed round currency (amount - discount_of round coupon amount currency) (n - d) rest in
    let is_d : q.discount ≡ d * minor_unit currency = qd ∙ pd ∙ e in
    let bound = le_units currency n d le in
    record {
      before = qb ∙ printed round currency amount n refl;
      complete = omega arith;
      payable = omega arith;
      within = rw is_d w;
    }

not_found :
    (round : Rounding) (store_id code amount : ℕ) (currency : Currency) (customer_id : Option ℕ)
    (now : ℕ) (db : CouponDb) {q : CouponQuote}
    → find_code store_id code db.coupons ≡ none
    → quote round store_id (some code) amount currency customer_id now db ≢ ok q
unfolding quote
not_found round store_id code amount currency customer_id now db missing h = ground arith

found_parts :
    (round : Rounding) (store_id code amount : ℕ) (currency : Currency) (customer_id : Option ℕ)
    (now : ℕ) (db : CouponDb) (coupon : Coupon) {q : CouponQuote}
    → find_code store_id code db.coupons ≡ some coupon
    → quote round store_id (some code) amount currency customer_id now db ≡ ok q
    → (check_coupon coupon amount currency customer_id now db ≡ ok tt)
      × (apply_coupon round coupon amount currency ≡ ok q)
unfolding quote
found_parts round store_id code amount currency customer_id now db coupon found h = ground arith

check_parts :
    (coupon : Coupon) (amount : ℕ) (currency : Currency) (customer_id : Option ℕ) (now : ℕ)
    (db : CouponDb)
    → check_coupon coupon amount currency customer_id now db ≡ ok tt
    → (coupon.active ≡ true)
      × ((limit : ℕ) → coupon.max_redemptions ≡ some limit → coupon.redemption_count < limit)
      × ((t : ℕ) → coupon.starts_at ≡ some t → t ≤ now)
      × ((t : ℕ) → coupon.expires_at ≡ some t → now < t)
unfolding check_coupon
check_parts coupon amount currency customer_id now db h =
    (ground arith, λ limit e. ground arith, λ t e. ground arith, λ t e. ground arith)

-- A quote that succeeds for an order in whole smallest units is for the store's coupon with that
-- code, which is active, has redemptions left and started and unexpired dates; it splits the order
-- exactly, with something left to pay and a discount within what the coupon gives.
pub quote-IsOffer :
    (round : Rounding) (store_id code n : ℕ) (currency : Currency) (customer_id : Option ℕ)
    (now : ℕ) (db : CouponDb) {q : CouponQuote}
    → quote round store_id (some code) (n * minor_unit currency) currency customer_id now db ≡ ok q
    → (coupon : Coupon) × (find_code store_id code db.coupons ≡ some coupon)
      × (coupon.active ≡ true)
      × ((limit : ℕ) → coupon.max_redemptions ≡ some limit → coupon.redemption_count < limit)
      × ((t : ℕ) → coupon.starts_at ≡ some t → t ≤ now)
      × ((t : ℕ) → coupon.expires_at ≡ some t → now < t)
      × IsOffer coupon (n * minor_unit currency) q
quote-IsOffer round store_id code n currency customer_id now db h =
    let amount = n * minor_unit currency in
    elim (Option-cases (find_code store_id code db.coupons)) [
      | inl missing ↦
          absurd (not_found round store_id code amount currency customer_id now db missing h)
      | inr (coupon, found) ↦
          let (checked, applied) =
            found_parts round store_id code amount currency customer_id now db coupon found h in
          let (active, limit, starts, expires) =
            check_parts coupon amount currency customer_id now db checked in
          (coupon, found, active, limit, starts, expires, offered round coupon n currency applied)
    ]

-- The rest is in whole smallest units.
pub quote-whole :
    (round : Rounding) (store_id code amount : ℕ) (currency : Currency) (customer_id : Option ℕ)
    (now : ℕ) (db : CouponDb) {q : CouponQuote}
    → quote round store_id (some code) amount currency customer_id now db ≡ ok q
    → (m : ℕ) × (q.amount_after ≡ m * minor_unit currency)
quote-whole round store_id code amount currency customer_id now db h =
    elim (Option-cases (find_code store_id code db.coupons)) [
      | inl missing ↦
          absurd (not_found round store_id code amount currency customer_id now db missing h)
      | inr (coupon, found) ↦
          let (_, applied) =
            found_parts round store_id code amount currency customer_id now db coupon found h in
          let (_, _, _, rest) = apply_parts round coupon amount currency applied in
          (
            round.half_up (amount - discount_of round coupon amount currency) (minor_unit currency),
            rest,
          )
    ]
