-- ===== src/Coupons/Redeem.antt =====
-- Counting the redemptions (`onPaid` of apps/api/src/coupons/coupons.module.ts).
use pay_kh.Prelude.{
  ℕ, ◌+◌, ◌<◌, ◌≤◌, [], ◌≡◌, ◌≢◌, refl, ap, sym, ◌∙◌, inl, inr, true, false, some, List, ◌∷◌, arith,
  ◌==◌, if◌then◌else◌, ==_iff, ==_refl, lookup, insert, lookup-insert, lookup-insert_self,
  Option-cases, Bool-cases, sum_by,
}
use pay_kh.Payments.{Payment, CouponSnapshot}
use pay_kh.Coupons.{Coupon, CouponRedemption, CouponDb, is_counted, on_paid}

-- How often a coupon was redeemed, by the rows.
abbrev pub redeemed_times : ℕ → List CouponRedemption → ℕ
redeemed_times id = sum_by (λ r. if r.coupon_id == id then 1 else 0)

-- The count of each coupon is the number of its redemptions.
abbrev pub IsTallied : CouponDb → Type 0
IsTallied db =
    (id : ℕ) (c : Coupon)
    → lookup id db.coupons ≡ some c
    → c.redemption_count ≡ redeemed_times id db.redemptions

-- What a call does: nothing, or it counts one redemption of the coupon that it finds.
on_paid_counts :
    (payment : Payment) (c : CouponSnapshot) (row : Coupon) (db : CouponDb)
    → payment.coupon ≡ some c
    → lookup c.id db.coupons ≡ some row
    → is_counted payment.id db.redemptions ≡ false
    → (r : CouponRedemption) × (r.coupon_id ≡ c.id)
      × (r.payment_id ≡ payment.id)
      × (on_paid payment db ≡ record db {
        coupons =
            insert c.id (record row { redemption_count = row.redemption_count + 1 }) db.coupons;
        redemptions = r ∷ db.redemptions;
      })
unfolding on_paid
on_paid_counts payment c row db has found new = (
  record {
    coupon_id = c.id;
    customer_id = payment.customer_id;
    payment_id = payment.id;
    amount_before = c.amount_before;
    discount = c.discount;
    amount_after = payment.amount;
  },
  refl,
  refl,
  ground arith,
)

on_paid_idle :
    (payment : Payment) (db : CouponDb)
    → ((c : CouponSnapshot) (row : Coupon)
        → payment.coupon ≡ some c
        → lookup c.id db.coupons ≡ some row
        → is_counted payment.id db.redemptions ≡ true)
    → on_paid payment db ≡ db
unfolding on_paid
on_paid_idle payment db h = elim (Option-cases payment.coupon) [
  | inl no_coupon ↦ ground arith
  | inr (c, has) ↦ elim (Option-cases (lookup c.id db.coupons)) [
    | inl missing ↦ ground arith
    | inr (row, found) ↦ let k = h c row has found in ground arith
  ]
]

count_one :
    (id : ℕ) (row : Coupon) (r : CouponRedemption) (db : CouponDb)
    → IsTallied db
    → lookup id db.coupons ≡ some row
    → r.coupon_id ≡ id
    → IsTallied (record db {
      coupons = insert id (record row { redemption_count = row.redemption_count + 1 }) db.coupons;
      redemptions = r ∷ db.redemptions;
    })
count_one id row r db h found rc j c at = elim (Bool-cases (id == j)) [
  | inl same ↦
      let row' : Coupon = record row { redemption_count = row.redemption_count + 1 } in
      let e : id ≡ j = (==_iff id j).0 same in
      let is_row : row' ≡ c = ground (arith, lookup-insert id j row' db.coupons) in
      let before = h id row found in
      let counted : c.redemption_count ≡ row.redemption_count + 1 =
        ap (λ x. x.redemption_count) (sym is_row) in
      let moved = ap (λ k. redeemed_times k db.redemptions) e in ground arith
  | inr other ↦
      let row' : Coupon = record row { redemption_count = row.redemption_count + 1 } in
      let before = h j c (ground (arith, lookup-insert id j row' db.coupons)) in ground arith
]

on_paid-IsTallied :
    (payment : Payment) (db : CouponDb) → IsTallied db → IsTallied (on_paid payment db)
on_paid-IsTallied payment db h = elim (Option-cases payment.coupon) [
  | inl no_coupon ↦ idle (λ c row has found. absurd (ground arith))
  | inr (c, has) ↦ elim (Option-cases (lookup c.id db.coupons)) [
    | inl missing ↦ idle (λ c' row has' found. absurd (ground arith))
    | inr (row, found) ↦ elim (Bool-cases (is_counted payment.id db.redemptions)) [
      | inl counted ↦ idle (λ c' row' has' found'. counted)
      | inr new ↦
          let (r, rc, rp, e) = on_paid_counts payment c row db has found new in
          rw e (count_one c.id row r db h found rc)
    ]
  ]
]
  where
    idle :
        ((c : CouponSnapshot) (row : Coupon)
          → payment.coupon ≡ some c
          → lookup c.id db.coupons ≡ some row
          → is_counted payment.id db.redemptions ≡ true)
        → IsTallied (on_paid payment db)
    idle k = rw (on_paid_idle payment db k) h

is_counted_self :
    (r : CouponRedemption) (rs : List CouponRedemption) → is_counted r.payment_id (r ∷ rs) ≡ true
unfolding is_counted
is_counted_self r rs = ground (arith, ==_refl r.payment_id)

is_counted_other :
    (r : CouponRedemption) (payment_id : ℕ) (rs : List CouponRedemption)
    → r.payment_id ≢ payment_id
    → is_counted payment_id (r ∷ rs) ≡ is_counted payment_id rs
unfolding is_counted
is_counted_other r payment_id rs ne = ground arith

-- A capture that is announced again is not counted again.
pub recount_changes_nothing :
    (payment : Payment) (db : CouponDb) → on_paid payment (on_paid payment db) ≡ on_paid payment db
recount_changes_nothing payment db = elim (Option-cases payment.coupon) [
  | inl no_coupon ↦ idle (λ c row has found. absurd (ground arith))
  | inr (c, has) ↦ elim (Option-cases (lookup c.id db.coupons)) [
    | inl missing ↦ idle (λ c' row has' found. absurd (ground arith))
    | inr (row, found) ↦ elim (Bool-cases (is_counted payment.id db.redemptions)) [
      | inl counted ↦ idle (λ c' row' has' found'. counted)
      | inr new ↦
          let (r, rc, rp, e) = on_paid_counts payment c row db has found new in
          on_paid_idle payment (on_paid payment db)
            (λ c' row' has' found'. rw (e, ← rp) (is_counted_self r db.redemptions))
    ]
  ]
]
  where
    idle :
        ((c : CouponSnapshot) (row : Coupon)
          → payment.coupon ≡ some c
          → lookup c.id db.coupons ≡ some row
          → is_counted payment.id db.redemptions ≡ true)
        → on_paid payment (on_paid payment db) ≡ on_paid payment db
    idle k = ap (on_paid payment) (on_paid_idle payment db k)

-- How many redemptions a payment has.
abbrev pub rows_of : ℕ → List CouponRedemption → ℕ
rows_of payment_id = sum_by (λ r. if r.payment_id == payment_id then 1 else 0)

-- No payment is counted twice.
abbrev pub IsOnce : List CouponRedemption → Type 0
IsOnce rs = (payment_id : ℕ) → rows_of payment_id rs ≤ 1

uncounted :
    (payment_id : ℕ) (rs : List CouponRedemption)
    → is_counted payment_id rs ≡ false
    → rows_of payment_id rs ≡ 0
unfolding is_counted
uncounted payment_id [] h = refl
uncounted payment_id (r ∷ rs) h =
    let rest : is_counted payment_id rs ≡ false = ground arith in
    let ih = uncounted payment_id rs rest in ground arith

on_paid-IsOnce :
    (payment : Payment) (db : CouponDb)
    → IsOnce db.redemptions
    → IsOnce (on_paid payment db).redemptions
on_paid-IsOnce payment db once = elim (Option-cases payment.coupon) [
  | inl no_coupon ↦ idle (λ c row has found. absurd (ground arith))
  | inr (c, has) ↦ elim (Option-cases (lookup c.id db.coupons)) [
    | inl missing ↦ idle (λ c' row has' found. absurd (ground arith))
    | inr (row, found) ↦ elim (Bool-cases (is_counted payment.id db.redemptions)) [
      | inl counted ↦ idle (λ c' row' has' found'. counted)
      | inr new ↦
          let (r, rc, rp, e) = on_paid_counts payment c row db has found new in
          let free = uncounted payment.id db.redemptions new in
          rw e (λ id. elim (Bool-cases (r.payment_id == id)) [
            | inl same ↦
                let is_id : payment.id ≡ id = sym rp ∙ (==_iff r.payment_id id).0 same in
                let none_yet = sym (ap (λ k. rows_of k db.redemptions) is_id) ∙ free in ground arith
            | inr other ↦ let before = once id in ground arith
          ])
    ]
  ]
]
  where
    idle :
        ((c : CouponSnapshot) (row : Coupon)
          → payment.coupon ≡ some c
          → lookup c.id db.coupons ≡ some row
          → is_counted payment.id db.redemptions ≡ true)
        → IsOnce (on_paid payment db).redemptions
    idle k = rw (on_paid_idle payment db k) once

-- Captures as they are announced, any of them any number of times.
unfoldable pub on_paid_all : List Payment → CouponDb → CouponDb
on_paid_all [] db = db
on_paid_all (p ∷ ps) db = on_paid_all ps (on_paid p db)

-- Captures, announced any number of times in any order, are counted at most once each: no payment
-- gets a second redemption, and the count of every coupon stays the number of its redemptions.
pub on_paid_all-IsTallied :
    (payments : List Payment) (db : CouponDb)
    → IsTallied db
    → IsOnce db.redemptions
    → IsTallied (on_paid_all payments db) × IsOnce (on_paid_all payments db).redemptions
unfolding on_paid_all
on_paid_all-IsTallied [] db tallied once = (tallied, once)
on_paid_all-IsTallied (p ∷ ps) db tallied once =
    on_paid_all-IsTallied ps (on_paid p db) (on_paid-IsTallied p db tallied)
      (on_paid-IsOnce p db once)

-- A limit on the redemptions holds when a coupon is quoted, not when it is counted: of two payments
-- that were quoted while one redemption was left, both are counted once they are captured.
pub limit_is_exceeded :
    (p p' : Payment) (c c' : CouponSnapshot) (row : Coupon) (limit : ℕ) (db : CouponDb)
    → p.coupon ≡ some c
    → p'.coupon ≡ some c'
    → c'.id ≡ c.id
    → p.id ≢ p'.id
    → lookup c.id db.coupons ≡ some row
    → row.max_redemptions ≡ some limit
    → row.redemption_count + 1 ≡ limit
    → is_counted p.id db.redemptions ≡ false
    → is_counted p'.id db.redemptions ≡ false
    → (after : Coupon) × (lookup c.id (on_paid p' (on_paid p db)).coupons ≡ some after)
      × (after.max_redemptions ≡ some limit)
      × (limit < after.redemption_count)
limit_is_exceeded p p' c c' row limit db has has' same ne found limited one_left new new' =
    let (r, rc, rp, e) = on_paid_counts p c row db has found new in
    let row1 : Coupon = record row { redemption_count = row.redemption_count + 1 } in
    let db1 : CouponDb = record db {
      coupons = insert c.id row1 db.coupons;
      redemptions = r ∷ db.redemptions;
    } in
    let (r', rc', rp', e') =
      on_paid_counts p' c' row1 db1 has' (rw same (lookup-insert_self c.id row1 db.coupons))
        (is_counted_other r p'.id db.redemptions (λ e. ground arith) ∙ new') in
    let row2 : Coupon = record row1 { redemption_count = row1.redemption_count + 1 } in
    (
      row2,
      ap (λ d. lookup c.id (on_paid p' d).coupons) e
          ∙ ap (λ d. lookup c.id d.coupons) e'
          ∙ rw same (lookup-insert_self c.id row2 db1.coupons),
      limited,
      omega arith,
    )
