-- ===== src/Loyalty/Expiry.antt =====
-- Earning and the expiry of points (`awardForPayment`, `computeTierId`, `expireForStore`,
-- `atRiskBefore`, `expireCustomer` of apps/api/src/loyalty/loyalty.service.ts).
use pay_kh.Prelude.{
  ℕ, suc, ◌+◌, ◌-◌, ◌≤◌, min, Bool, false, not, ◌&&◌, ◌||◌, Option, none, some, List, [], ◌∷◌,
  Result, ok, err, ◌>>=◌, leb, ltb, ◌==◌, if◌then◌else◌, Table, lookup, sum_by, arith, is_some_eq,
}
use pay_kh.Prelude.Int.{pos, pos_part, neg_part}
use pay_kh.Decimal.{Rounding}
use pay_kh.Payments.{Payment}
use pay_kh.Ledger.Points.{earn, expire, is_positive}
use pay_kh.Loyalty.{
  Customer, PointsTransaction, LoyaltyProgram, LoyaltyTier, LoyaltyDb, negated, move_points,
}

-- `atRiskBefore`
abbrev pub earned_before : (cutoff : ℕ) → List PointsTransaction → ℕ
earned_before cutoff txns =
    sum_by (λ t. if is_positive t.points && ltb t.created_at cutoff then pos_part t.points else 0)
      txns

abbrev pub consumed : List PointsTransaction → ℕ
consumed txns = sum_by (λ t. neg_part t.points) txns

unfoldable pub at_risk_before : List PointsTransaction → (balance cutoff : ℕ) → ℕ
at_risk_before txns balance cutoff = min (earned_before cutoff txns - consumed txns) balance

-- `where: { customerId }`
abbrev pub log_of : ℕ → List PointsTransaction → List PointsTransaction
log_of id [] = []
log_of id (t ∷ ts) = if t.customer_id == id then t ∷ log_of id ts else log_of id ts

-- `computeTierId`: the first of the highest threshold that the points reach.
abbrev pub better_tier : LoyaltyTier → Option LoyaltyTier → LoyaltyTier
better_tier t none = t
better_tier t (some u) = if ltb t.threshold u.threshold then u else t

unfoldable pub highest_tier : List LoyaltyTier → (lifetime_points : ℕ) → Option LoyaltyTier
highest_tier [] lifetime_points = none
highest_tier (t ∷ ts) lifetime_points =
    if leb t.threshold lifetime_points
    then some (better_tier t (highest_tier ts lifetime_points))
    else highest_tier ts lifetime_points

abbrev pub compute_tier_id : List LoyaltyTier → (lifetime_points : ℕ) → Option ℕ
compute_tier_id tiers lifetime_points = elim (highest_tier tiers lifetime_points) [
  | none ↦ none
  | some t ↦ some t.id
]

abbrev pub tier_of : List LoyaltyTier → Option ℕ → Option LoyaltyTier
tier_of tiers none = none
tier_of [] (some id) = none
tier_of (t ∷ ts) (some id) = if t.id == id then some t else tier_of ts (some id)

abbrev pub times_tier : (floor_product : ℕ → ℕ → ℕ) → (base : ℕ) → Option LoyaltyTier → ℕ
times_tier floor_product base none = base
times_tier floor_product base (some t) = floor_product base t.earn_multiplier

abbrev pub was_earned : (payment_id : ℕ) → List PointsTransaction → Bool
was_earned payment_id [] = false
was_earned payment_id (t ∷ ts) =
    (elim t.type [ earn ↦ is_some_eq t.payment_id payment_id | _ ↦ false ])
    || was_earned payment_id ts

module _ (round : Rounding) (now : ℕ) where
  -- `expireCustomer`
  unfoldable pub expire_customer :
      (customer_id cutoff txn_id : ℕ) → LoyaltyDb → Result (ℕ × LoyaltyDb)
  expire_customer customer_id cutoff txn_id db = elim (lookup customer_id db.customers) [
    | none ↦ ok (0, db)
    | some customer ↦
        let expirable =
          at_risk_before (log_of customer_id db.txns) customer.points_balance cutoff in
        let written : Customer = record customer {
          points_balance = customer.points_balance - expirable;
        } in
        if customer.points_balance == 0
        then ok (0, db)
        else if expirable == 0
        then ok (0, db)
        else do
          db' ←
              move_points round now expire expire txn_id customer.store_id none (negated expirable)
                written db
          ok (expirable, db')
  ]

  -- `expireForStore`: the customers that were found, each in a transaction of its own; one that
  -- fails is passed over. The ids of the transactions count up.
  unfoldable pub expire_each : (cutoff : ℕ) → List ℕ → (txn_id : ℕ) → LoyaltyDb → ℕ × ℕ × LoyaltyDb
  expire_each cutoff [] txn_id db = (0, 0, db)
  expire_each cutoff (id ∷ ids) txn_id db =
      let step : ℕ × LoyaltyDb = elim (expire_customer id cutoff txn_id db) [
        | err e ↦ (0, db)
        | ok r ↦ r
      ] in
      let (touched, points, db') = expire_each cutoff ids (suc txn_id) step.1 in
      ((if ltb 0 step.0 then suc touched else touched), step.0 + points, db')

  abbrev pub holders : (store_id : ℕ) → Table Customer → List ℕ
  holders store_id [] = []
  holders store_id ((id, c) ∷ cs) =
      if (c.store_id == store_id) && ltb 0 c.points_balance
      then id ∷ holders store_id cs
      else holders store_id cs

  -- `months_before` is the clock set back by a number of months.
  unfoldable pub expire_for_store :
      (months_before : ℕ → ℕ)
      → Option LoyaltyProgram
      → (store_id txn_id : ℕ) → LoyaltyDb
      → ℕ × ℕ × LoyaltyDb
  expire_for_store months_before none store_id txn_id db = (0, 0, db)
  expire_for_store months_before (some program) store_id txn_id db = elim program.expiry_months [
    | none ↦ (0, 0, db)
    | some months ↦
        if not program.active || (months == 0)
        then (0, 0, db)
        else expire_each (months_before months) (holders store_id db.customers) txn_id db
  ]

  -- `awardForPayment`, from the customer that it read on. `floor_product` is
  -- `Math.floor(Number(a) * Number(b))`.
  unfoldable pub award_from :
      (floor_product : ℕ → ℕ → ℕ)
      → LoyaltyProgram
      → List LoyaltyTier
      → Payment
      → Customer
      → (txn_id : ℕ) → LoyaltyDb
      → Result LoyaltyDb
  award_from floor_product program tiers payment customer txn_id db =
      let base = floor_product payment.amount program.points_per_unit in
      let earned = times_tier floor_product base (tier_of tiers customer.tier_id) in
      let new_lifetime = customer.lifetime_points + earned in
      let written : Customer = record customer {
        points_balance = customer.points_balance + earned;
        lifetime_points = new_lifetime;
        tier_id = compute_tier_id tiers new_lifetime;
      } in
      if not program.active || (base == 0) || was_earned payment.id db.txns || (earned == 0)
      then ok db
      else move_points round now earn earn txn_id payment.store_id (some payment.id) (pos earned)
          written db

  unfoldable pub award_for_payment :
      (floor_product : ℕ → ℕ → ℕ)
      → Option LoyaltyProgram
      → List LoyaltyTier
      → Payment
      → (txn_id : ℕ) → LoyaltyDb
      → Result LoyaltyDb
  award_for_payment floor_product none tiers payment txn_id db = ok db
  award_for_payment floor_product (some program) tiers payment txn_id db =
      elim payment.customer_id [
        | none ↦ ok db
        | some customer_id ↦ elim (lookup customer_id db.customers) [
          | none ↦ ok db
          | some customer ↦ award_from floor_product program tiers payment customer txn_id db
        ]
      ]

-- The warning and the expiry use one rule: what expires by a later cutoff includes what expires by
-- an earlier one, and it is never more than the balance.
pub at_risk_before_le :
    (txns : List PointsTransaction) (balance cutoff : ℕ)
    → at_risk_before txns balance cutoff ≤ balance
unfolding at_risk_before
at_risk_before_le txns balance cutoff = ground arith
