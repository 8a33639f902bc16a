-- ===== src/Loyalty/Movement.antt =====
-- Each operation on points keeps the balance, the log and the ledger in agreement
-- (apps/api/src/loyalty/loyalty.service.ts with apps/api/src/ledger/ledger.service.ts).
use pay_kh.Prelude.{
  ℕ, ◌+◌, ◌-◌, ◌≡◌, ◌≤◌, refl, sym, ap, ◌∙◌, inl, inr, Bool, not, ◌||◌, Option, none, some, List,
  Result, ok, arith, ◌==◌, if◌then◌else◌, lookup, Bool-cases, Option-cases, Result-cases,
}
use pay_kh.Prelude.Int.{ℤ, pos, pos_part, ◌+ℤ◌}
use pay_kh.Access.{Caller}
use pay_kh.Decimal.{Rounding}
use pay_kh.Payments.{Payment}
use pay_kh.Ledger.Points.{MovementType, earn, redeem, adjust, expire, redeem_reversal}
use pay_kh.Loyalty.{
  Customer, LoyaltyProgram, LoyaltyTier, LoyaltyDb, negated, move_points, mutate_from, mutate_in,
  redeem_from, redeem_reward, refund_points, cancel_from, cancel, fulfill,
}
use pay_kh.Loyalty.Reconciled.{
  IsReconciled, IsFresh, Follows, IsReconciled-rewards, move_points-IsReconciled,
}
use pay_kh.Loyalty.Expiry.{
  at_risk_before, log_of, expire_customer, award_from, award_for_payment, at_risk_before_le,
  times_tier, tier_of, was_earned, compute_tier_id,
}

pub spend_points : (balance n : ℕ) → n ≤ balance → pos (balance - n) ≡ pos balance +ℤ negated n
unfolding ◌+ℤ◌
spend_points balance n le = ground arith

pub gain_points : (balance n : ℕ) → pos (balance + n) ≡ pos balance +ℤ pos n
unfolding ◌+ℤ◌
gain_points balance n = ground arith

module _ (db : LoyaltyDb) (before : IsReconciled db) where
  -- A row written in place of the row that was read.
  Follows-of :
      (customer_id : ℕ) (seen : Customer) (delta : ℤ) (written : Customer)
      → lookup customer_id db.customers ≡ some seen
      → written.id ≡ seen.id
      → pos written.points_balance ≡ pos seen.points_balance +ℤ delta
      → Follows delta written db
  Follows-of customer_id seen delta written found same moved =
      let key = same ∙ (before customer_id seen found).keyed in
      record { seen = seen; reads = rw key found; moved = moved }

module _ (round : Rounding) (now txn_id : ℕ) (db : LoyaltyDb) {db' : LoyaltyDb}
    (before : IsReconciled db) (fresh : IsFresh txn_id db) where
  unchanged : db ≡ db' → IsReconciled db'
  unchanged same = rw (← same) before

  mutate_in-IsReconciled :
      (store_id customer_id : ℕ) (type : MovementType) (delta : ℤ) {balance : ℕ}
      → mutate_in round now store_id customer_id type delta txn_id db ≡ ok (balance, db')
      → IsReconciled db'
  unfolding mutate_in mutate_from
  mutate_in-IsReconciled store_id customer_id type delta h =
      elim (Option-cases (lookup customer_id db.customers)) [
        | inl missing ↦ absurd (ground arith)
        | inr (c, found) ↦
            let new_balance = pos c.points_balance +ℤ delta in
            let written : Customer = record c { points_balance = pos_part new_balance } in
            let there : lookup c.id db.customers ≡ some c =
              ap (λ k. lookup k db.customers) (before customer_id c found).keyed ∙ found in
            elim (Result-cases
              (move_points round now type type txn_id c.store_id none delta written db)) [
                | inl (e, failed) ↦ absurd (ground arith)
                | inr (moved_db, moves) ↦
                    let written_db : moved_db ≡ db' = ground arith in
                    rw (← written_db) (
                      move_points-IsReconciled round now type type txn_id c.store_id none delta
                        written db before fresh moves
                        (Follows-of db before customer_id c delta written found refl
                          (ground arith)))
              ]
      ]

  redeem_reward-IsReconciled :
      (store_id customer_id reward_id redemption_id : ℕ)
      → redeem_reward round now store_id customer_id reward_id txn_id redemption_id db ≡ ok db'
      → IsReconciled db'
  unfolding redeem_reward redeem_from
  redeem_reward-IsReconciled store_id customer_id reward_id redemption_id h =
      elim (Option-cases (lookup reward_id db.rewards)) [
        | inl missing ↦ absurd (ground arith)
        | inr (reward, offered) ↦ elim (Option-cases (lookup customer_id db.customers)) [
          | inl missing ↦ absurd (ground arith)
          | inr (c, found) ↦
              let written : Customer = record c {
                points_balance = c.points_balance - reward.points_cost;
              } in
              elim (Result-cases (
                move_points round now redeem redeem txn_id reward.store_id none
                  (negated reward.points_cost) written db)) [
                    | inl (e, failed) ↦ absurd (ground arith)
                    | inr (moved_db, moves) ↦
                        IsReconciled-rewards moved_db db' (ground arith) (ground arith)
                          (ground arith)
                          (move_points-IsReconciled round now redeem redeem txn_id reward.store_id
                            none (negated reward.points_cost) written db before fresh moves
                            (Follows-of db before customer_id c (negated reward.points_cost) written
                              found refl
                              (spend_points c.points_balance reward.points_cost (ground arith))))
                  ]
        ]
      ]

  cancel-IsReconciled :
      (user : Caller) (redemption_id : ℕ)
      → cancel round now user redemption_id txn_id db ≡ ok db'
      → IsReconciled db'
  unfolding cancel cancel_from refund_points
  cancel-IsReconciled user redemption_id h =
      elim (Option-cases (lookup redemption_id db.redemptions)) [
        | inl missing ↦ absurd (ground arith)
        | inr (r, standing) ↦ elim (Option-cases (lookup r.customer_id db.customers)) [
          | inl missing ↦ absurd (ground arith)
          | inr (c, found) ↦
              let written : Customer = record c {
                points_balance = c.points_balance + r.points_spent;
              } in
              elim (Result-cases (
                move_points round now adjust redeem_reversal txn_id r.store_id none
                  (pos r.points_spent) written db)) [
                    | inl (e, failed) ↦ absurd (ground arith)
                    | inr (moved_db, moves) ↦
                        IsReconciled-rewards moved_db db' (ground arith) (ground arith)
                          (ground arith)
                          (move_points-IsReconciled round now adjust redeem_reversal txn_id
                            r.store_id none (pos r.points_spent) written db before fresh moves
                            (Follows-of db before r.customer_id c (pos r.points_spent) written found
                              refl (gain_points c.points_balance r.points_spent)))
                  ]
        ]
      ]

  expire_customer-IsReconciled :
      (customer_id cutoff : ℕ) {n : ℕ}
      → expire_customer round now customer_id cutoff txn_id db ≡ ok (n, db')
      → IsReconciled db'
  unfolding expire_customer
  expire_customer-IsReconciled customer_id cutoff h =
      elim (Option-cases (lookup customer_id db.customers)) [
        | inl missing ↦ unchanged (ground arith)
        | inr (c, found) ↦
            let n = at_risk_before (log_of customer_id db.txns) c.points_balance cutoff in
            let le = at_risk_before_le (log_of customer_id db.txns) c.points_balance cutoff in
            let written : Customer = record c { points_balance = c.points_balance - n } in
            elim (Result-cases
              (move_points round now expire expire txn_id c.store_id none (negated n) written db)) [
                | inl (e, failed) ↦ unchanged (ground arith)
                | inr (moved_db, moves) ↦ elim (Bool-cases ((c.points_balance == 0) || (n == 0))) [
                  | inl none_due ↦ unchanged (ground arith)
                  | inr due ↦
                      let same : moved_db ≡ db' = ground arith in
                      rw (← same) (
                        move_points-IsReconciled round now expire expire txn_id c.store_id none
                          (negated n) written db before fresh moves
                          (Follows-of db before customer_id c (negated n) written found refl
                            (spend_points c.points_balance n le)))
                ]
              ]
      ]

  award_from-IsReconciled :
      (floor_product : ℕ → ℕ → ℕ) (p : LoyaltyProgram) (tiers : List LoyaltyTier)
      (payment : Payment) (customer_id : ℕ) (c : Customer)
      → lookup customer_id db.customers ≡ some c
      → award_from round now floor_product p tiers payment c txn_id db ≡ ok db'
      → IsReconciled db'
  unfolding award_from
  award_from-IsReconciled floor_product p tiers payment customer_id c found h =
      let base = floor_product payment.amount p.points_per_unit in
      let earned = times_tier floor_product base (tier_of tiers c.tier_id) in
      let written : Customer = record c {
        points_balance = c.points_balance + earned;
        lifetime_points = c.lifetime_points + earned;
        tier_id = compute_tier_id tiers (c.lifetime_points + earned);
      } in
      let moved =
        move_points round now earn earn txn_id payment.store_id (some payment.id) (pos earned)
          written db in
      let chosen : Bool → Result LoyaltyDb = λ b. if b then ok db else moved in
      elim (Bool-cases
        (not p.active || (base == 0) || was_earned payment.id db.txns || (earned == 0))) [
          | inl no_points ↦ let same = sym (ap chosen no_points) ∙ h in unchanged (ground arith)
          | inr due ↦
              move_points-IsReconciled round now earn earn txn_id payment.store_id (some payment.id)
                (pos earned) written db before fresh (sym (ap chosen due) ∙ h)
                (Follows-of db before customer_id c (pos earned) written found refl
                  (gain_points c.points_balance earned))
        ]

  award_for_payment-IsReconciled :
      (floor_product : ℕ → ℕ → ℕ) (program : Option LoyaltyProgram) (tiers : List LoyaltyTier)
      (payment : Payment)
      → award_for_payment round now floor_product program tiers payment txn_id db ≡ ok db'
      → IsReconciled db'
  unfolding award_for_payment
  award_for_payment-IsReconciled floor_product none tiers payment h = unchanged (ground arith)
  award_for_payment-IsReconciled floor_product (some p) tiers payment h =
      elim (Option-cases payment.customer_id) [
        | inl no_customer ↦ unchanged (ground arith)
        | inr (customer_id, known) ↦ elim (Option-cases (lookup customer_id db.customers)) [
          | inl missing ↦ unchanged (ground arith)
          | inr (c, found) ↦
              award_from-IsReconciled floor_product p tiers payment customer_id c found
                (ground arith)
        ]
      ]

-- One operation that commits, run alone, under an id that is new where it moves points. The clock
-- differs from step to step.
pub data Step (round : Rounding) : LoyaltyDb → LoyaltyDb → Type 0 where
  mutated :
      {db db' : LoyaltyDb} {balance : ℕ} (now txn_id store_id customer_id : ℕ) (type : MovementType)
      (delta : ℤ)
      → IsFresh txn_id db
      → mutate_in round now store_id customer_id type delta txn_id db ≡ ok (balance, db')
      → Step round db db'
  redeemed :
      {db db' : LoyaltyDb} (now txn_id store_id customer_id reward_id redemption_id : ℕ)
      → IsFresh txn_id db
      → redeem_reward round now store_id customer_id reward_id txn_id redemption_id db ≡ ok db'
      → Step round db db'
  taken_back :
      {db db' : LoyaltyDb} (now : ℕ) (user : Caller) (txn_id redemption_id : ℕ)
      → IsFresh txn_id db
      → cancel round now user redemption_id txn_id db ≡ ok db'
      → Step round db db'
  handed_over :
      {db db' : LoyaltyDb} (now : ℕ) (user : Caller) (redemption_id : ℕ)
      → fulfill round now user redemption_id db ≡ ok db'
      → Step round db db'
  expired :
      {db db' : LoyaltyDb} {n : ℕ} (now txn_id customer_id cutoff : ℕ)
      → IsFresh txn_id db
      → expire_customer round now customer_id cutoff txn_id db ≡ ok (n, db')
      → Step round db db'
  awarded :
      {db db' : LoyaltyDb} (now txn_id : ℕ) (floor_product : ℕ → ℕ → ℕ)
      (program : Option LoyaltyProgram) (tiers : List LoyaltyTier) (payment : Payment)
      → IsFresh txn_id db
      → award_for_payment round now floor_product program tiers payment txn_id db ≡ ok db'
      → Step round db db'

-- Any number of them.
pub data Steps (round : Rounding) (first : LoyaltyDb) : LoyaltyDb → Type 0 where
  start : Steps round first first
  later : {db db' : LoyaltyDb} → Steps round first db → Step round db db' → Steps round first db'

Step-IsReconciled :
    (round : Rounding) {db db' : LoyaltyDb} → Step round db db' → IsReconciled db → IsReconciled db'
unfolding fulfill
Step-IsReconciled round (mutated {db} now txn_id store_id customer_id type delta fresh h) before =
    mutate_in-IsReconciled round now txn_id db before fresh store_id customer_id type delta h
Step-IsReconciled round
      (redeemed {db} now txn_id store_id customer_id reward_id redemption_id fresh h) before =
    redeem_reward-IsReconciled round now txn_id db before fresh store_id customer_id reward_id
      redemption_id h
Step-IsReconciled round (taken_back {db} now user txn_id redemption_id fresh h) before =
    cancel-IsReconciled round now txn_id db before fresh user redemption_id h
Step-IsReconciled round (handed_over {db} {db'} now user redemption_id h) before =
    elim (Option-cases (lookup redemption_id db.redemptions)) [
      | inl missing ↦ absurd (ground arith)
      | inr (r, standing) ↦
          IsReconciled-rewards db db' (ground arith) (ground arith) (ground arith) before
    ]
Step-IsReconciled round (expired {db} now txn_id customer_id cutoff fresh h) before =
    expire_customer-IsReconciled round now txn_id db before fresh customer_id cutoff h
Step-IsReconciled round (awarded {db} now txn_id floor_product program tiers payment fresh h)
      before =
    award_for_payment-IsReconciled round now txn_id db before fresh floor_product program tiers
      payment h

-- From a database where every customer's balance is the sum of the log and the balance of the
-- ledger, any sequence of awards, redemptions, adjustments, expiries, vouchers and their
-- cancellation, each run alone and under a new id, leads only to databases where it is.
pub Steps-IsReconciled :
    (round : Rounding) {first db : LoyaltyDb}
    → IsReconciled first
    → Steps round first db
    → IsReconciled db
Steps-IsReconciled round before start = before
Steps-IsReconciled round before (later steps step) =
    Step-IsReconciled round step (Steps-IsReconciled round before steps)
