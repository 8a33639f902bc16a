-- ===== src/Loyalty.antt =====
-- Loyalty points: `LoyaltyService` of apps/api/src/loyalty/loyalty.service.ts. Each movement of
-- points writes a row of the log, the customer's balance and a journal of the ledger.
--
-- A balance is never below 0: every write checks it. Points are whole, movements of them signed.
-- `Math.floor` of a product of floating-point numbers is an argument. The mirror on the PayChain
-- rail, which writes no balance, and the bonus of campaigns are left out.
pub mod Reconciled
pub mod Movement
pub mod Vouchers
pub mod Expiry
pub mod Fifo
pub mod Sweep
use pay_kh.Prelude.{
  ℕ, suc, ◌+◌, ◌-◌, ◌*◌, min, Bool, true, false, not, ◌&&◌, ◌||◌, Option, none, some, List, [], ◌∷◌,
  Result, ok, err, ◌>>=◌, ◌>>◌, throw_if, internal_error, invalid_request, payment_not_found, leb,
  ltb, ◌==◌, if◌then◌else◌, Table, lookup, insert,
}
use pay_kh.Prelude.Int.{ℤ, pos, negsuc, pos_part, neg_part, sub_ℕ, ◌+ℤ◌}
use pay_kh.Access.{Caller, assert_store, store_write}
use pay_kh.Decimal.{Rounding}
use pay_kh.Payments.{Payment}
use pay_kh.Ledger.{Journal}
use pay_kh.Ledger.Points.{
  MovementType, earn, redeem, adjust, expire, redeem_reversal, post_points_movement,
}
use pay_kh.Idempotency.{Slot, IdempotencyRecord, Executed, execute}

pub record Customer : Type 0 where
  pub id : ℕ
  pub store_id : ℕ
  pub points_balance : ℕ
  pub lifetime_points : ℕ
  pub tier_id : Option ℕ

-- A row of `PointsTransaction`; all that are written here are `CONFIRMED`.
pub record PointsTransaction : Type 0 where
  pub id : ℕ
  pub customer_id : ℕ
  pub type : MovementType
  pub points : ℤ
  pub payment_id : Option ℕ
  pub created_at : ℕ

pub record LoyaltyProgram : Type 0 where
  pub active : Bool
  pub points_per_unit : ℕ
  pub expiry_months : Option ℕ

pub record LoyaltyTier : Type 0 where
  pub id : ℕ
  pub threshold : ℕ
  pub earn_multiplier : ℕ

-- A stock below 0, which is unlimited, is `none`.
pub record Reward : Type 0 where
  pub id : ℕ
  pub store_id : ℕ
  pub points_cost : ℕ
  pub stock : Option ℕ
  pub active : Bool

pub data RedemptionStatus : Type 0 where
  issued fulfilled cancelled : RedemptionStatus

abbrev pub is_issued : RedemptionStatus → Bool
is_issued issued = true
is_issued _ = false

pub record Redemption : Type 0 where
  pub id : ℕ
  pub store_id : ℕ
  pub customer_id : ℕ
  pub reward_id : ℕ
  pub points_spent : ℕ
  pub status : RedemptionStatus

pub record LoyaltyDb : Type 0 where
  pub customers : Table Customer
  pub txns : List PointsTransaction
  pub rewards : Table Reward
  pub redemptions : Table Redemption
  pub journals : List Journal

-- -|points|
abbrev pub negated : ℕ → ℤ
negated n = sub_ℕ 0 n

-- Whether a row of the log has the id, which is its primary key.
unfoldable pub is_logged : ℕ → List PointsTransaction → Bool
is_logged id [] = false
is_logged id (t ∷ ts) = (t.id == id) || is_logged id ts

-- What the services of a store work with: the rounding of the ledger, and the clock.
module _ (round : Rounding) (now : ℕ) where
  -- The three writes of a movement: the row of the log, which fails if its id is taken, the
  -- customer's row and the journal. The
  -- type in the log and that of the posting differ when a redemption is cancelled.
  unfoldable pub move_points :
      (log_type posting : MovementType)
      → (txn_id store_id : ℕ) → (payment_id : Option ℕ) → ℤ
      → (written : Customer) → LoyaltyDb
      → Result LoyaltyDb
  move_points log_type posting txn_id store_id payment_id delta written db =
      let txn : PointsTransaction = record {
        id = txn_id;
        customer_id = written.id;
        type = log_type;
        points = delta;
        payment_id = payment_id;
        created_at = now;
      } in
      do
        throw_if (is_logged txn_id db.txns) internal_error
        journals ← post_points_movement round posting txn_id store_id written.id delta db.journals
        ok (record db {
          customers = insert written.id written db.customers;
          txns = txn ∷ db.txns;
          journals = journals;
        })

  -- `mutateIn`, from the customer that it read on: the new balance is computed from what was read, and
  -- written to the row that stands by then.
  unfoldable pub mutate_from :
      Customer → MovementType → (delta : ℤ) → (txn_id : ℕ) → LoyaltyDb → Result (ℕ × LoyaltyDb)
  mutate_from seen type delta txn_id db =
      let new_balance = pos seen.points_balance +ℤ delta in
      do
        throw_if (ltb 0 (neg_part new_balance)) invalid_request
        elim (lookup seen.id db.customers) [
          | none ↦ err internal_error
          | some row ↦ do
            db' ←
                move_points type type txn_id seen.store_id none delta
                  (record row { points_balance = pos_part new_balance }) db
            ok (pos_part new_balance, db')
        ]

  unfoldable pub mutate_in :
      (store_id customer_id : ℕ)
      → MovementType
      → ℤ
      → (txn_id : ℕ) → LoyaltyDb
      → Result (ℕ × LoyaltyDb)
  mutate_in store_id customer_id type delta txn_id db = elim (lookup customer_id db.customers) [
    | none ↦ err invalid_request
    | some customer ↦ do
      throw_if (not (customer.store_id == store_id)) invalid_request
      mutate_from customer type delta txn_id db
  ]

  -- `redeem`, and `redeemIdempotent` behind the guard of the write APIs.
  unfoldable pub redeem_points :
      (store_id customer_id points txn_id : ℕ) → LoyaltyDb → Result (ℕ × LoyaltyDb)
  redeem_points store_id customer_id points txn_id db =
      mutate_in store_id customer_id redeem (negated points) txn_id db

  unfoldable pub redeem_idempotent :
      (store_id customer_id points txn_id : ℕ)
      → Option Slot
      → (request_hash : ℕ) → Option (IdempotencyRecord ℕ)
      → LoyaltyDb
      → List (IdempotencyRecord ℕ)
      → Executed LoyaltyDb ℕ
  redeem_idempotent store_id customer_id points txn_id slot request_hash prior db records =
      execute
        (λ s. elim (redeem_points store_id customer_id points txn_id s) [
          | err e ↦ err e
          | ok (balance, s') ↦ ok (balance, 200, s')
        ])
        now slot request_hash prior db records

  -- `redeemReward`, from the reward and the customer that it read on.
  unfoldable pub redeem_from :
      Reward → Customer → (txn_id redemption_id : ℕ) → LoyaltyDb → Result LoyaltyDb
  redeem_from reward customer txn_id redemption_id db =
      let written : Customer = record customer {
        points_balance = customer.points_balance - reward.points_cost;
      } in
      let redemption : Redemption = record {
        id = redemption_id;
        store_id = reward.store_id;
        customer_id = customer.id;
        reward_id = reward.id;
        points_spent = reward.points_cost;
        status = issued;
      } in
      do
        throw_if (not reward.active) invalid_request
        throw_if (elim reward.stock [ none ↦ false | some n ↦ n == 0 ]) invalid_request
        throw_if (not (customer.store_id == reward.store_id)) invalid_request
        throw_if (ltb customer.points_balance reward.points_cost) invalid_request
        db' ←
            move_points redeem redeem txn_id reward.store_id none (negated reward.points_cost)
              written db
        ok (record db' {
          rewards = elim reward.stock [
            | none ↦ db'.rewards
            | some n ↦ insert reward.id (record reward { stock = some (n - 1) }) db'.rewards
          ];
          redemptions = insert redemption_id redemption db'.redemptions;
        })

  unfoldable pub redeem_reward :
      (store_id customer_id reward_id txn_id redemption_id : ℕ) → LoyaltyDb → Result LoyaltyDb
  redeem_reward store_id customer_id reward_id txn_id redemption_id db =
      elim (lookup reward_id db.rewards) [
        | none ↦ err invalid_request
        | some reward ↦ elim (lookup customer_id db.customers) [
          | none ↦ err invalid_request
          | some customer ↦ do
            throw_if (not (reward.store_id == store_id)) invalid_request
            redeem_from reward customer txn_id redemption_id db
        ]
      ]

  -- The transaction of `cancel`: the balance and the stock are incremented.
  unfoldable pub refund_points : Redemption → (txn_id : ℕ) → LoyaltyDb → Result LoyaltyDb
  refund_points r txn_id db = elim (lookup r.customer_id db.customers) [
    | none ↦ err payment_not_found
    | some customer ↦
        let written : Customer = record customer {
          points_balance = customer.points_balance + r.points_spent;
        } in
        do
          db' ←
              move_points adjust redeem_reversal txn_id r.store_id none (pos r.points_spent) written
                db
          ok (record db' {
            rewards = elim (lookup r.reward_id db'.rewards) [
              | none ↦ db'.rewards
              | some reward ↦ elim reward.stock [
                | none ↦ db'.rewards
                | some n ↦ insert r.reward_id (record reward { stock = some (n + 1) }) db'.rewards
              ]
            ];
            redemptions = elim (lookup r.id db'.redemptions) [
              | none ↦ db'.redemptions
              | some row ↦ insert r.id (record row { status = cancelled }) db'.redemptions
            ];
          })
  ]

  -- `cancel`, from the redemption that it read on, which it reads and tests before its transaction.
  unfoldable pub cancel_from : Redemption → (txn_id : ℕ) → LoyaltyDb → Result LoyaltyDb
  cancel_from r txn_id db = do
    throw_if (not (is_issued r.status)) invalid_request
    refund_points r txn_id db

  unfoldable pub cancel : Caller → (redemption_id txn_id : ℕ) → LoyaltyDb → Result LoyaltyDb
  cancel user redemption_id txn_id db = elim (lookup redemption_id db.redemptions) [
    | none ↦ err payment_not_found
    | some r ↦ do assert_store user r.store_id store_write; cancel_from r txn_id db
  ]

  unfoldable pub fulfill : Caller → (redemption_id : ℕ) → LoyaltyDb → Result LoyaltyDb
  fulfill user redemption_id db = elim (lookup redemption_id db.redemptions) [
    | none ↦ err payment_not_found
    | some r ↦ do
      assert_store user r.store_id store_write
      throw_if (not (is_issued r.status)) invalid_request
      ok (record db {
        redemptions = insert redemption_id (record r { status = fulfilled }) db.redemptions;
      })
  ]
