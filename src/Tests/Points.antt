-- ===== src/Tests/Points.antt =====
-- Points at concrete inputs.
use pay_kh.Prelude.{
  ℕ, ◌≡◌, refl, inl, true, none, some, List, [], ◌∷◌, Result, insert, ok, err, invalid_request,
  lookup, arith,
}
use pay_kh.Prelude.Int.{ℤ, pos, negsuc, ◌+ℤ◌}
use pay_kh.Types.{owner}
use pay_kh.Access.{
  Caller, assert_store, require_permission, require_membership, role_for_org, role_permissions,
  store_write,
}
use pay_kh.Decimal.{rounding}
use pay_kh.Ledger.{is_posted, post}
use pay_kh.Ledger.Points.{
  MovementType, earn, redeem, adjust, points_balance_for, booked_points, movement_event,
  post_points_movement,
}
use pay_kh.Loyalty.{
  Customer, PointsTransaction, Reward, Redemption, issued, cancelled, LoyaltyDb, negated, is_logged,
  move_points, mutate_from, mutate_in, redeem_from, refund_points, cancel_from, cancel, fulfill,
  redeem_reward,
}
use pay_kh.Loyalty.Reconciled.{IsReconciled, log_total}
use pay_kh.Loyalty.Movement.{mutated, start, later, Steps-IsReconciled}
use pay_kh.Loyalty.Expiry.{at_risk_before, log_of, expire_each}
use pay_kh.Loyalty.Fifo.{
  IsHistory, use_points, move_lots, alive_before, lots_after, at_risk_before-alive,
}
use pay_kh.Loyalty.Vouchers.{balance_of, status_of, cancel-redeem_reward, closed_once, double_spend}
use pay_kh.Loyalty.Sweep.{IsKeyed, AreNewFrom, expire_each_again}

abbrev dara : Customer
dara = record { id = 1; store_id = 7; points_balance = 0; lifetime_points = 0; tier_id = none }

abbrev pub no_points : LoyaltyDb
no_points = record {
  customers = (1, dara) ∷ [];
  txns = [];
  rewards = [];
  redemptions = [];
  journals = [];
}

no_points-IsReconciled : IsReconciled no_points
unfolding lookup log_total points_balance_for booked_points
no_points-IsReconciled id c h = record {
  keyed = ground arith;
  logged = ground arith;
  booked = ground arith;
}

-- The database that an operation leaves.
abbrev left_by : {A : Type 0} → Result (A × LoyaltyDb) → LoyaltyDb
left_by (ok (_, db)) = db
left_by (err e) = no_points

abbrev after_gift : LoyaltyDb
after_gift = left_by (mutate_in rounding 100 7 1 adjust (pos 50) 11 no_points)

gift_accepted : mutate_in rounding 100 7 1 adjust (pos 50) 11 no_points ≡ ok (50, after_gift)
unfolding mutate_in mutate_from move_points is_logged post_points_movement post ◌+ℤ◌ is_posted
    lookup insert
gift_accepted = refl

Steps-IsReconciled_example : IsReconciled after_gift
unfolding is_posted
Steps-IsReconciled_example =
    Steps-IsReconciled rounding no_points-IsReconciled
      (later start (mutated 100 11 7 1 adjust (pos 50) (λ type. refl) gift_accepted))

-- 100 points earned, then 50, then 30 used.
abbrev row : (id : ℕ) → MovementType → ℤ → (created_at : ℕ) → PointsTransaction
row id type points created_at = record {
  id = id;
  customer_id = 1;
  type = type;
  points = points;
  payment_id = none;
  created_at = created_at;
}

abbrev log : List PointsTransaction
log = row 3 redeem (negsuc 29) 5 ∷ row 2 earn (pos 50) 3 ∷ row 1 earn (pos 100) 1 ∷ []

at_risk_before-alive_example :
    at_risk_before (log_of 1 log) 120 2 ≡ alive_before 2 (lots_after (log_of 1 log))
unfolding IsHistory lots_after log_total ◌+ℤ◌ use_points move_lots
at_risk_before-alive_example =
    at_risk_before-alive 1 2 120 log
      (
        (omega arith, (omega arith, tt)),
        omega arith,
        ((omega arith, tt), omega arith, (tt, omega arith, tt)),
      )
      refl

seventy_at_risk : at_risk_before (log_of 1 log) 120 2 ≡ 70
unfolding at_risk_before
seventy_at_risk = refl

abbrev holding : LoyaltyDb
holding = record no_points {
  customers = (1, record dara { points_balance = 120 }) ∷ [];
  txns = log;
  rewards =
      (3, record { id = 3; store_id = 7; points_cost = 40; stock = some 1; active = true }) ∷ [];
}

holding-IsKeyed : IsKeyed holding
unfolding lookup
holding-IsKeyed id c h = ground arith

holding-AreNewFrom : AreNewFrom 21 holding
unfolding is_logged
holding-AreNewFrom k le = ground arith

expire_each_again_example :
    let (_, _, db') = expire_each rounding 200 2 (1 ∷ []) 21 holding in
    expire_each rounding 200 2 (1 ∷ []) 22 db' ≡ (0, 0, db')
expire_each_again_example =
    expire_each_again rounding 200 2 (1 ∷ []) 21 22 holding holding-IsKeyed holding-AreNewFrom

abbrev coffee : Reward
coffee = record { id = 3; store_id = 7; points_cost = 40; stock = some 1; active = true }

abbrev state_of : Result LoyaltyDb → LoyaltyDb
state_of (ok db) = db
state_of (err e) = no_points

-- The owner of the organization 70, which has the store 7.
abbrev merchant : Caller
merchant = record {
  memberships = record { organization_id = 70; role = owner } ∷ [];
  organizations = (7, 70) ∷ [];
}

merchant_may : assert_store merchant 7 store_write ≡ ok tt
unfolding assert_store require_permission require_membership role_for_org role_permissions lookup
merchant_may = refl

abbrev with_voucher : LoyaltyDb
with_voucher = state_of (redeem_reward rounding 200 7 1 3 31 41 holding)

voucher_issued : redeem_reward rounding 200 7 1 3 31 41 holding ≡ ok with_voucher
unfolding redeem_reward redeem_from move_points is_logged post_points_movement post ◌+ℤ◌ is_posted
    lookup insert
voucher_issued = refl

cancel-redeem_reward_example :
    (db2 : LoyaltyDb) × (cancel rounding 200 merchant 41 32 with_voucher ≡ ok db2)
    × (lookup 1 db2.customers ≡ some (record dara { points_balance = 120 }))
    × (lookup 3 db2.rewards ≡ some coffee)
    × (status_of 41 db2 ≡ some cancelled)
unfolding lookup redeem_reward redeem_from move_points post_points_movement post ◌+ℤ◌ is_posted
    insert is_logged assert_store require_permission require_membership role_for_org
    role_permissions
cancel-redeem_reward_example =
    cancel-redeem_reward rounding 200 merchant 7 1 3 31 32 41 holding
      (record dara { points_balance = 120 }) coffee refl refl refl refl voucher_issued merchant_may
      refl

abbrev voucher : Redemption
voucher = record {
  id = 41;
  store_id = 7;
  customer_id = 1;
  reward_id = 3;
  points_spent = 40;
  status = issued;
}

abbrev after_cancel : LoyaltyDb
after_cancel = state_of (cancel rounding 200 merchant 41 32 with_voucher)

voucher_cancelled : cancel rounding 200 merchant 41 32 with_voucher ≡ ok after_cancel
unfolding cancel cancel_from refund_points redeem_reward redeem_from move_points is_logged
    assert_store require_permission require_membership role_for_org role_permissions
    post_points_movement post ◌+ℤ◌ is_posted lookup insert movement_event
voucher_cancelled = refl

voucher_stands : lookup 41 with_voucher.redemptions ≡ some voucher
unfolding redeem_reward redeem_from move_points is_logged post_points_movement post ◌+ℤ◌ is_posted
    lookup insert
voucher_stands = refl

closed_once_run :
    (cancel rounding 200 merchant 41 33 after_cancel ≡ err invalid_request)
    × (fulfill rounding 200 merchant 41 after_cancel ≡ err invalid_request)
closed_once_run =
    closed_once rounding 200 merchant 41 32 33 with_voucher voucher voucher_stands refl merchant_may
      (inl voucher_cancelled)

double_spend_example :
    let c : Customer = record dara { points_balance = 120 } in
    (db1 : LoyaltyDb) × (db2 : LoyaltyDb) × (mutate_from rounding 200 c redeem
        (negated 100)
        34
        holding
      ≡ ok (20, db1))
    × (mutate_from rounding 200 c redeem (negated 100) 35 db1 ≡ ok (20, db2))
    × (balance_of 1 db2 ≡ some 20)
    × (log_total 1 db2.txns ≡ negated 100 +ℤ (negated 100 +ℤ log_total 1 holding.txns))
unfolding lookup is_logged
double_spend_example =
    double_spend rounding 200 (record dara { points_balance = 120 }) 100 34 35 holding (omega arith)
      refl refl refl (λ e. omega arith)
