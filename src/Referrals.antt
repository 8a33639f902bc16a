-- ===== src/Referrals.antt =====
-- Referrals: `ReferralsService` of apps/api/src/referrals/referrals.service.ts, which writes points
-- and journals as the loyalty and the ledger do.
--
-- The normalised contact details of customers are numbers, and what a percentage of an amount rounds
-- to is the rounding's. Codes, names, reports and the sheets that only list rows are left out.
pub mod Commissions
pub mod Rewards
use pay_kh.Prelude.{
  ℕ, zero, suc, ◌+◌, ◌-◌, ◌*◌, Bool, true, false, not, ◌&&◌, ◌||◌, Option, none, some, List, [],
  ◌∷◌, ◌++◌, map, Result, ok, err, ◌>>=◌, ◌>>◌, throw_if, payment_not_found, leb, ltb, ◌==◌,
  if◌then◌else◌, is_some_eq, sum_by, length, Table, lookup, insert,
}
use pay_kh.Prelude.Int.{pos}
use pay_kh.Types.{Currency}
use pay_kh.Access.{Caller, assert_store, store_write}
use pay_kh.Decimal.{Rounding}
use pay_kh.Payments.{Payment}
use pay_kh.Ledger.{Journal, money, post_commission_accrued, post_commission_paid}
use pay_kh.Ledger.Points.{earn}
use pay_kh.Loyalty.{Customer, LoyaltyDb, move_points}

pub data ReferralStatus : Type 0 where
  pending qualified rewarded : ReferralStatus

abbrev pub is_rewarded : ReferralStatus → Bool
is_rewarded rewarded = true
is_rewarded _ = false

pub data RiskFlag : Type 0 where
  shared_email shared_phone velocity : RiskFlag

pub record Referral : Type 0 where
  pub id : ℕ
  pub store_id : ℕ
  pub referrer_customer_id : ℕ
  pub referee_customer_id : ℕ
  pub status : ReferralStatus
  pub flagged : Bool
  pub risk_flags : List RiskFlag
  pub created_at : ℕ

pub data CommissionStatus : Type 0 where
  accrued held paid void : CommissionStatus

pub record ReferralCommission : Type 0 where
  pub id : ℕ
  pub store_id : ℕ
  pub referral_id : ℕ
  pub referrer_customer_id : ℕ
  pub payment_id : ℕ
  pub amount : ℕ
  pub currency : Currency
  pub status : CommissionStatus

pub record ReferralProgram : Type 0 where
  pub active : Bool
  pub referrer_points : ℕ
  pub referee_points : ℕ
  pub commission_bps : ℕ
  pub commission_duration_days : Option ℕ

-- What the screening compares of a customer; `none` where it is empty.
pub record Contact : Type 0 where
  pub id : ℕ
  pub email : Option ℕ
  pub phone : Option ℕ

pub record ReferralDb : Type 0 where
  pub loyalty : LoyaltyDb
  pub referrals : Table Referral
  pub commissions : List ReferralCommission

abbrev pub is_accrued : CommissionStatus → Bool
is_accrued accrued = true
is_accrued _ = false

abbrev pub is_held : CommissionStatus → Bool
is_held held = true
is_held _ = false

-- `findUnique({ where: { refereeCustomerId } })`
unfoldable pub find_referee : ℕ → Table Referral → Option Referral
find_referee customer_id [] = none
find_referee customer_id ((id, r) ∷ rs) =
    if r.referee_customer_id == customer_id then some r else find_referee customer_id rs

-- The referral of the payment's customer.
unfoldable pub referral_of : Payment → Table Referral → Option Referral
referral_of payment referrals = elim payment.customer_id [
  | none ↦ none
  | some customer_id ↦ find_referee customer_id referrals
]

abbrev pub same_detail : Option ℕ → Option ℕ → Bool
same_detail (some a) (some b) = a == b
same_detail _ _ = false

abbrev pub day_ms : ℕ
day_ms = 86_400_000

-- `VELOCITY_24H`
abbrev pub velocity_24h : ℕ
velocity_24h = 10

-- The referrer's referrals of the last day.
unfoldable pub recent_of : (now store_id referrer_id : ℕ) → Table Referral → ℕ
recent_of now store_id referrer_id [] = 0
recent_of now store_id referrer_id ((id, r) ∷ rs) =
    (if (r.store_id == store_id)
        && (r.referrer_customer_id == referrer_id)
        && leb (now - day_ms) r.created_at
      then 1
      else 0)
    + recent_of now store_id referrer_id rs

unfoldable pub screen_referral :
    (now store_id : ℕ) → Contact → Option Contact → Table Referral → List RiskFlag
screen_referral now store_id referrer referee referrals =
    (elim referee [
      | none ↦ []
      | some e ↦
          (if same_detail referrer.email e.email then shared_email ∷ [] else [])
          ++ (if same_detail referrer.phone e.phone then shared_phone ∷ [] else [])
    ])
    ++ (if leb velocity_24h (recent_of now store_id referrer.id referrals)
        then velocity ∷ []
        else [])

-- `linkReferral`, for the referrer that the code names.
unfoldable pub link_referral :
    (now : ℕ)
    → Option ReferralProgram
    → Option Contact
    → (referee_id : ℕ) → Option Contact
    → (store_id referral_id : ℕ) → ReferralDb
    → ReferralDb
link_referral now none referrer referee_id referee store_id referral_id db = db
link_referral now (some program) none referee_id referee store_id referral_id db = db
link_referral now (some program) (some referrer) referee_id referee store_id referral_id db =
    let flags = screen_referral now store_id referrer referee db.referrals in
    let referral : Referral = record {
      id = referral_id;
      store_id = store_id;
      referrer_customer_id = referrer.id;
      referee_customer_id = referee_id;
      status = pending;
      flagged = ltb 0 (length flags);
      risk_flags = flags;
      created_at = now;
    } in
    if not program.active || (referrer.id == referee_id)
    then db
    else elim (find_referee referee_id db.referrals) [
      | some existing ↦ db
      | none ↦ record db { referrals = insert referral_id referral db.referrals }
    ]

-- `payout`, the choice of rows: those of the store, of one referrer if one is given.
abbrev pub is_chosen : (store_id : ℕ) → (referrer : Option ℕ) → ReferralCommission → Bool
is_chosen store_id referrer c =
    (c.store_id == store_id)
    && is_accrued c.status
    && (elim referrer [ none ↦ true | some r ↦ c.referrer_customer_id == r ])

abbrev pub pay_out :
    (store_id : ℕ) → (referrer : Option ℕ) → ReferralCommission → ReferralCommission
pay_out store_id referrer c =
    if is_chosen store_id referrer c then record c { status = paid } else c

-- `updateMany({ where: { referralId, status: 'HELD' }, data: { status } })`
abbrev pub settle_held :
    (referral_id : ℕ) → CommissionStatus → ReferralCommission → ReferralCommission
settle_held referral_id to c =
    if (c.referral_id == referral_id) && is_held c.status then record c { status = to } else c

unfoldable pub has_commission : (payment_id : ℕ) → List ReferralCommission → Bool
has_commission payment_id [] = false
has_commission payment_id (c ∷ cs) = (c.payment_id == payment_id) || has_commission payment_id cs

module _ (round : Rounding) (now : ℕ) where
  -- The points of one side of a reward, if there are any.
  unfoldable pub reward_points :
      (points txn_id store_id customer_id : ℕ) → Option ℕ → LoyaltyDb → Result LoyaltyDb
  reward_points points txn_id store_id customer_id payment_id db =
      if points == 0 then ok db else elim (lookup customer_id db.customers) [
        | none ↦ err payment_not_found
        | some c ↦
            let written : Customer = record c {
              points_balance = c.points_balance + points;
              lifetime_points = c.lifetime_points + points;
            } in
            move_points round now earn earn txn_id store_id payment_id (pos points) written db
      ]

  -- The transaction of `onPaidPayment`, for a referral that was read before it.
  unfoldable pub reward_from :
      Referral → ReferralProgram → Payment → (txn_id txn_id' : ℕ) → ReferralDb → Result ReferralDb
  reward_from referral program payment txn_id txn_id' db = elim (lookup referral.id db.referrals) [
    | none ↦ ok db
    | some fresh ↦ if is_rewarded fresh.status then ok db else do
      first ←
          reward_points program.referrer_points txn_id payment.store_id
            referral.referrer_customer_id none db.loyalty
      second ←
          reward_points program.referee_points txn_id' payment.store_id referral.referee_customer_id
            (some payment.id) first
      ok (record db {
        loyalty = second;
        referrals = insert referral.id (record fresh { status = rewarded }) db.referrals;
      })
  ]

  unfoldable pub on_paid_payment :
      Option ReferralProgram → Payment → (txn_id txn_id' : ℕ) → ReferralDb → Result ReferralDb
  on_paid_payment program payment txn_id txn_id' db = elim (referral_of payment db.referrals) [
    | none ↦ ok db
    | some referral ↦ elim program [
      | none ↦ ok db
      | some p ↦
          if is_rewarded referral.status || referral.flagged || not p.active
          then ok db
          else reward_from referral p payment txn_id txn_id' db
    ]
  ]

  -- The commission in whole hundredths.
  abbrev pub commission_of : (amount bps : ℕ) → ℕ
  commission_of amount bps = round.half_up (amount * bps) (10_000 * 100) * 100

  -- Whether the window of commissions is over when the payment was paid.
  abbrev pub is_late : ReferralProgram → Referral → Payment → Bool
  is_late program referral payment = elim program.commission_duration_days [
    | none ↦ false
    | some days ↦ ltb 0 days && (elim payment.paid_at [
      | none ↦ false
      | some at ↦ ltb (referral.created_at + days * day_ms) at
    ])
  ]

  -- `accrueCommission`, from the referral that it read on. A second row for a payment violates the
  -- unique index, and is passed over; a posting that fails is only logged.
  unfoldable pub accrue_from :
      Referral → ReferralProgram → Payment → (commission_id : ℕ) → ReferralDb → ReferralDb
  accrue_from referral p payment commission_id db =
      let amount = commission_of payment.amount p.commission_bps in
      let commission : ReferralCommission = record {
        id = commission_id;
        store_id = payment.store_id;
        referral_id = referral.id;
        referrer_customer_id = referral.referrer_customer_id;
        payment_id = payment.id;
        amount = amount;
        currency = payment.currency;
        status = if referral.flagged then held else accrued;
      } in
      if not p.active || (p.commission_bps == 0) || is_late p referral payment || (amount == 0)
      then db
      else if has_commission payment.id db.commissions
      then db
      else record db {
        commissions = commission ∷ db.commissions;
        loyalty = record db.loyalty {
          journals =
              elim (post_commission_accrued round commission_id payment.store_id
                (money payment.currency) amount db.loyalty.journals) [
                  | err e ↦ db.loyalty.journals
                  | ok js ↦ js
                ];
        };
      }

  unfoldable pub accrue_commission :
      Option ReferralProgram → Payment → (commission_id : ℕ) → ReferralDb → ReferralDb
  accrue_commission none payment commission_id db = db
  accrue_commission (some p) payment commission_id db = elim (referral_of payment db.referrals) [
    | none ↦ db
    | some referral ↦ accrue_from referral p payment commission_id db
  ]

  abbrev pub post_chosen :
      (chosen : Bool) → ReferralCommission → List Journal → Result (List Journal)
  post_chosen false c journals = ok journals
  post_chosen true c journals =
      post_commission_paid round c.id c.store_id (money c.currency) c.amount journals

  -- The postings of a payout, one for each row that was chosen.
  unfoldable pub post_paid :
      (store_id : ℕ)
      → (referrer : Option ℕ) → List ReferralCommission
      → List Journal
      → Result (List Journal)
  post_paid store_id referrer [] journals = ok journals
  post_paid store_id referrer (c ∷ cs) journals = do
    js ← post_chosen (is_chosen store_id referrer c) c journals
    post_paid store_id referrer cs js

  unfoldable pub payout_commissions :
      Caller → (store_id : ℕ) → (referrer : Option ℕ) → ReferralDb → Result ReferralDb
  payout_commissions user store_id referrer db = do
    assert_store user store_id store_write
    js ← post_paid store_id referrer db.commissions db.loyalty.journals
    ok (record db {
      commissions = map (pay_out store_id referrer) db.commissions;
      loyalty = record db.loyalty { journals = js };
    })

  unfoldable pub review_referral :
      Caller → (store_id referral_id : ℕ) → (clear : Bool) → ReferralDb → Result ReferralDb
  review_referral user store_id referral_id clear db = elim (lookup referral_id db.referrals) [
    | none ↦ do assert_store user store_id store_write; err payment_not_found
    | some r ↦
        let cleared : ReferralDb = record db {
          referrals = insert referral_id (record r { flagged = false }) db.referrals;
          commissions = map (settle_held referral_id accrued) db.commissions;
        } in
        let voided : ReferralDb = record db {
          commissions = map (settle_held referral_id void) db.commissions;
        } in
        do
          assert_store user store_id store_write
          throw_if (not (r.store_id == store_id)) payment_not_found
          ok (if clear then cleared else voided)
  ]
