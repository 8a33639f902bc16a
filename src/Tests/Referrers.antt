-- ===== src/Tests/Referrers.antt =====
-- Referrals at concrete inputs.
use pay_kh.Prelude.{◌+◌, ◌≡◌, refl, false, true, none, some, [], ◌∷◌, ok, lookup}
use pay_kh.Types.{usd, owner}
use pay_kh.Access.{
  Caller, assert_store, require_permission, require_membership, role_for_org, role_permissions,
}
use pay_kh.Decimal.{rounding}
use pay_kh.Referrals.{
  pending, rewarded, accrued, held, is_accrued, is_held, Referral, ReferralCommission,
  ReferralProgram, ReferralDb, reward_from, accrue_commission, payout_commissions,
}
use pay_kh.Referrals.Commissions.{
  is_paid, total, chosen, payout_commissions-totals, accrue_commission_again,
}
use pay_kh.Referrals.Rewards.{reward_from_once}
use pay_kh.Tests.Payments.{ten_dollars}
use pay_kh.Tests.Points.{no_points}

abbrev five_cents : ReferralCommission
five_cents = record {
  id = 1;
  store_id = 7;
  referral_id = 2;
  referrer_customer_id = 3;
  payment_id = 4;
  amount = 500;
  currency = usd;
  status = accrued;
}

abbrev friends : ReferralDb
friends = record {
  loyalty = no_points;
  referrals =
      (
        2,
        record {
          id = 2;
          store_id = 7;
          referrer_customer_id = 3;
          referee_customer_id = 1;
          status = rewarded;
          flagged = false;
          risk_flags = [];
          created_at = 0;
        },
      )
      ∷ [];
  commissions = five_cents ∷ record five_cents { id = 9; payment_id = 8; status = held } ∷ [];
}

abbrev generous : ReferralProgram
generous = record {
  active = true;
  referrer_points = 10;
  referee_points = 5;
  commission_bps = 100;
  commission_duration_days = none;
}

-- The owner of the organization 70, which has the store 7.
abbrev merchant : Caller
merchant = record {
  memberships = record { organization_id = 70; role = owner } ∷ [];
  organizations = (7, 70) ∷ [];
}

payout_commissions-totals_example :
    (db' : ReferralDb) × (payout_commissions rounding 100 merchant 7 none friends ≡ ok db')
    × (total is_paid db'.commissions ≡ 0 + 500)
    × (total is_accrued db'.commissions + 500 ≡ 500)
    × (total is_held db'.commissions ≡ 500)
    × (chosen 7 none db'.commissions ≡ 0)
unfolding assert_store require_permission require_membership role_for_org role_permissions lookup
payout_commissions-totals_example =
    payout_commissions-totals rounding 100 merchant 7 none friends refl

accrue_commission_again_run :
    accrue_commission rounding 100
      (some generous)
      ten_dollars
      12
      (accrue_commission rounding 100 (some generous) ten_dollars 11 friends)
    ≡ accrue_commission rounding 100 (some generous) ten_dollars 11 friends
accrue_commission_again_run =
    accrue_commission_again rounding 100 (some generous) ten_dollars 11 12 friends

abbrev friend : Referral
friend = record {
  id = 2;
  store_id = 7;
  referrer_customer_id = 3;
  referee_customer_id = 1;
  status = pending;
  flagged = false;
  risk_flags = [];
  created_at = 0;
}

already_rewarded : reward_from rounding 100 friend generous ten_dollars 21 22 friends ≡ ok friends
unfolding reward_from lookup
already_rewarded = refl

reward_from_once_run :
    reward_from rounding 101 friend generous ten_dollars 23 24 friends ≡ ok friends
reward_from_once_run =
    reward_from_once rounding 100 101 friend generous ten_dollars ten_dollars 21 22 23 24 friends
      already_rewarded
