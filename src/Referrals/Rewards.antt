-- ===== src/Referrals/Rewards.antt =====
-- A referral is rewarded once (`onPaidPayment` of apps/api/src/referrals/referrals.service.ts).
use mathlib.Core.Path.{subst}
use pay_kh.Prelude.{
  ℕ, ◌≡◌, refl, ap, ◌∙◌, inl, inr, none, some, ok, arith, Bool-cases, Option-cases, Result-cases,
  lookup, insert, lookup-insert_self,
}
use pay_kh.Decimal.{Rounding}
use pay_kh.Payments.{Payment}
use pay_kh.Referrals.{
  Referral, rewarded, is_rewarded, ReferralProgram, ReferralDb, reward_points, reward_from,
}

-- Of two rewards for one referral that both read it before either was made, in any two payments, the
-- second changes nothing: the transaction reads the status again.
pub reward_from_once :
    (round : Rounding) (now now' : ℕ) (r : Referral) (program : ReferralProgram)
    (payment payment' : Payment) (t1 t2 t3 t4 : ℕ) (db : ReferralDb) {db' : ReferralDb}
    → reward_from round now r program payment t1 t2 db ≡ ok db'
    → reward_from round now' r program payment' t3 t4 db' ≡ ok db'
unfolding reward_from
reward_from_once round now now' r program payment payment' t1 t2 t3 t4 db {db'} h =
    elim (Option-cases (lookup r.id db.referrals)) [
      | inl missing ↦
          let same : db ≡ db' = ground arith in
          subst (λ s. reward_from round now' r program payment' t3 t4 s ≡ ok s) same
            (rw (reward_from, missing) refl)
      | inr (fresh, found) ↦ elim (Bool-cases (is_rewarded fresh.status)) [
        | inl done ↦
            let same : db ≡ db' = ground arith in
            subst (λ s. reward_from round now' r program payment' t3 t4 s ≡ ok s) same
              (rw (reward_from, found, done) refl)
        | inr waits ↦
            elim (Result-cases (
              reward_points round now program.referrer_points t1 payment.store_id
                r.referrer_customer_id none db.loyalty)) [
                  | inl (e, failed) ↦ absurd (ground arith)
                  | inr (first, given) ↦
                      elim (Result-cases (
                        reward_points round now program.referee_points t2 payment.store_id
                          r.referee_customer_id (some payment.id) first)) [
                            | inl (e, failed) ↦ absurd (ground arith)
                            | inr (second, given') ↦
                                let closed : Referral = record fresh { status = rewarded } in
                                let row : lookup r.id (insert r.id closed db.referrals)
                                    ≡ some closed =
                                  lookup-insert_self r.id closed db.referrals in
                                let rows : db'.referrals ≡ insert r.id closed db.referrals =
                                  ground arith in
                                let there = ap (lookup r.id) rows ∙ row in
                                rw (reward_from, there) refl
                          ]
                ]
      ]
    ]
