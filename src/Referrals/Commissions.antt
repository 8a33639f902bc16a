-- ===== src/Referrals/Commissions.antt =====
-- What happens to commissions (`accrueCommission`, `payoutCommissions`, `reviewReferral` of
-- apps/api/src/referrals/referrals.service.ts).
use pay_kh.Prelude.{
  ℕ, ◌+◌, ◌≡◌, refl, sym, ap, ◌∙◌, inl, inr, Bool, true, false, not, ◌||◌, Option, none, some, List,
  [], ◌∷◌, map, ok, ◌==◌, ==_refl, if◌then◌else◌, sum_by, if_cases, ◌⊎◌, arith, Bool-cases,
  Option-cases, Result-cases,
}
use pay_kh.Access.{Caller, assert_store, store_write}
use pay_kh.Decimal.{Rounding}
use pay_kh.Payments.{Payment}
use pay_kh.Ledger.{Journal, LedgerCurrency, money, post, post_commission_paid}
use pay_kh.Referrals.{
  CommissionStatus, paid, Referral, ReferralCommission, ReferralProgram, ReferralDb, is_accrued,
  is_held, is_chosen, referral_of, pay_out, has_commission, commission_of, is_late, accrue_from,
  accrue_commission, post_paid, payout_commissions,
}

abbrev pub is_paid : CommissionStatus → Bool
is_paid paid = true
is_paid _ = false

-- What commissions with a status come to.
abbrev pub total : (CommissionStatus → Bool) → List ReferralCommission → ℕ
total test cs = sum_by (λ c. if test c.status then c.amount else 0) cs

-- What a payout will pay.
abbrev pub chosen : (store_id : ℕ) → (referrer : Option ℕ) → List ReferralCommission → ℕ
chosen store_id referrer cs = sum_by (λ c. if is_chosen store_id referrer c then c.amount else 0) cs

pay_out_totals :
    (store_id : ℕ) (referrer : Option ℕ) (cs : List ReferralCommission)
    → let cs' = map (pay_out store_id referrer) cs in
      (total is_paid cs' ≡ total is_paid cs + chosen store_id referrer cs)
      × (total is_accrued cs' + chosen store_id referrer cs ≡ total is_accrued cs)
      × (total is_held cs' ≡ total is_held cs)
      × (chosen store_id referrer cs' ≡ 0)
pay_out_totals store_id referrer [] = (refl, refl, refl, refl)
pay_out_totals store_id referrer (c ∷ cs) =
    let (p, a, h, z) = pay_out_totals store_id referrer cs in
    elim (Bool-cases (is_chosen store_id referrer c)) [
      | inl yes_chosen ↦ (ground arith, ground arith, ground arith, ground arith)
      | inr not_chosen ↦ (ground arith, ground arith, ground arith, ground arith)
    ]

commission_paid_posts :
    (round : Rounding) (id store_id : ℕ) (currency : LedgerCurrency) (amount : ℕ)
    (journals : List Journal)
    → (js : List Journal) × (post_commission_paid round id store_id currency amount journals
        ≡ ok js)
unfolding post_commission_paid post
commission_paid_posts round id store_id currency amount journals =
    elim (Result-cases (post_commission_paid round id store_id currency amount journals)) [
      | inl (e, refused) ↦ absurd (ground arith)
      | inr done ↦ done
    ]

post_paid_total :
    (round : Rounding) (now store_id : ℕ) (referrer : Option ℕ) (cs : List ReferralCommission)
    (journals : List Journal)
    → (js : List Journal) × (post_paid round now store_id referrer cs journals ≡ ok js)
unfolding post_paid
post_paid_total round now store_id referrer [] journals = (journals, refl)
post_paid_total round now store_id referrer (c ∷ cs) journals =
    elim (Bool-cases (is_chosen store_id referrer c)) [
      | inl yes_chosen ↦
          let (js, posts) =
            commission_paid_posts round c.id c.store_id (money c.currency) c.amount journals in
          let (js', rest) = post_paid_total round now store_id referrer cs js in
          (js', rw (yes_chosen, posts) rest)
      | inr not_chosen ↦
          let (js', rest) = post_paid_total round now store_id referrer cs journals in
          (js', rw not_chosen rest)
    ]

-- A payout by a user who may write to the store is never refused. It moves what was chosen from
-- accrued to paid, exactly, leaves what is held alone, and leaves nothing for a second payout of
-- the same choice.
pub payout_commissions-totals :
    (round : Rounding) (now : ℕ) (user : Caller) (store_id : ℕ) (referrer : Option ℕ)
    (db : ReferralDb)
    → assert_store user store_id store_write ≡ ok tt
    → (db' : ReferralDb) × (payout_commissions round now user store_id referrer db ≡ ok db')
      × (total is_paid db'.commissions
          ≡ total is_paid db.commissions + chosen store_id referrer db.commissions)
      × (total is_accrued db'.commissions + chosen store_id referrer db.commissions
          ≡ total is_accrued db.commissions)
      × (total is_held db'.commissions ≡ total is_held db.commissions)
      × (chosen store_id referrer db'.commissions ≡ 0)
unfolding payout_commissions
payout_commissions-totals round now user store_id referrer db may =
    let (js, posts) =
      post_paid_total round now store_id referrer db.commissions db.loyalty.journals in
    let (p, a, h, z) = pay_out_totals store_id referrer db.commissions in
    let after : ReferralDb = record db {
      commissions = map (pay_out store_id referrer) db.commissions;
      loyalty = record db.loyalty { journals = js };
    } in
    (after, rw (may, posts) refl, p, a, h, z)

module _ (round : Rounding) (now : ℕ) (r : Referral) (p : ReferralProgram) (payment : Payment) where
  abbrev is_idle : Bool
  is_idle =
      not p.active
      || (p.commission_bps == 0)
      || is_late round now p r payment
      || (commission_of round now payment.amount p.commission_bps == 0)

  -- Nothing is accrued where there is nothing to accrue, or a row for the payment.
  accrue_from_idle :
      (id : ℕ) (db : ReferralDb)
      → (is_idle ≡ true) ⊎ (has_commission payment.id db.commissions ≡ true)
      → accrue_from round now r p payment id db ≡ db
  unfolding accrue_from
  accrue_from_idle id db (inl nothing) = rw (accrue_from, nothing) refl
  accrue_from_idle id db (inr there) = elim (Bool-cases is_idle) [
    | inl nothing ↦ rw (accrue_from, nothing) refl
    | inr due ↦ rw (accrue_from, due, there) refl
  ]

  accrue_from_leaves :
      (id : ℕ) (db : ReferralDb)
      → is_idle ≡ false
      → (has_commission payment.id (accrue_from round now r p payment id db).commissions ≡ true)
  unfolding accrue_from has_commission
  accrue_from_leaves id db due =
      if_cases (λ (s : ReferralDb). has_commission payment.id s.commissions ≡ true) is_idle _ _
        (λ nothing. absurd (ground arith))
        (λ _.
          if_cases (λ (s : ReferralDb). has_commission payment.id s.commissions ≡ true)
            (has_commission payment.id db.commissions) _ _ (λ there. there)
            (λ _. rw (==_refl payment.id) refl))

  accrue_from_referrals :
      (id : ℕ) (db : ReferralDb)
      → (accrue_from round now r p payment id db).referrals ≡ db.referrals
  unfolding accrue_from
  accrue_from_referrals id db =
      if_cases (λ (s : ReferralDb). s.referrals ≡ db.referrals) is_idle _ _ (λ _. refl)
        (λ _.
          if_cases (λ (s : ReferralDb). s.referrals ≡ db.referrals)
            (has_commission payment.id db.commissions) _ _ (λ _. refl) (λ _. refl))

  accrue_from_again :
      (id id' : ℕ) (db : ReferralDb)
      → accrue_from round now r p payment id' (accrue_from round now r p payment id db)
        ≡ accrue_from round now r p payment id db
  accrue_from_again id id' db = elim (Bool-cases is_idle) [
    | inl nothing ↦ accrue_from_idle id' (accrue_from round now r p payment id db) (inl nothing)
    | inr due ↦
        accrue_from_idle id' (accrue_from round now r p payment id db)
          (inr (accrue_from_leaves id db due))
  ]

-- Accruing the commission of a payment again, under any id, changes nothing.
pub accrue_commission_again :
    (round : Rounding) (now : ℕ) (program : Option ReferralProgram) (payment : Payment) (id id' : ℕ)
    (db : ReferralDb)
    → accrue_commission round now program payment id'
        (accrue_commission round now program payment id db)
      ≡ accrue_commission round now program payment id db
unfolding accrue_commission
accrue_commission_again round now none payment id id' db = refl
accrue_commission_again round now (some p) payment id id' db =
    elim (Option-cases (referral_of payment db.referrals)) [
      | inl unreferred ↦
          let idle : (k : ℕ) → accrue_commission round now (some p) payment k db ≡ db =
            λ k. rw (accrue_commission, unreferred) refl in
          ap (accrue_commission round now (some p) payment id') (idle id) ∙ idle id' ∙ sym (idle id)
      | inr (r, referred) ↦
          let runs : (k : ℕ) (s : ReferralDb)
              → referral_of payment s.referrals ≡ some r
              → accrue_commission round now (some p) payment k s
                ≡ accrue_from round now r p payment k s =
            λ k s h. rw (accrue_commission, h) refl in
          let still =
            ap (referral_of payment) (accrue_from_referrals round now r p payment id db)
            ∙ referred in
          ap (accrue_commission round now (some p) payment id') (runs id db referred)
          ∙ runs id' (accrue_from round now r p payment id db) still
          ∙ accrue_from_again round now r p payment id id' db
          ∙ sym (runs id db referred)
    ]
