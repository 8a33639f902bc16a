-- ===== src/Settlements.antt =====
-- Settlement statements: apps/api/src/settlements/settlement.util.ts, and `runForStore` and
-- `settleGroup` of apps/api/src/settlements/settlement.service.ts.
--
-- Amounts are in units of 10^-4. What was refunded of a payment is within its amount
-- (`Payments.RefundSafety`), so the volume net of refunds does not fall below 0. An instant is a
-- number of milliseconds, its UTC day the number of whole days.
pub mod Totals
pub mod Batches
use pay_kh.Prelude.{
  ℕ, suc, ◌+◌, ◌-◌, ◌*◌, ◌/◌, Bool, true, false, not, ◌&&◌, ◌||◌, Option, none, some, List, [], ◌∷◌,
  length, take, ◌++◌, sum_by, ltb, ◌==◌, if◌then◌else◌,
}
use pay_kh.Types.{PaymentStatus, paid, refunded, status_code, Currency, usd, khr}
use pay_kh.Decimal.{Rounding}

-- The columns of a payment that settlement reads, and the one that it writes.
pub record SettlementPayment : Type 0 where
  pub id : ℕ
  pub store_id : ℕ
  pub status : PaymentStatus
  pub currency : Currency
  pub amount : ℕ
  pub refunded_amount : ℕ
  pub paid_at : Option ℕ
  pub settlement_id : Option ℕ

pub record SettlementAmounts : Type 0 where
  pub gross : ℕ
  pub refunds : ℕ
  pub fee : ℕ
  pub net : ℕ

pub record Settlement : Type 0 where
  pub id : ℕ
  pub store_id : ℕ
  pub currency : Currency
  pub payout_date : ℕ
  pub fee_bps : ℕ
  pub amounts : SettlementAmounts
  pub payment_count : ℕ

pub record SettlementDb : Type 0 where
  pub payments : List SettlementPayment
  pub settlements : List Settlement

abbrev pub currency_key : Currency → ℕ
currency_key usd = 0
currency_key khr = 1

unfoldable pub compute_settlement_amounts :
    Rounding → (gross refunds fee_bps : ℕ) → SettlementAmounts
compute_settlement_amounts round gross refunds fee_bps =
    let net_volume = gross - refunds in
    let fee = round.half_up (net_volume * fee_bps) 10_000 in
    record { gross = gross; refunds = refunds; fee = fee; net = net_volume - fee }

abbrev pub is_unclaimed : SettlementPayment → Bool
is_unclaimed p = elim p.settlement_id [ none ↦ true | some s ↦ false ]

abbrev pub is_member : List ℕ → ℕ → Bool
is_member [] id = false
is_member (x ∷ xs) id = (x == id) || is_member xs id

-- The rows of the group that no run has claimed.
unfoldable pub fresh_of : (group : List ℕ) → List SettlementPayment → List SettlementPayment
fresh_of group [] = []
fresh_of group (p ∷ ps) =
    let rest = fresh_of group ps in
    if is_member group p.id && is_unclaimed p then p ∷ rest else rest

-- `updateMany({ where: { id in fresh, settlementId: null }, … })`
unfoldable pub claim_all :
    (group : List ℕ) → (settlement_id : ℕ) → List SettlementPayment → List SettlementPayment
claim_all group settlement_id [] = []
claim_all group settlement_id (p ∷ ps) =
    (if is_member group p.id && is_unclaimed p
      then (record p { settlement_id = some settlement_id })
      else p)
    ∷ claim_all group settlement_id ps

-- Whether a statement is that of the store, the currency and the day, its unique key.
abbrev pub is_keyed : ℕ → Currency → ℕ → Settlement → Bool
is_keyed store_id currency payout_date s =
    (s.store_id == store_id)
    && (currency_key s.currency == currency_key currency)
    && (s.payout_date == payout_date)

unfoldable pub find_settlement : ℕ → Currency → ℕ → List Settlement → Option Settlement
find_settlement store_id currency payout_date [] = none
find_settlement store_id currency payout_date (s ∷ ss) =
    if is_keyed store_id currency payout_date s
    then some s
    else find_settlement store_id currency payout_date ss

-- `existing.grossAmount.plus(gross)` and so on.
abbrev pub add_amounts : SettlementAmounts → ℕ → Settlement → Settlement
add_amounts a count s = record s {
  amounts = record {
    gross = s.amounts.gross + a.gross;
    refunds = s.amounts.refunds + a.refunds;
    fee = s.amounts.fee + a.fee;
    net = s.amounts.net + a.net;
  };
  payment_count = s.payment_count + count;
}

-- The update of the statement that was found.
unfoldable pub add_to : ℕ → Currency → ℕ → SettlementAmounts → ℕ → List Settlement → List Settlement
add_to store_id currency payout_date a count [] = []
add_to store_id currency payout_date a count (s ∷ ss) =
    let rest = add_to store_id currency payout_date a count ss in
    if is_keyed store_id currency payout_date s then add_amounts a count s ∷ ss else s ∷ rest

-- `utcDay`, as the number of the day.
abbrev pub utc_day : ℕ → ℕ
utc_day t = t / 86_400_000

-- The payments of a group: a currency and the day on which they were paid.
pub record Group : Type 0 where
  pub currency : Currency
  pub payout_date : ℕ
  pub members : List ℕ

-- The `where` of `runForStore`.
unfoldable pub settleable : ℕ → (cutoff : ℕ) → List SettlementPayment → List SettlementPayment
settleable store_id cutoff [] = []
settleable store_id cutoff (p ∷ ps) =
    let rest = settleable store_id cutoff ps in
    if (p.store_id == store_id)
      && (status_code p.status == status_code paid || status_code p.status == status_code refunded)
      && is_unclaimed p
      && elim p.paid_at [ none ↦ false | some t ↦ ltb t cutoff ]
    then p ∷ rest
    else rest

-- `groups.get(key) ?? groups.set(key, [])`, and `push`.
unfoldable pub push : SettlementPayment → (day : ℕ) → List Group → List Group
push p day [] = record { currency = p.currency; payout_date = day; members = p.id ∷ [] } ∷ []
push p day (g ∷ gs) =
    let rest = push p day gs in
    if (currency_key g.currency == currency_key p.currency) && (g.payout_date == day)
    then (record g { members = g.members ++ p.id ∷ [] }) ∷ gs
    else g ∷ rest

unfoldable pub push_all : List SettlementPayment → List Group → List Group
push_all [] gs = gs
push_all (p ∷ ps) gs = elim p.paid_at [
  | none ↦ push_all ps gs
  | some t ↦ push_all ps (push p (utc_day t) gs)
]

unfoldable pub groups_of : List SettlementPayment → List Group
groups_of ps = push_all ps []

module _ (round : Rounding) (new_id : ℕ) (store_id fee_bps : ℕ) where
  -- One transaction; `new_id` is the id that a new statement gets.
  unfoldable pub settle_group :
      Currency
      → (payout_date : ℕ) → (group : List ℕ) → SettlementDb
      → Option Settlement × SettlementDb
  settle_group currency payout_date group db =
      let fresh = fresh_of group db.payments in
      let a =
        compute_settlement_amounts round (sum_by (λ p. p.amount) fresh)
          (sum_by (λ p. p.refunded_amount) fresh) fee_bps in
      let created : Settlement = record {
        id = new_id;
        store_id = store_id;
        currency = currency;
        payout_date = payout_date;
        fee_bps = fee_bps;
        amounts = a;
        payment_count = length fresh;
      } in
      let count = length fresh in
      if count == 0
      then (find_settlement store_id currency payout_date db.settlements, db)
      else elim (find_settlement store_id currency payout_date db.settlements) [
        | some existing ↦ (
          some (add_amounts a count existing),
          record {
            payments = claim_all group existing.id db.payments;
            settlements = add_to store_id currency payout_date a count db.settlements;
          },
        )
        | none ↦ (
          some created,
          record {
            payments = claim_all group new_id db.payments;
            settlements = created ∷ db.settlements;
          },
        )
      ]

-- The groups in turn, each in a transaction of its own; new statements get the ids from `new_id` on.
unfoldable pub settle_groups :
    Rounding → (new_id store_id fee_bps : ℕ) → List Group → SettlementDb → SettlementDb
settle_groups round new_id store_id fee_bps [] db = db
settle_groups round new_id store_id fee_bps (g ∷ gs) db =
    settle_groups round (suc new_id) store_id fee_bps gs
      (settle_group round new_id store_id fee_bps g.currency g.payout_date g.members db).1

unfoldable pub run_for_store :
    Rounding → (new_id store_id fee_bps cutoff : ℕ) → SettlementDb → SettlementDb
run_for_store round new_id store_id fee_bps cutoff db =
    settle_groups round new_id store_id fee_bps
      (groups_of (take 5000 (settleable store_id cutoff db.payments))) db
