-- ===== src/Ledger.antt =====
-- The double-entry ledger: `LedgerService` of apps/api/src/ledger/ledger.service.ts.
--
-- The lines that a posting hands to `post` are exact, in units of 10^-8 (a product of an amount
-- and a fee in basis points); `post` rounds them to the column's units of 10^-4. The transaction
-- client and the surrogate ids of journals and entries are left out.
pub mod Balance
pub mod Fees
pub mod Points
use pay_kh.Prelude.{
  ℕ, suc, ◌+◌, ◌-◌, ◌*◌, Bool, true, false, not, ◌&&◌, ◌||◌, Option, none, some, List, [], ◌∷◌, map,
  Result, ok, err, internal_error, leb, ltb, ◌==◌, ◌>>=◌, if◌then◌else◌, sum_by,
}
use pay_kh.Prelude.Int.{ℤ, pos, negsuc, ◌-ℤ◌, sub_ℕ}
use pay_kh.Types.{Currency, usd, khr, paid, status_code}
use pay_kh.Decimal.{Rounding}
use pay_kh.Payments.{Payment}

-- `CHART_OF_ACCOUNTS`
pub data Account : Type 0 where
  settlement_clearing merchant_payable fee_revenue subscription_revenue : Account
  commission_expense commission_payable points_liability points_expense : Account
  points_settled points_breakage : Account

pub data AccountType : Type 0 where
  asset liability revenue expense : AccountType

unfoldable pub account_type : Account → AccountType
account_type settlement_clearing = asset
account_type merchant_payable = liability
account_type fee_revenue = revenue
account_type subscription_revenue = revenue
account_type commission_expense = expense
account_type commission_payable = liability
account_type points_liability = liability
account_type points_expense = expense
account_type points_settled = revenue
account_type points_breakage = revenue

abbrev pub account_code : Account → ℕ
account_code settlement_clearing = 0
account_code merchant_payable = 1
account_code fee_revenue = 2
account_code subscription_revenue = 3
account_code commission_expense = 4
account_code commission_payable = 5
account_code points_liability = 6
account_code points_expense = 7
account_code points_settled = 8
account_code points_breakage = 9

pub data Direction : Type 0 where
  debit credit : Direction

-- A currency of the ledger; points are `POINTS_CURRENCY`.
pub data LedgerCurrency : Type 0 where
  money : Currency → LedgerCurrency
  points : LedgerCurrency

abbrev pub currency_code : LedgerCurrency → ℕ
currency_code (money usd) = 0
currency_code (money khr) = 1
currency_code points = 2

pub data JournalEvent : Type 0 where
  payment_captured payment_refunded subscription_collected commission_accrued : JournalEvent
  payout commission_paid points_earn points_redeem points_adjust points_expire : JournalEvent
  points_redeem_reversal : JournalEvent

abbrev pub event_code : JournalEvent → ℕ
event_code payment_captured = 0
event_code payment_refunded = 1
event_code subscription_collected = 2
event_code commission_accrued = 3
event_code payout = 4
event_code commission_paid = 5
event_code points_earn = 6
event_code points_redeem = 7
event_code points_adjust = 8
event_code points_expire = 9
event_code points_redeem_reversal = 10

-- A reference is an id, or two ids, or an id and the word that the backfill uses.
pub data Suffix : Type 0 where
  alone : Suffix
  under : ℕ → Suffix
  backfill : Suffix

pub record Reference : Type 0 where
  pub id : ℕ
  pub suffix : Suffix

abbrev pub same_suffix : Suffix → Suffix → Bool
same_suffix alone alone = true
same_suffix (under a) (under b) = a == b
same_suffix backfill backfill = true
same_suffix _ _ = false

abbrev pub same_reference : Reference → Reference → Bool
same_reference a b = (a.id == b.id) && same_suffix a.suffix b.suffix

pub record Line : Type 0 where
  pub account : Account
  pub direction : Direction
  pub amount : ℕ
  pub customer_id : Option ℕ

pub record Journal : Type 0 where
  pub event : JournalEvent
  pub reference : Reference
  pub store_id : Option ℕ
  pub currency : LedgerCurrency
  pub lines : List Line

abbrev pub debit_of : Line → ℕ
debit_of l = elim l.direction [ debit ↦ l.amount | credit ↦ 0 ]

abbrev pub credit_of : Line → ℕ
credit_of l = elim l.direction [ debit ↦ 0 | credit ↦ l.amount ]

-- `filter((l) => l.direction === 'DEBIT').reduce(…)`, and for `'CREDIT'`.
abbrev pub debits : List Line → ℕ
debits = sum_by debit_of

abbrev pub credits : List Line → ℕ
credits = sum_by credit_of

-- Whether a journal stands under the unique (event, reference).
unfoldable pub is_posted : JournalEvent → Reference → List Journal → Bool
is_posted event reference [] = false
is_posted event reference (j ∷ js) =
    (event_code j.event == event_code event) && same_reference j.reference reference
    || is_posted event reference js

module _ (round : Rounding) where
  abbrev pub round_line : Line → Line
  round_line l = record l { amount = round.half_up l.amount 10_000 }

  unfoldable pub post :
      JournalEvent
      → Reference
      → Option ℕ
      → LedgerCurrency
      → List Line
      → List Journal
      → Result (List Journal)
  post event reference store_id currency lines journals =
      let rounded = map round_line lines in
      let journal : Journal = record {
        event = event;
        reference = reference;
        store_id = store_id;
        currency = currency;
        lines = rounded;
      } in
      if not (debits rounded == credits rounded)
      then err internal_error
      else if leb (debits rounded) 0
      then ok journals
      else if is_posted event reference journals
      then ok journals
      else ok (journal ∷ journals)

  abbrev pub line : Account → Direction → ℕ → Line
  line account direction amount = record {
    account = account;
    direction = direction;
    amount = amount;
    customer_id = none;
  }

  -- An amount of the database, in the finer units.
  abbrev pub exact : ℕ → ℕ
  exact amount = amount * 10_000

  unfoldable pub post_payment_captured :
      Payment → (fee_bps : ℕ) → List Journal → Result (List Journal)
  post_payment_captured payment fee_bps =
      let gross = exact payment.amount in
      let fee = payment.amount * fee_bps in
      post payment_captured (record { id = payment.id; suffix = alone }) (some payment.store_id)
        (money payment.currency)
        (line settlement_clearing debit gross
          ∷ line merchant_payable credit (gross - fee)
          ∷ line fee_revenue credit fee
          ∷ [])

  unfoldable pub post_refund :
      Payment
      → (refund_amount fee_bps : ℕ) → (refund_ref : Suffix) → List Journal
      → Result (List Journal)
  post_refund payment refund_amount fee_bps refund_ref =
      let r = exact refund_amount in
      let fee_portion = refund_amount * fee_bps in
      post payment_refunded (record { id = payment.id; suffix = refund_ref })
        (some payment.store_id) (money payment.currency)
        (line merchant_payable debit (r - fee_portion)
          ∷ line fee_revenue debit fee_portion
          ∷ line settlement_clearing credit r
          ∷ [])

  -- One round of `backfill` of apps/api/src/ledger/reconciliation.service.ts, which reads only the
  -- payments that are `PAID`.
  unfoldable pub backfill_payment : Payment → (fee_bps : ℕ) → List Journal → Result (List Journal)
  unfolding post_payment_captured post_refund
  backfill_payment payment fee_bps journals =
      let visited : Result (List Journal) = do
        captured ← post_payment_captured payment fee_bps journals
        if leb payment.refunded_amount 0
            then ok captured
            else post_refund payment payment.refunded_amount fee_bps backfill captured
      in if status_code payment.status == status_code paid then visited else ok journals

  unfoldable pub post_subscription_collected :
      ℕ → LedgerCurrency → ℕ → List Journal → Result (List Journal)
  post_subscription_collected invoice_id currency amount =
      post subscription_collected (record { id = invoice_id; suffix = alone }) none currency
        (line settlement_clearing debit (exact amount)
          ∷ line subscription_revenue credit (exact amount)
          ∷ [])

  unfoldable pub post_commission_accrued :
      ℕ → ℕ → LedgerCurrency → ℕ → List Journal → Result (List Journal)
  post_commission_accrued commission_id store_id currency amount =
      post commission_accrued (record { id = commission_id; suffix = alone }) (some store_id)
        currency
        (line commission_expense debit (exact amount)
          ∷ line commission_payable credit (exact amount)
          ∷ [])

  unfoldable pub post_payout : ℕ → LedgerCurrency → ℕ → ℕ → List Journal → Result (List Journal)
  post_payout store_id currency amount ref =
      post payout (record { id = store_id; suffix = under ref }) (some store_id) currency
        (line merchant_payable debit (exact amount)
          ∷ line settlement_clearing credit (exact amount)
          ∷ [])

  unfoldable pub post_commission_paid :
      ℕ → ℕ → LedgerCurrency → ℕ → List Journal → Result (List Journal)
  post_commission_paid commission_id store_id currency amount =
      post commission_paid (record { id = commission_id; suffix = alone }) (some store_id) currency
        (line commission_payable debit (exact amount)
          ∷ line settlement_clearing credit (exact amount)
          ∷ [])
