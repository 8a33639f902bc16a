-- ===== src/Risk.antt =====
-- The fraud score of a paid payment: `scorePayment` of apps/api/src/risk/risk.service.ts. What it
-- counts in the tables is passed in; the amount is in units of 10^-4.
pub mod Cases
use pay_kh.Prelude.{
  ℕ, ◌+◌, ◌*◌, min, Bool, true, false, ◌&&◌, ◌||◌, Option, none, some, List, [], ◌∷◌, leb, ltb,
  ◌==◌, if◌then◌else◌,
}

-- What the score looks at. For a payment with a customer: how many payments the customer has paid
-- in the last hour, and whether the customer is less than an hour old.
pub record RiskSignals : Type 0 where
  pub payment_id : ℕ
  pub amount : ℕ
  pub customer : Option (ℕ × Bool)
  pub same_amount : ℕ

pub record RiskCase : Type 0 where
  pub payment_id : ℕ
  pub score : ℕ

-- `CASE_THRESHOLD`
abbrev pub case_threshold : ℕ
case_threshold = 50

unfoldable pub amount_score : ℕ → ℕ
amount_score amount =
    if leb (1000 * 10_000) amount then 30 else if leb (500 * 10_000) amount then 15 else 0

unfoldable pub customer_score : ℕ → Option (ℕ × Bool) → ℕ
customer_score amount none = if leb (300 * 10_000) amount then 15 else 0
customer_score amount (some (recent_count, is_new)) =
    (if leb 5 recent_count then 25 else 0) + (if is_new && leb (200 * 10_000) amount then 20 else 0)

unfoldable pub risk_score : RiskSignals → ℕ
risk_score s = min 100 (
    amount_score s.amount
    + customer_score s.amount s.customer
    + (if leb 6 s.same_amount then 15 else 0))

unfoldable pub has_case : ℕ → List RiskCase → Bool
has_case payment_id [] = false
has_case payment_id (c ∷ cs) = (c.payment_id == payment_id) || has_case payment_id cs

unfoldable pub score_payment : RiskSignals → List RiskCase → List RiskCase
score_payment s cases =
    let score = risk_score s in
    if ltb score case_threshold
    then cases
    else if has_case s.payment_id cases
    then cases
    else (record { payment_id = s.payment_id; score = score }) ∷ cases
