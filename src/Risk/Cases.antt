-- ===== src/Risk/Cases.antt =====
-- The cases that scoring opens (`scorePayment` of apps/api/src/risk/risk.service.ts).
use pay_kh.Prelude.{◌≤◌, ◌≡◌, false, List, [], ◌∷◌, arith, ltb, Bool-cases, inl, inr}
use pay_kh.Risk.{RiskSignals, RiskCase, case_threshold, risk_score, has_case, score_payment}

-- Every case has a score from the threshold to 100, and no payment has two.
abbrev pub IsOpened : List RiskCase → Type 0
IsOpened [] = Unit
IsOpened (c ∷ cs) =
    (case_threshold ≤ c.score) × (c.score ≤ 100) × (has_case c.payment_id cs ≡ false) × IsOpened cs

risk_score-le : (s : RiskSignals) → risk_score s ≤ 100
unfolding risk_score
risk_score-le s = omega arith

-- Scoring a payment, any number of times, keeps the cases such.
pub score_payment-IsOpened :
    (s : RiskSignals) (cases : List RiskCase) → IsOpened cases → IsOpened (score_payment s cases)
unfolding score_payment
score_payment-IsOpened s cases h =
    let top = risk_score-le s in
    elim (Bool-cases (ltb (risk_score s) case_threshold)) [
      | inl low ↦ rw low h
      | inr high ↦ elim (Bool-cases (has_case s.payment_id cases)) [
        | inl there ↦ rw (high, there) h
        | inr new ↦ rw (high, new) (ground arith, top, new, h)
      ]
    ]
