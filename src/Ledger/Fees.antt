-- ===== src/Ledger/Fees.antt =====
-- Fees in the ledger (`postPaymentCaptured` and `postRefund` of
-- apps/api/src/ledger/ledger.service.ts).
use pay_kh.Prelude.{
  ℕ, ◌+◌, ◌-◌, ◌*◌, ◌%◌, ◌≤◌, ◌≡◌, ◌↔◌, ◌&&◌, some, List, [], ◌∷◌, err, internal_error, arith, ◌==◌,
  if◌then◌else◌,
}
use pay_kh.Decimal.{Rounding, half_up_exact}
use pay_kh.Payments.{Payment}
use pay_kh.Ledger.{
  event_code, debit, credit, round_line, line, exact, merchant_payable, fee_revenue,
  settlement_clearing, money, payment_refunded, Suffix, Journal, credits, post,
  post_payment_captured,
}

-- What a journal books out of clearing for the refunds of a payment.
pub booked_back : ℕ → Journal → ℕ
booked_back id j =
    if (event_code j.event == event_code payment_refunded) && (j.reference.id == id)
    then credits j.lines
    else 0

-- The two parts of an amount of `u` units of 10^-8, each rounded to units of 10^-4: they add up
-- to the whole unless the fifth place of the fee is an exact half, when both go up.
split_rounded :
    (round : Rounding) (amount fee : ℕ)
    → fee ≤ amount * 10_000
    → round.half_up (amount * 10_000 - fee) 10_000 + round.half_up fee 10_000
      ≡ (if fee % 10_000 == 5000 then amount + 1 else amount)
split_rounded round amount fee h = ground (
  arith,
  round.half_up_nearest (amount * 10_000 - fee) 10_000 (omega arith),
  round.half_up_nearest fee 10_000 (omega arith),
)

fee_bound : (amount fee_bps : ℕ) → fee_bps ≤ 10_000 → amount * fee_bps ≤ amount * 10_000
fee_bound amount fee_bps h = grind arith

-- With a fee of at most 100%, the posting of a captured payment is refused exactly if the exact fee
-- has a half in its fifth decimal place: then both parts are rounded up, and the journal does not
-- balance.
pub capture_refused_iff :
    (round : Rounding) (payment : Payment) (fee_bps : ℕ) (journals : List Journal)
    → fee_bps ≤ 10_000
    → (post_payment_captured round payment fee_bps journals ≡ err internal_error)
      ↔ (payment.amount * fee_bps % 10_000 ≡ 5000)
unfolding post_payment_captured post
capture_refused_iff round payment fee_bps journals h = ground (
  arith,
  split_rounded round payment.amount (payment.amount * fee_bps)
      (fee_bound payment.amount fee_bps h),
  half_up_exact round payment.amount 10_000 (omega arith),
)

module _ (round : Rounding) (payment : Payment) (fee_bps : ℕ) (capped : fee_bps ≤ 10_000) where
  -- The journal of a refund.
  abbrev refund_journal : ℕ → Suffix → Journal
  refund_journal value ref = record {
    event = payment_refunded;
    reference = record { id = payment.id; suffix = ref };
    store_id = some payment.store_id;
    currency = money payment.currency;
    lines =
        round_line round (line round merchant_payable debit (exact round value - value * fee_bps))
        ∷ round_line round (line round fee_revenue debit (value * fee_bps))
        ∷ round_line round (line round settlement_clearing credit (exact round value))
        ∷ [];
  }
