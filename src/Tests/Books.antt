-- ===== src/Tests/Books.antt =====
-- Postings at concrete inputs.
use pay_kh.Prelude.{◌*◌, ◌%◌, ◌≡◌, ◌↔◌, refl, some, List, [], ◌∷◌, err, internal_error, arith}
use pay_kh.Decimal.{rounding}
use pay_kh.Types.{paid, usd}
use pay_kh.Payments.{Payment}
use pay_kh.Ledger.{
  settlement_clearing, merchant_payable, fee_revenue, debit, credit, money, payment_captured,
  Reference, alone, Line, Journal, line, debits, credits, post, post_payment_captured, is_posted,
  exact,
}
use pay_kh.Ledger.Balance.{IsSound, journal_of, total, post-IsSound, post_again, trial_balance}
use pay_kh.Ledger.Fees.{capture_refused_iff}
use pay_kh.Tests.Payments.{ten_dollars}

-- $1.01 at half a percent: a fee of $0.00505.
abbrev odd_payment : Payment
odd_payment = record ten_dollars { status = paid; amount = 10_100 }

capture_refused_iff_example :
    (post_payment_captured rounding odd_payment 50 [] ≡ err internal_error)
    ↔ (odd_payment.amount * 50 % 10_000 ≡ 5000)
capture_refused_iff_example = capture_refused_iff rounding odd_payment 50 [] (omega arith)

odd_payment_refused : post_payment_captured rounding odd_payment 50 [] ≡ err internal_error
odd_payment_refused = capture_refused_iff_example.1 refl

abbrev reference : Reference
reference = record { id = 1; suffix = alone }

abbrev ten_dollar_lines : List Line
ten_dollar_lines =
    line rounding settlement_clearing debit (exact rounding 100_000)
    ∷ line rounding merchant_payable credit (exact rounding 99_000)
    ∷ line rounding fee_revenue credit (exact rounding 1000)
    ∷ []

abbrev ten_dollar_books : List Journal
ten_dollar_books =
    journal_of rounding payment_captured reference (some 7) (money usd) ten_dollar_lines ∷ []

post-IsSound_example : IsSound ten_dollar_books
unfolding post is_posted
post-IsSound_example =
    post-IsSound rounding payment_captured reference (some 7) (money usd) ten_dollar_lines [] tt
      refl

trial_balance_run :
    total debits (money usd) ten_dollar_books ≡ total credits (money usd) ten_dollar_books
trial_balance_run = trial_balance (money usd) ten_dollar_books post-IsSound_example

post_again_run : ten_dollar_books ≡ ten_dollar_books
unfolding post is_posted
post_again_run =
    post_again rounding payment_captured reference (some 7) (money usd) ten_dollar_lines
      ten_dollar_lines [] {journals' = ten_dollar_books} {journals'' = ten_dollar_books}
      (omega arith) refl refl

-- Two dollars of ten refunded, at one percent.
abbrev part_refunded : Payment
part_refunded = record ten_dollars { status = paid; refunded_amount = 20_000 }
