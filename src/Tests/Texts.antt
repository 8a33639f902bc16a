-- ===== src/Tests/Texts.antt =====
-- Amounts as text at concrete inputs.
use pay_kh.Prelude.{ℕ, ◌≡◌, refl, List, [], ◌∷◌, ok, arith}
use pay_kh.Decimal.{rounding}
use pay_kh.Types.{usd}
use pay_kh.Money.{validate_amount, format_amount, is_amount, amount_value, decimal_places}
use pay_kh.Money.RoundTrip.{IsCharge, validate_amount-format_amount, validate_amount-IsCharge}

twelve_fifty-IsCharge : IsCharge 125_000 usd
unfolding decimal_places
twelve_fifty-IsCharge = record {
  at_least = omega arith;
  at_most = omega arith;
  no_finer = omega arith;
}

validate_amount-format_amount_example :
    validate_amount (format_amount rounding 125_000 usd) usd ≡ ok 125_000
validate_amount-format_amount_example =
    validate_amount-format_amount rounding 125_000 usd twelve_fifty-IsCharge

-- "12.5"
abbrev twelve_five : List ℕ
twelve_five = b'1' ∷ b'2' ∷ b'.' ∷ b'5' ∷ []

validate_amount-IsCharge_run : IsCharge 125_000 usd
unfolding validate_amount is_amount amount_value decimal_places
validate_amount-IsCharge_run = validate_amount-IsCharge twelve_five usd refl
