-- ===== src/Money.antt =====
-- Amounts of money as text: apps/api/src/payments/amount.util.ts. A text is the list of its
-- character codes; a value is in units of 10^-4.
pub mod Digits
pub mod RoundTrip
use pay_kh.Prelude.{
  ℕ, zero, suc, ◌+◌, ◌-◌, ◌*◌, ◌/◌, ◌%◌, Bool, true, false, not, ◌&&◌, ◌||◌, List, [], ◌∷◌, ◌++◌,
  Result, ok, err, invalid_request, amount_too_low, amount_too_high, ltb, leb, ◌==◌, if◌then◌else◌,
  length, all_by,
}
use pay_kh.Types.{Currency, usd, khr}
use pay_kh.Decimal.{Rounding}

-- `BOUNDS`, its limits in units of 10^-4.
abbrev pub bound_min : Currency → ℕ
bound_min usd = 100
bound_min khr = 1_000_000

abbrev pub bound_max : Currency → ℕ
bound_max usd = 1_000_000_000
bound_max khr = 4_000_000_000_000

abbrev pub decimals : Currency → ℕ
decimals usd = 2
decimals khr = 0

unfoldable pub is_digit : ℕ → Bool
is_digit c = leb b'0' c && leb c b'9'

-- The longest prefix of digits, and the rest.
unfoldable pub span_digits : List ℕ → List ℕ × List ℕ
unfolding is_digit
span_digits [] = ([], [])
span_digits (c ∷ s) =
    let (ds, rest) = span_digits s in if is_digit c then (c ∷ ds, rest) else ([], c ∷ s)

-- `(\.\d{1,4})?$`
unfoldable pub is_fraction : List ℕ → Bool
unfolding is_digit
is_fraction [] = true
is_fraction (c ∷ s) = (c == b'.') && leb 1 (length s) && leb (length s) 4 && all_by is_digit s

-- `AMOUNT_RE.test(amount)`
unfoldable pub is_amount : List ℕ → Bool
unfolding span_digits is_fraction
is_amount s =
    let (ds, rest) = span_digits s in leb 1 (length ds) && leb (length ds) 15 && is_fraction rest

unfoldable pub digits_value : ℕ → List ℕ → ℕ
digits_value acc [] = acc
digits_value acc (c ∷ s) = digits_value (acc * 10 + (c - b'0')) s

-- The part behind the point, in units of 10^-4.
unfoldable pub fraction_value : List ℕ → ℕ
unfolding digits_value
fraction_value (p ∷ a ∷ []) = digits_value 0 (a ∷ []) * 1000
fraction_value (p ∷ a ∷ b ∷ []) = digits_value 0 (a ∷ b ∷ []) * 100
fraction_value (p ∷ a ∷ b ∷ c ∷ []) = digits_value 0 (a ∷ b ∷ c ∷ []) * 10
fraction_value (p ∷ a ∷ b ∷ c ∷ d ∷ []) = digits_value 0 (a ∷ b ∷ c ∷ d ∷ [])
fraction_value _ = 0

-- `new Prisma.Decimal(amount)`, for a text that the pattern admits.
unfoldable pub amount_value : List ℕ → ℕ
unfolding span_digits digits_value fraction_value
amount_value s = let (ds, rest) = span_digits s in digits_value 0 ds * 10_000 + fraction_value rest

unfoldable pub decimal_places : ℕ → ℕ
decimal_places v =
    if v % 10_000 == 0
    then 0
    else if v % 1000 == 0
    then 1
    else if v % 100 == 0
    then 2
    else if v % 10 == 0
    then 3
    else 4

unfoldable pub validate_amount : List ℕ → Currency → Result ℕ
validate_amount amount currency =
    let value = amount_value amount in
    if not (is_amount amount)
    then err invalid_request
    else if ltb (decimals currency) (decimal_places value)
    then err invalid_request
    else if ltb value (bound_min currency)
    then err amount_too_low
    else if ltb (bound_max currency) value
    then err amount_too_high
    else ok value

-- The decimal numeral of a number below 10 ^ fuel.
unfoldable pub digits_of : ℕ → ℕ → List ℕ
digits_of zero n = []
digits_of (suc fuel) n =
    let rest = digits_of fuel (n / 10) in
    if ltb n 10 then (n + b'0') ∷ [] else rest ++ (n % 10 + b'0') ∷ []

-- `value.toFixed(BOUNDS[currency].decimals)`, for values below 10 ^ 15.
unfoldable pub format_amount : Rounding → ℕ → Currency → List ℕ
unfolding digits_of
format_amount r v khr = digits_of 15 (r.half_up v 10_000)
format_amount r v usd =
    let cents = r.half_up v 100 in
    digits_of 15 (cents / 100) ++ b'.' ∷ (cents / 10 % 10 + b'0') ∷ (cents % 10 + b'0') ∷ []
