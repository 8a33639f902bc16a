-- ===== src/Money/RoundTrip.antt =====
-- What `validateAmount` accepts, and that it reads back what `formatAmount` prints
-- (apps/api/src/payments/amount.util.ts).
use mathlib.Core.List.{append-nil}
use pay_kh.Prelude.{
  ap, ◌∙◌, ℕ, ◌+◌, ◌*◌, ◌/◌, ◌%◌, ◌^◌, ◌≤◌, ◌<◌, ◌≡◌, refl, true, List, [], ◌∷◌, ◌++◌, arith,
  length, All, ok,
}
use pay_kh.Types.{Currency, usd, khr}
use pay_kh.Decimal.{Rounding, half_up_exact}
use pay_kh.Money.{
  bound_min, bound_max, decimals, is_digit, span_digits, is_fraction, is_amount, digits_value,
  fraction_value, amount_value, decimal_places, validate_amount, digits_of, format_amount,
}
use pay_kh.GiftCards.{minor_unit}
use pay_kh.Money.Digits.{
  digits_value-digits_of, digits_of-All, length-digits_of, span_digits-append,
}

-- An amount that the currency can carry: within its bounds, and no finer than its minor unit.
pub record IsCharge (v : ℕ) (c : Currency) : Type 0 where
  pub at_least : bound_min c ≤ v
  pub at_most : v ≤ bound_max c
  pub no_finer : decimal_places v ≤ decimals c

-- Every amount that is accepted is one that the currency can carry.
pub validate_amount-IsCharge :
    (s : List ℕ) (c : Currency) {v : ℕ} → validate_amount s c ≡ ok v → IsCharge v c
unfolding validate_amount
validate_amount-IsCharge s c h = ground arith

accepted :
    (s : List ℕ) (c : Currency) (v : ℕ)
    → is_amount s ≡ true
    → amount_value s ≡ v
    → IsCharge v c
    → validate_amount s c ≡ ok v
unfolding validate_amount
accepted s c v shape value h = ground arith

-- A numeral and a fraction put together have the shape of an amount, and the value of both.
joined :
    (ds rest : List ℕ)
    → All (λ c. is_digit c ≡ true) ds
    → 0 < length ds
    → length ds ≤ 15
    → is_fraction rest ≡ true
    → span_digits rest ≡ ([], rest)
    → (is_amount (ds ++ rest) ≡ true)
      × (amount_value (ds ++ rest) ≡ digits_value 0 ds * 10_000 + fraction_value rest)
unfolding is_amount amount_value
joined ds rest all pos short frac stop =
    rw (span_digits-append ds rest all stop) (ground arith, refl)

numeral :
    (n : ℕ) (rest : List ℕ)
    → n < 10 ^ 15
    → is_fraction rest ≡ true
    → span_digits rest ≡ ([], rest)
    → (is_amount (digits_of 15 n ++ rest) ≡ true)
      × (amount_value (digits_of 15 n ++ rest) ≡ n * 10_000 + fraction_value rest)
numeral n rest h frac stop =
    let (some_digit, short) = length-digits_of 15 n in
    let (shape, value) =
      joined (digits_of 15 n) rest (digits_of-All 15 n) (some_digit (omega arith)) short frac
        stop in
    (
      shape,
      value ∙ ap (λ (t : ℕ). t * 10_000 + fraction_value rest) (digits_value-digits_of 15 n h),
    )

whole_riel : (v : ℕ) → decimal_places v ≤ 0 → v ≡ v / 10_000 * 10_000
unfolding decimal_places
whole_riel v h = ground arith

whole_cents : (v : ℕ) → decimal_places v ≤ 2 → v ≡ v / 100 * 100
unfolding decimal_places
whole_cents v h = ground arith

-- The two digits of the cents.
abbrev cents_text : ℕ → List ℕ
cents_text n = b'.' ∷ (n / 10 % 10 + b'0') ∷ (n % 10 + b'0') ∷ []

cents_text_lem :
    (n : ℕ)
    → (is_fraction (cents_text n) ≡ true)
      × (span_digits (cents_text n) ≡ ([], cents_text n))
      × (fraction_value (cents_text n) ≡ n % 100 * 100)
unfolding is_fraction span_digits fraction_value
cents_text_lem n = (ground arith, refl, omega arith)

no_fraction : (is_fraction [] ≡ true) × (span_digits [] ≡ ([], [])) × (fraction_value [] ≡ 0)
unfolding is_fraction span_digits fraction_value
no_fraction = (refl, refl, refl)

-- What is printed of a number that is no finer than the currency has the shape of an amount, and
-- that value.
printed :
    (r : Rounding) (v : ℕ) (c : Currency)
    → v ≤ bound_max c
    → decimal_places v ≤ decimals c
    → (is_amount (format_amount r v c) ≡ true) × (amount_value (format_amount r v c) ≡ v)
unfolding format_amount
printed r v khr most fine =
    let q = v / 10_000 in
    let e = whole_riel v fine in
    let exact : r.half_up v 10_000 ≡ q =
      ap (λ t. r.half_up t 10_000) e ∙ half_up_exact r q 10_000 (omega arith) in
    let (frac, stop, nothing) = no_fraction in
    let (shape, value) = numeral q [] (omega arith) frac stop in
    let text : digits_of 15 q ++ [] ≡ digits_of 15 q = append-nil _ in
    rw exact (rw text at shape, rw text at value ∙ omega arith)
printed r v usd most fine =
    let n = v / 100 in
    let e = whole_cents v fine in
    let exact : r.half_up v 100 ≡ n =
      ap (λ t. r.half_up t 100) e ∙ half_up_exact r n 100 (omega arith) in
    let (frac, stop, cents) = cents_text_lem n in
    let (shape, value) = numeral (n / 100) (cents_text n) (omega arith) frac stop in
    rw exact (shape, value ∙ omega arith)

-- What is printed of an amount that the currency can carry is accepted, and is that amount.
pub validate_amount-format_amount :
    (r : Rounding) (v : ℕ) (c : Currency)
    → IsCharge v c
    → validate_amount (format_amount r v c) c ≡ ok v
validate_amount-format_amount r v c h =
    let (shape, value) = printed r v c h.at_most h.no_finer in
    accepted (format_amount r v c) c v shape value h

-- What is accepted is the value of the text.
accepted_value :
    (s : List ℕ) (c : Currency) {v : ℕ} → validate_amount s c ≡ ok v → v ≡ amount_value s
unfolding validate_amount
accepted_value s c h = ground arith

pub reread :
    (r : Rounding) (v : ℕ) (c : Currency) {a : ℕ}
    → v ≤ bound_max c
    → decimal_places v ≤ decimals c
    → validate_amount (format_amount r v c) c ≡ ok a
    → a ≡ v
reread r v c most fine h =
    let (_, value) = printed r v c most fine in accepted_value (format_amount r v c) c h ∙ value

-- An amount that is no finer than the currency is a number of its smallest units, and conversely.
pub whole_units :
    (v : ℕ) (c : Currency) → decimal_places v ≤ decimals c → (n : ℕ) × (v ≡ n * minor_unit c)
whole_units v khr fine = (v / 10_000, whole_riel v fine)
whole_units v usd fine = (v / 100, whole_cents v fine)

pub units-fine : (n : ℕ) (c : Currency) → decimal_places (n * minor_unit c) ≤ decimals c
unfolding decimal_places
units-fine n khr = ground arith
units-fine n usd = ground arith
