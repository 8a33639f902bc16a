-- ===== src/Money/Digits.antt =====
-- Decimal numerals: what is printed is digits only, and reads back as the number.
use pay_kh.Prelude.{
  ℕ, zero, suc, ◌+◌, ◌-◌, ◌*◌, ◌/◌, ◌^◌, ◌≤◌, ◌<◌, ◌≡◌, refl, true, List, [], ◌∷◌, ◌++◌, arith,
  length, length-append, inl, inr, Bool-cases, ltb, All, All-append,
}
use native.Mathlib.Nat.{pow-suc}
use pay_kh.Money.{is_digit, span_digits, digits_value, digits_of}

pub digits_value-append :
    (acc : ℕ) (s : List ℕ) (c : ℕ)
    → digits_value acc (s ++ c ∷ []) ≡ digits_value acc s * 10 + (c - b'0')
unfolding digits_value
digits_value-append acc [] c = refl
digits_value-append acc (d ∷ s) c = digits_value-append (acc * 10 + (d - b'0')) s c

digits_value-digit : (n : ℕ) → digits_value 0 ((n + b'0') ∷ []) ≡ n
unfolding digits_value
digits_value-digit n = omega arith

-- With fuel for its length a number is read back from its numeral.
pub digits_value-digits_of : (fuel n : ℕ) → n < 10 ^ fuel → digits_value 0 (digits_of fuel n) ≡ n
unfolding digits_of digits_value
digits_value-digits_of zero n h = omega arith
digits_value-digits_of (suc fuel) n h = elim (Bool-cases (ltb n 10)) [
  | inl small ↦ rw small (ground (arith, digits_value-digit n))
  | inr large ↦
      let below : n / 10 < 10 ^ fuel = omega (arith, pow-suc 10 fuel) in
      rw (large, digits_value-append)
        (rw (digits_value-digits_of fuel (n / 10) below) (omega arith))
]

pub digits_of-All : (fuel n : ℕ) → All (λ c. is_digit c ≡ true) (digits_of fuel n)
unfolding digits_of is_digit
digits_of-All zero n = tt
digits_of-All (suc fuel) n = elim (Bool-cases (ltb n 10)) [
  | inl small ↦ rw small (ground arith, tt)
  | inr large ↦ rw large (
      All-append (λ c. is_digit c ≡ true) (digits_of fuel (n / 10)) _ (digits_of-All fuel (n / 10))
        (ground arith, tt))
]

pub length-digits_of :
    (fuel n : ℕ) → (0 < fuel → 0 < length (digits_of fuel n)) × (length (digits_of fuel n) ≤ fuel)
unfolding digits_of
length-digits_of zero n = (λ h. h, omega arith)
length-digits_of (suc fuel) n = elim (Bool-cases (ltb n 10)) [
  | inl small ↦ rw small (omega arith)
  | inr large ↦ rw (large, length-append) (omega (arith, (length-digits_of fuel (n / 10)).1))
]

pub span_digits-append :
    (ds rest : List ℕ)
    → All (λ c. is_digit c ≡ true) ds
    → span_digits rest ≡ ([], rest)
    → span_digits (ds ++ rest) ≡ (ds, rest)
unfolding span_digits
span_digits-append [] rest h e = e
span_digits-append (d ∷ ds) rest (p, h) e = rw (p, span_digits-append ds rest h e) refl
