-- ===== src/Decimal.antt =====
-- Decimal numbers. A `Prisma.Decimal` that the code adds, subtracts, compares or multiplies is
-- exact; it is represented by the number of its units of 10^-4 (the column scale) or, where a
-- product has more places, of the finer unit that the definition names. Where the code rounds
-- (`toFixed`, `toDecimalPlaces`), the rounding of decimal.js, which is not part of the
-- repository, is an argument: this record, with its documented behaviour.
use pay_kh.Prelude.{ℕ, ◌+◌, ◌*◌, ◌/◌, ◌≤◌, ◌<◌, ◌≡◌, arith}

pub record Rounding : Type 0 where
  -- The whole number nearest to `n / d`, a tie going up: `ROUND_HALF_UP`, the default.
  pub half_up : ℕ → ℕ → ℕ
  pub half_up_nearest :
      (n d : ℕ) → 0 < d → (2 * (half_up n d * d) ≤ 2 * n + d) × (2 * n < 2 * (half_up n d * d) + d)
  -- The whole part of `n / d`: `ROUND_DOWN` of a number that is not negative.
  pub down : ℕ → ℕ → ℕ
  pub down_floor : (n d : ℕ) → 0 < d → (down n d * d ≤ n) × (n < down n d * d + d)

-- A whole number is rounded to itself.
module _ (r : Rounding) where
  pub half_up_exact : (q d : ℕ) → 0 < d → r.half_up (q * d) d ≡ q
  half_up_exact q d h = grind (arith, r.half_up_nearest (q * d) d h)

  pub down_exact : (q d : ℕ) → 0 < d → r.down (q * d) d ≡ q
  down_exact q d h = grind (arith, r.down_floor (q * d) d h)

-- A rounding that behaves so.
pub half_up_of_div :
    (n d : ℕ)
    → 0 < d
    → (2 * ((2 * n + d) / (2 * d) * d) ≤ 2 * n + d) × (2 * n < 2 * ((2 * n + d) / (2 * d) * d) + d)
half_up_of_div n d h = grind arith

pub down_of_div : (n d : ℕ) → 0 < d → (n / d * d ≤ n) × (n < n / d * d + d)
down_of_div n d h = grind arith

abbrev pub rounding : Rounding
rounding = record {
  half_up = λ n d. (2 * n + d) / (2 * d);
  half_up_nearest = half_up_of_div;
  down = λ n d. n / d;
  down_floor = down_of_div;
}
