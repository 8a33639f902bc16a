-- ===== src/Tests/Statements.antt =====
-- Settlements, loyalty points and provider calls at concrete inputs.
use pay_kh.Prelude.{ℕ, zero, suc, ◌≤◌, ◌≡◌, refl, true, none, some, List, [], ◌∷◌, ok, arith, All}
use pay_kh.Prelude.Int.{pos, ◌+ℤ◌}
use pay_kh.Decimal.{rounding}
use pay_kh.Types.{paid, usd}
use pay_kh.Ledger.{Journal, is_posted}
use pay_kh.Ledger.Points.{
  earn, post_points_movement, points_balance_for, in_column, movement_changes_balance,
}
use pay_kh.Settlements.{SettlementPayment, SettlementDb, settle_group, run_for_store}
use pay_kh.Settlements.Totals.{IsSettled, settle_group-IsSettled, settle_group_again}
use pay_kh.Settlements.Batches.{run_for_store-IsSettled}
use pay_kh.Providers.{closed_breaker, Attempt, is_open, refused, with_resilience}
use pay_kh.Providers.Circuit.{IsConsistent, with_resilience_lem}

-- Customer 4 earns five points.
movement_changes_balance_run :
    (journals : List Journal) × (post_points_movement rounding earn 1 7 4 (pos 5) [] ≡ ok journals)
    × (points_balance_for 4 journals ≡ points_balance_for 4 [] +ℤ in_column (pos 5))
    × (points_balance_for 5 journals ≡ points_balance_for 5 [])
unfolding is_posted
movement_changes_balance_run =
    movement_changes_balance rounding earn 1 7 4 5 (pos 5) [] (λ e. omega arith) refl

-- Two payments of one day.
abbrev order : ℕ → ℕ → SettlementPayment
order id amount = record {
  id = id;
  store_id = 7;
  status = paid;
  currency = usd;
  amount = amount;
  refunded_amount = 0;
  paid_at = some 86_400_001;
  settlement_id = none;
}

abbrev two_orders : SettlementDb
two_orders = record { payments = order 1 100_000 ∷ order 2 50_000 ∷ []; settlements = [] }

two_orders-IsSettled : IsSettled two_orders
two_orders-IsSettled = record { gross = refl; refunds = refl; count = refl; net = refl }

abbrev within : All (λ p. p.refunded_amount ≤ p.amount) two_orders.payments
within = (omega arith, (omega arith, tt))

settle_group-IsSettled_example :
    IsSettled (settle_group rounding 30 7 100 usd 1 (1 ∷ 2 ∷ []) two_orders).1
settle_group-IsSettled_example =
    settle_group-IsSettled rounding 30 7 100 usd 1 (1 ∷ 2 ∷ []) two_orders (omega arith) within
      two_orders-IsSettled

settle_group_again_run :
    let db' = (settle_group rounding 30 7 100 usd 1 (1 ∷ 2 ∷ []) two_orders).1 in
    (settle_group rounding 31 7 100 usd 1 (1 ∷ 2 ∷ []) db').1 ≡ db'
settle_group_again_run = settle_group_again rounding 30 31 7 100 100 usd 1 (1 ∷ 2 ∷ []) two_orders

run_for_store-IsSettled_run : IsSettled (run_for_store rounding 30 7 100 172_800_000 two_orders)
run_for_store-IsSettled_run =
    run_for_store-IsSettled rounding 30 7 100 172_800_000 two_orders (omega arith) within
      two_orders-IsSettled

-- The provider times out twice and then answers.
abbrev third_answers : ℕ → Attempt ℕ
third_answers zero = record { value = none; at = 8000 }
third_answers (suc zero) = record { value = none; at = 16_200 }
third_answers (suc (suc n)) = record { value = some 1; at = 16_700 }

closed-IsConsistent : IsConsistent 5 closed_breaker
closed-IsConsistent = record { opened = λ t e. ground arith; shut = λ e. omega arith }

with_resilience_lem_example :
    let r = with_resilience 5 30_000 third_answers 2 0 closed_breaker in
    IsConsistent 5 r.1
    × (r.2 ≤ 3)
    × ((is_open 5 30_000 0 closed_breaker).0 ≡ true
        → (r.0 ≡ refused) × (r.1 ≡ closed_breaker) × (r.2 ≡ 0))
with_resilience_lem_example =
    with_resilience_lem 5 30_000 third_answers 2 0 closed_breaker (omega arith) closed-IsConsistent
