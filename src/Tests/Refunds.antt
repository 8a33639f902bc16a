-- ===== src/Tests/Refunds.antt =====
-- Runs of refunds at concrete inputs.
use pay_kh.Prelude.{
  ℕ, ◌≡◌, refl, true, none, some, List, [], ◌∷◌, err, idempotency_conflict, arith, lookup, insert,
}
use pay_kh.Types.{paid}
use pay_kh.Payments.{Payment, Db, RefundRow, find_scoped}
use pay_kh.Payments.Refund.{RefundRequest, answered, prepare_refund, reserve, refund_amount}
use pay_kh.Payments.RefundSafety.{
  IsCovered, IsBalanced, Event, reserve_refund, run_events, refunds_of, refunds_within_amount,
  second_refund_refused,
}
use pay_kh.Money.{validate_amount, is_amount, amount_value, decimal_places}
use pay_kh.Tests.Payments.{ten_dollars}

abbrev captured : Payment
captured = record ten_dollars { status = paid; paid_at = some 100 }

abbrev one_captured : Db
one_captured = record { payments = (1, captured) ∷ []; history = []; refunds = [] }

-- "6.00" twice, both read before either is written.
abbrev six_dollars : List ℕ
six_dollars = b'6' ∷ b'.' ∷ b'0' ∷ b'0' ∷ []

abbrev two_refunds : List Event
two_refunds =
    reserve_refund captured (some six_dollars) 21
    ∷ reserve_refund captured (some six_dollars) 22
    ∷ []

at_one :
    (p : Payment) (id : ℕ) → lookup id one_captured.payments ≡ some p → (id ≡ 1) × (p ≡ captured)
unfolding lookup
at_one p id h = ground arith

captured-IsCovered : IsCovered 1 [] captured
unfolding refunds_of
captured-IsCovered = record { within = omega arith; tallied = refl }

one_captured-IsBalanced : IsBalanced one_captured
one_captured-IsBalanced id p h = let (i, e) = at_one p id h in rw (i, e) captured-IsCovered

reads_captured :
    (p : Payment) → lookup 1 one_captured.payments ≡ some p → captured.amount ≡ p.amount
reads_captured p h = ground (arith, at_one p 1 h)

refunds_within_amount_example : IsBalanced (run_events two_refunds one_captured)
refunds_within_amount_example =
    refunds_within_amount two_refunds one_captured (reads_captured, (reads_captured, tt))
      one_captured-IsBalanced

abbrev request : ℕ → RefundRequest
request refund_id = record {
  store_id = 7;
  payment_id = 1;
  amount = some six_dollars;
  slot = none;
  request_hash = 5;
  refund_id = refund_id;
  answer = answered true;
}

abbrev first_refund : RefundRow
first_refund = record { id = 21; payment_id = 1; amount = 60_000 }

abbrev after_first : Db
after_first = record {
  payments = (1, record captured { refunded_amount = 60_000 }) ∷ [];
  history = record { payment_id = 1; from_status = some paid; to_status = paid } ∷ [];
  refunds = first_refund ∷ [];
}

second_refund_refused_example :
    ((request 21).answer ≡ answered true)
    × ((request 22).answer ≡ answered true)
    × (reserve captured 60_000 22 after_first ≡ err idempotency_conflict)
unfolding prepare_refund reserve find_scoped lookup refund_amount validate_amount is_amount
    decimal_places amount_value insert
second_refund_refused_example =
    second_refund_refused (request 21) (request 22) one_captured {seen = captured}
      {seen' = captured} {value = 60_000} {value' = 60_000} {r = first_refund} {status = 201}
      {db' = after_first} refl refl refl refl
