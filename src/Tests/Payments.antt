-- ===== src/Tests/Payments.antt =====
-- Runs of the payment lifecycle at concrete inputs.
use pay_kh.Prelude.{
  includes, ℕ, ◌≤◌, ◌≡◌, ◌≢◌, refl, Bool, true, false, none, some, List, [], ◌∷◌, ok, arith, lookup,
  insert,
}
use pay_kh.Types.{pending, paid, refunded, can_transition, test, usd}
use pay_kh.Types.{
  confirmed, reversed, value_status_code, in_flight_value_statuses, can_transition_value,
}
use pay_kh.Types.Lifecycle.{in_flight_confirms, here, Reach-no_return}
use pay_kh.Payments.{
  Payment, Db, Effect, record_paid, transition_from, transition, effects_of, fire,
}
use pay_kh.Payments.Moves.{IsSoundRow, IsSound, transition_from-IsSound}
use pay_kh.Payments.Once.{
  Call, run_calls, times_paid, paid_at_most_once, settled_never_paid, retry_sets_off_nothing,
}

abbrev pub ten_dollars : Payment
ten_dollars = record {
  id = 1;
  store_id = 7;
  mode = test;
  status = pending;
  amount = 100_000;
  currency = usd;
  coupon = none;
  gift_card = none;
  customer_id = none;
  refunded_amount = 0;
  expires_at = 900;
  paid_at = none;
}

abbrev one_payment : Db
one_payment = record { payments = (1, ten_dollars) ∷ []; history = []; refunds = [] }

-- A poller and a webhook, both of which read the payment while it was pending.
abbrev two_calls : List Call
two_calls =
    record { seen = ten_dollars; to = paid; now = 100 }
    ∷ record { seen = ten_dollars; to = paid; now = 101 }
    ∷ []

both_paid : run_calls two_calls one_payment ≡ (1, paid) ∷ []
unfolding run_calls transition_from can_transition lookup insert
both_paid = refl

paid_at_most_once_example : times_paid 1 (run_calls two_calls one_payment) ≤ 1
paid_at_most_once_example = paid_at_most_once 1 two_calls one_payment

abbrev paid_payment : Payment
paid_payment = record ten_dollars { status = paid; paid_at = some 100 }

abbrev one_paid : Db
one_paid = record one_payment { payments = (1, paid_payment) ∷ [] }

settled_never_paid_run : times_paid 1 (run_calls two_calls one_paid) ≡ 0
unfolding lookup
settled_never_paid_run =
    settled_never_paid 1 two_calls one_paid {p = paid_payment} refl (omega arith)

at_one :
    (p : Payment) (id : ℕ) → lookup id one_payment.payments ≡ some p → (id ≡ 1) × (p ≡ ten_dollars)
unfolding lookup
at_one p id h = ground arith

ten_dollars-IsSoundRow : IsSoundRow ten_dollars
ten_dollars-IsSoundRow = record { reached = here; stamped = λ h e. ground arith }

one_payment-IsSound : IsSound one_payment
one_payment-IsSound = record {
  sound = λ id p h. rw (at_one p id h).1 ten_dollars-IsSoundRow;
  keyed = λ id p h. ground (arith, at_one p id h);
}

transition_from-IsSound_example : IsSound (record one_payment {
  payments = (1, paid_payment) ∷ [];
  history = record { payment_id = 1; from_status = some pending; to_status = paid } ∷ [];
})
unfolding transition_from lookup insert can_transition
transition_from-IsSound_example =
    transition_from-IsSound ten_dollars paid 100 one_payment {b = true} {p = paid_payment}
      one_payment-IsSound ten_dollars-IsSoundRow refl

-- The counter of paid orders is down.
abbrev counter_down : Effect → Bool
counter_down (record_paid s) = true
counter_down _ = false

abbrev nothing_down : Effect → Bool
nothing_down e = false

retry_sets_off_nothing_example :
    let o =
      transition nothing_down 200 1 paid (transition counter_down 100 1 paid one_payment).db in
    (o.db ≡ (transition counter_down 100 1 paid one_payment).db)
    × (o.effects ≡ [])
    × ((p : Payment) × (o.result ≡ ok p))
unfolding transition lookup insert can_transition effects_of fire
retry_sets_off_nothing_example =
    retry_sets_off_nothing counter_down nothing_down 100 200 1 paid one_payment one_payment-IsSound
      refl

Reach-no_return_run : refunded ≢ paid
unfolding can_transition
Reach-no_return_run = Reach-no_return {s = paid} {t = refunded} {u = refunded} refl here

in_flight_confirms_run :
    includes value_status_code in_flight_value_statuses reversed
    ≡ can_transition_value reversed confirmed
in_flight_confirms_run = in_flight_confirms reversed
