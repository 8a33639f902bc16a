-- ===== src/Types/Lifecycle.antt =====
-- The two lifecycles of packages/shared-types/src/index.ts as graphs: an order that every edge
-- climbs, so that no status is entered twice, and what can still be reached.
use pay_kh.Prelude.{ℕ, ◌<◌, ◌≡◌, ◌≢◌, refl, ◌⊎◌, inl, true, false, arith, includes}
use pay_kh.Types.{
  PaymentStatus, pending, scanned, paid, expired, failed, cancelled, refunded, can_transition,
  ValueTxnStatus, confirmed, reversed, can_transition_value, settled_value_statuses,
  in_flight_value_statuses, value_status_code,
}

-- How far a payment has come.
abbrev pub rank : PaymentStatus → ℕ
rank pending = 0
rank scanned = 1
rank expired = 2
rank paid = 3
rank failed = 4
rank cancelled = 4
rank refunded = 4

-- Every allowed transition of a payment leads to a status of higher rank.
pub can_transition-rank : (s t : PaymentStatus) → can_transition s t ≡ true → rank s < rank t
unfolding can_transition
can_transition-rank s t h = ground arith

-- A status reached by any number of allowed transitions.
pub data Reach (s : PaymentStatus) : PaymentStatus → Type 0 where
  here : Reach s s
  next : {t u : PaymentStatus} → Reach s t → can_transition t u ≡ true → Reach s u

Reach-rank : {s t : PaymentStatus} → Reach s t → (s ≡ t) ⊎ (rank s < rank t)
Reach-rank here = inl refl
Reach-rank (next {t} {u} r h) = ground (arith, Reach-rank r, can_transition-rank t u h)

-- A payment that has left a status by an allowed transition can never come back to it.
pub Reach-no_return : {s t u : PaymentStatus} → can_transition s t ≡ true → Reach t u → u ≢ s
Reach-no_return {s} {t} {u} h r e = ground (arith, can_transition-rank s t h, Reach-rank r)

-- What can be reached from a paid payment is only `paid` and `refunded`.
pub Reach-paid : {t : PaymentStatus} → Reach paid t → (t ≡ paid) ⊎ (t ≡ refunded)
unfolding can_transition
Reach-paid here = inl refl
Reach-paid (next r h) = ground (arith, Reach-paid r)

-- Value that can be spent is not in flight, and can still be reversed.
pub settled_not_in_flight :
    (s : ValueTxnStatus)
    → includes value_status_code settled_value_statuses s ≡ true
    → (includes value_status_code in_flight_value_statuses s ≡ false)
      × (can_transition_value s reversed ≡ true)
unfolding can_transition_value
settled_not_in_flight s h = ground arith

-- The statuses that are listed as in flight are those that can still become `confirmed`.
pub in_flight_confirms :
    (s : ValueTxnStatus)
    → includes value_status_code in_flight_value_statuses s ≡ can_transition_value s confirmed
unfolding can_transition_value
in_flight_confirms s = ground arith
