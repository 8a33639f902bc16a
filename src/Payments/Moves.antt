-- ===== src/Payments/Moves.antt =====
-- What `transition` and the methods above it do to the payment row, for a payment that was read
-- at any earlier time (apps/api/src/payments/payments.service.ts).
use mathlib.Core.Path.{subst}
use pay_kh.Prelude.{
  ℕ, ◌≡◌, ◌≢◌, ◌∙◌, ◌⊎◌, inl, inr, Bool, true, false, none, some, ok, arith, lookup, insert,
  lookup-insert, ◌==◌, if◌then◌else◌, Option-cases, Bool-cases,
}
use pay_kh.Types.{PaymentStatus, pending, paid, refunded, can_transition, status_code}
use pay_kh.Types.Lifecycle.{Reach, next}
use pay_kh.Payments.{Payment, Db, claim, transition_from}

-- A row that the lifecycle can have produced: its status is reachable from `pending`, and a
-- payment that was paid has the instant of it.
pub record IsSoundRow (p : Payment) : Type 0 where
  pub reached : Reach pending p.status
  pub stamped : (p.status ≡ paid) ⊎ (p.status ≡ refunded) → p.paid_at ≢ none

-- Every row is sound and stands under its own id.
pub record IsSound (db : Db) : Type 0 where
  pub sound : (id : ℕ) (p : Payment) → lookup id db.payments ≡ some p → IsSoundRow p
  pub keyed : (id : ℕ) (p : Payment) → lookup id db.payments ≡ some p → p.id ≡ id

-- A claim that succeeds found the row in the status that was read.
pub claim_row :
    (seen : Payment) (to : PaymentStatus) (now : ℕ) (db : Db) {moved : Payment} {db' : Db}
    → claim seen to now db ≡ some (moved, db')
    → (row : Payment) × (lookup seen.id db.payments ≡ some row)
      × (row.status ≡ seen.status)
      × (moved.status ≡ to)
      × (moved.id ≡ row.id)
      × (moved.paid_at ≡ (if status_code to == status_code paid then some now else seen.paid_at))
      × (db'.payments ≡ insert seen.id moved db.payments)
      × (db'.refunds ≡ db.refunds)
unfolding claim
claim_row seen to now db h = elim (Option-cases (lookup seen.id db.payments)) [
  | inl missing ↦ absurd (ground arith)
  | inr (row, found) ↦ (
    row,
    found,
    ground arith,
    ground arith,
    ground arith,
    ground arith,
    ground arith,
    ground arith,
  )
]

-- The tests of `transition`: its write is a legal move of a row in the status that was read.
pub transition_from_moved :
    (seen : Payment) (to : PaymentStatus) (now : ℕ) (db : Db) {p : Payment} {db' : Db}
    → transition_from seen to now db ≡ ok (true, p, db')
    → (can_transition seen.status to ≡ true) × (claim seen to now db ≡ some (p, db'))
unfolding transition_from
transition_from_moved seen to now db h = ground arith

-- Otherwise nothing is written.
pub transition_from_kept :
    (seen : Payment) (to : PaymentStatus) (now : ℕ) (db : Db) {p : Payment} {db' : Db}
    → transition_from seen to now db ≡ ok (false, p, db')
    → (p ≡ seen) × (db' ≡ db)
unfolding transition_from
transition_from_kept seen to now db h = ground arith

refunded_from : (s : PaymentStatus) → can_transition s refunded ≡ true → s ≡ paid
unfolding can_transition
refunded_from s h = ground arith

-- The row that a legal move writes is sound.
moved-IsSoundRow :
    (seen moved : Payment) (to : PaymentStatus) (now : ℕ)
    → IsSoundRow seen
    → can_transition seen.status to ≡ true
    → moved.status ≡ to
    → moved.paid_at ≡ (if status_code to == status_code paid then some now else seen.paid_at)
    → IsSoundRow moved
moved-IsSoundRow seen moved to now s legal st at = record {
  reached = rw st (next s.reached legal);
  stamped = stamps;
}
  where
    stamps : (moved.status ≡ paid) ⊎ (moved.status ≡ refunded) → moved.paid_at ≢ none
    stamps (inl e) none_at = ground arith
    stamps (inr e) none_at =
        let was : seen.status ≡ paid = refunded_from seen.status (rw (← e, st) legal) in
        s.stamped (inl was) (ground arith)

insert-IsSound :
    (id : ℕ) (p : Payment) (db db' : Db)
    → IsSound db
    → IsSoundRow p
    → p.id ≡ id
    → db'.payments ≡ insert id p db.payments
    → IsSound db'
insert-IsSound id p db db' h hp e w = record { sound = sounds; keyed = keys }
  where
    at : (j : ℕ) → lookup j db'.payments ≡ (if id == j then some p else lookup j db.payments)
    at j = rw w (lookup-insert id j p db.payments)

    sounds : (j : ℕ) (q : Payment) → lookup j db'.payments ≡ some q → IsSoundRow q
    sounds j q found = elim (Bool-cases (id == j)) [
      | inl same ↦ let pq : p ≡ q = ground (arith, at j) in subst IsSoundRow pq hp
      | inr other ↦ h.sound j q (ground (arith, at j))
    ]

    keys : (j : ℕ) (q : Payment) → lookup j db'.payments ≡ some q → q.id ≡ j
    keys j q found = elim (Bool-cases (id == j)) [
      | inl same ↦ ground (arith, at j)
      | inr other ↦ h.keyed j q (ground (arith, at j))
    ]

-- Whatever the caller read before, as long as it was a sound row, a transition that goes through
-- leaves every row sound: each status is reached from `pending` by allowed transitions, and
-- every payment that is or was paid has its `paidAt`.
pub transition_from-IsSound :
    (seen : Payment) (to : PaymentStatus) (now : ℕ) (db : Db) {b : Bool} {p : Payment} {db' : Db}
    → IsSound db
    → IsSoundRow seen
    → transition_from seen to now db ≡ ok (b, p, db')
    → IsSound db'
transition_from-IsSound seen to now db {b = false} h s e =
    rw (transition_from_kept seen to now db e).1 h
transition_from-IsSound seen to now db {b = true} {p} {db'} h s e =
    let (legal, claimed) = transition_from_moved seen to now db e in
    let (row, found, _, st, same, at, w, _) = claim_row seen to now db claimed in
    insert-IsSound seen.id p db db' h (moved-IsSoundRow seen p to now s legal st at)
      (same ∙ h.keyed seen.id row found) w
