-- ===== src/Payments/RefundSafety.antt =====
-- Refunds under concurrency (`refund` and `transition` of
-- apps/api/src/payments/payments.service.ts).
use mathlib.Core.Path.{subst}
use pay_kh.Prelude.{
  sym, ap, ==_refl, All, ℕ, ◌+◌, ◌≤◌, ◌<◌, ◌≡◌, ◌≢◌, refl, ◌∙◌, inl, inr, Bool, true, false, Option,
  some, List, [], ◌∷◌, Result, ok, err, arith, ◌==◌, if◌then◌else◌, ==_iff, sum_by, lookup, insert,
  lookup-insert, lookup-insert_self, Option-cases, Bool-cases, Result-cases, idempotency_conflict,
}
use pay_kh.Types.{PaymentStatus}
use pay_kh.Payments.{Payment, RefundRow, Db, claim, transition_from, find_scoped}
use pay_kh.Payments.Moves.{claim_row, transition_from_moved, transition_from_kept}
use pay_kh.Payments.Once.{Call, db_after}
use pay_kh.Payments.Refund.{refund_amount, reserve, prepare_refund, RefundRequest, answered}

-- The sum of a payment's refunds.
unfoldable pub refunds_of : ℕ → List RefundRow → ℕ
refunds_of id = sum_by (λ r. if r.payment_id == id then r.amount else 0)

-- For a row: what is counted as refunded is within the amount and is the sum of its refunds.
pub record IsCovered (id : ℕ) (refunds : List RefundRow) (p : Payment) : Type 0 where
  pub within : p.refunded_amount ≤ p.amount
  pub tallied : p.refunded_amount ≡ refunds_of id refunds

abbrev pub IsBalanced : Db → Type 0
IsBalanced db = (id : ℕ) (p : Payment) → lookup id db.payments ≡ some p → IsCovered id db.refunds p

-- What a request can do to the tables, with a payment that it read at any earlier time.
pub data Event : Type 0 where
  move : Call → Event
  reserve_refund : (seen : Payment) (amount : Option (List ℕ)) (refund_id : ℕ) → Event

unfoldable pub state_of : Db → Result (RefundRow × ℕ × Db) → Db
state_of db (ok (r, status, db')) = db'
state_of db (err e) = db

unfoldable pub run_event : Event → Db → Db
unfolding state_of
run_event (move c) db = db_after db (transition_from c.seen c.to c.now db)
run_event (reserve_refund seen amount refund_id) db = elim (refund_amount seen amount) [
  | err e ↦ db
  | ok value ↦ state_of db (reserve seen value refund_id db)
]

-- What was read is a payment whose amount is that of the row: amounts are never changed.
abbrev pub ReadAmount : Payment → Db → Type 0
ReadAmount seen db = (p : Payment) → lookup seen.id db.payments ≡ some p → seen.amount ≡ p.amount

abbrev pub IsRead : Event → Db → Type 0
IsRead (move c) db = Unit
IsRead (reserve_refund seen amount refund_id) db = ReadAmount seen db

-- No row changes its amount, and no row appears.
abbrev pub KeepsAmounts : Db → Db → Type 0
KeepsAmounts db db' =
    (id : ℕ) (p : Payment)
    → lookup id db'.payments ≡ some p
    → (q : Payment) × (lookup id db.payments ≡ some q) × (p.amount ≡ q.amount)

refund_amount_bound :
    (seen : Payment) (amount : Option (List ℕ)) {value : ℕ}
    → refund_amount seen amount ≡ ok value
    → (0 < value) × (seen.refunded_amount + value ≤ seen.amount)
unfolding refund_amount
refund_amount_bound seen amount h = ground arith

claim_amounts :
    (seen : Payment) (to : PaymentStatus) (now : ℕ) (db : Db) {moved : Payment} {db' : Db}
    → claim seen to now db ≡ some (moved, db')
    → (row : Payment) × (lookup seen.id db.payments ≡ some row)
      × (moved.amount ≡ row.amount)
      × (moved.refunded_amount ≡ row.refunded_amount)
unfolding claim
claim_amounts seen to now db h = elim (Option-cases (lookup seen.id db.payments)) [
  | inl missing ↦ absurd (ground arith)
  | inr (row, found) ↦ (row, found, ground arith, ground arith)
]

-- The lock of `reserve`: it goes through only on the refunded amount that was read.
reserve_row :
    (seen : Payment) (value refund_id : ℕ) (db : Db) {r : RefundRow} {status : ℕ} {db' : Db}
    → reserve seen value refund_id db ≡ ok (r, status, db')
    → (row p : Payment) × (lookup seen.id db.payments ≡ some row)
      × (row.refunded_amount ≡ seen.refunded_amount)
      × (p.amount ≡ row.amount)
      × (p.refunded_amount ≡ seen.refunded_amount + value)
      × (db'.payments ≡ insert seen.id p db.payments)
      × (db'.refunds ≡ record { id = refund_id; payment_id = seen.id; amount = value } ∷ db.refunds)
unfolding reserve
reserve_row seen value refund_id db h = elim (Option-cases (lookup seen.id db.payments)) [
  | inl missing ↦ absurd (ground arith)
  | inr (row, found) ↦ (
    row,
    record row { refunded_amount = seen.refunded_amount + value },
    found,
    ground arith,
    refl,
    refl,
    ground arith,
    ground arith,
  )
]

-- A write of one row keeps the balance of all, if the new row is covered and the refunds of the
-- other payments are as they were.
insert-IsBalanced :
    (k : ℕ) (p : Payment) (db db' : Db)
    → IsBalanced db
    → db'.payments ≡ insert k p db.payments
    → IsCovered k db'.refunds p
    → ((id : ℕ) → k ≢ id → refunds_of id db'.refunds ≡ refunds_of id db.refunds)
    → IsBalanced db'
insert-IsBalanced k p db db' h w covered others id q found = elim (Bool-cases (k == id)) [
  | inl same ↦
      let e : k ≡ id = (==_iff k id).0 same in
      let pq : p ≡ q = ground (arith, at) in
      subst (λ j. IsCovered j db'.refunds q) e (subst (IsCovered k db'.refunds) pq covered)
  | inr other ↦
      let ne : k ≢ id = λ e. ground arith in
      let c = h id q (ground (arith, at)) in
      record { within = c.within; tallied = c.tallied ∙ sym (others id ne) }
]
  where
    at : lookup id db'.payments ≡ (if k == id then some p else lookup id db.payments)
    at = rw w (lookup-insert k id p db.payments)

insert_amounts :
    (k : ℕ) (row p : Payment) (db db' : Db)
    → lookup k db.payments ≡ some row
    → p.amount ≡ row.amount
    → db'.payments ≡ insert k p db.payments
    → KeepsAmounts db db'
insert_amounts k row p db db' there same w id q found = elim (Bool-cases (k == id)) [
  | inl here ↦
      let e : k ≡ id = (==_iff k id).0 here in
      let pq : p ≡ q = ground (arith, at) in (row, rw (← e) there, rw (← pq) same)
  | inr other ↦ (q, ground (arith, at), refl)
]
  where
    at : lookup id db'.payments ≡ (if k == id then some p else lookup id db.payments)
    at = rw w (lookup-insert k id p db.payments)

KeepsAmounts-refl : (db : Db) → KeepsAmounts db db
KeepsAmounts-refl db id p found = (p, found, refl)

KeepsAmounts-trans : (a b c : Db) → KeepsAmounts a b → KeepsAmounts b c → KeepsAmounts a c
KeepsAmounts-trans a b c h k id p found =
    let (q, at, same) = k id p found in let (r, at', same') = h id q at in (r, at', same ∙ same')

-- What an event must keep.
abbrev Keeps : Db → Db → Type 0
Keeps db db' = IsBalanced db' × KeepsAmounts db db'

moved-Keeps :
    (c : Call) (db : Db) (r : Result (Bool × Payment × Db))
    → transition_from c.seen c.to c.now db ≡ r
    → IsBalanced db
    → Keeps db (db_after db r)
unfolding db_after
moved-Keeps c db (err e) eq h = (h, KeepsAmounts-refl db)
moved-Keeps c db (ok (false, p, db')) eq h =
    let (_, same) = transition_from_kept c.seen c.to c.now db eq in
    rw same (h, KeepsAmounts-refl db)
moved-Keeps c db (ok (true, p, db')) eq h =
    let (_, claimed) = transition_from_moved c.seen c.to c.now db eq in
    let (row, found, amount, refunded) = claim_amounts c.seen c.to c.now db claimed in
    let (_, _, _, _, _, _, w, r) = claim_row c.seen c.to c.now db claimed in
    let covered = h c.seen.id row found in
    (
      insert-IsBalanced c.seen.id p db db' h w
          (record {
            within = rw (amount, refunded) covered.within;
            tallied = rw (refunded, r) covered.tallied;
          })
          (λ id ne. ap (refunds_of id) r),
      insert_amounts c.seen.id row p db db' found amount w,
    )

reserved-Keeps :
    (seen : Payment) (value refund_id : ℕ) (db : Db) (r : Result (RefundRow × ℕ × Db))
    → reserve seen value refund_id db ≡ r
    → seen.refunded_amount + value ≤ seen.amount
    → ReadAmount seen db
    → IsBalanced db
    → Keeps db (state_of db r)
unfolding state_of refunds_of
reserved-Keeps seen value refund_id db (err e) eq bound read h = (h, KeepsAmounts-refl db)
reserved-Keeps seen value refund_id db (ok (r, status, db')) eq bound read h =
    let (row, p, found, locked, amount, refunded, w, rs) = reserve_row seen value refund_id db eq in
    let covered = h seen.id row found in
    let same = read row found in
    (
      insert-IsBalanced seen.id p db db' h w
          (record { within = omega arith; tallied = rw rs (ground (arith, ==_refl seen.id)) })
          (λ id ne. rw rs (ground arith)),
      insert_amounts seen.id row p db db' found amount w,
    )

run_event-Keeps : (e : Event) (db : Db) → IsRead e db → IsBalanced db → Keeps db (run_event e db)
unfolding run_event
run_event-Keeps (move c) db read h = moved-Keeps c db (transition_from c.seen c.to c.now db) refl h
run_event-Keeps (reserve_refund seen amount refund_id) db read h =
    elim (Result-cases (refund_amount seen amount)) [
      | inl (e, refused) ↦ rw (refused, run_event) (h, KeepsAmounts-refl db)
      | inr (value, granted) ↦
          rw (granted, run_event)
            (reserved-Keeps seen value refund_id db (reserve seen value refund_id db) refl
              (refund_amount_bound seen amount granted).1 read h)
    ]

unfoldable pub run_events : List Event → Db → Db
run_events [] db = db
run_events (e ∷ es) db = run_events es (run_event e db)

IsRead-later : (e : Event) (a b : Db) → KeepsAmounts a b → IsRead e a → IsRead e b
IsRead-later (move c) a b k h = tt
IsRead-later (reserve_refund seen amount refund_id) a b k h =
    λ p found. let (q, at, same) = k seen.id p found in h q at ∙ sym same

run_events_keep :
    (es : List Event) (a db : Db)
    → KeepsAmounts a db
    → All (λ e. IsRead e a) es
    → IsBalanced db
    → IsBalanced (run_events es db)
unfolding run_events
run_events_keep [] a db k reads h = h
run_events_keep (e ∷ es) a db k (read, reads) h =
    let (h', k') = run_event-Keeps e db (IsRead-later e a db k read) h in
    run_events_keep es a (run_event e db) (KeepsAmounts-trans a db (run_event e db) k k') reads h'

-- However refunds and transitions overlap, with whatever refunded amounts and statuses they had
-- read, no payment is refunded by more than its amount, and what is counted as refunded is the
-- sum of the refunds that were recorded.
pub refunds_within_amount :
    (es : List Event) (db : Db)
    → All (λ e. IsRead e db) es
    → IsBalanced db
    → IsBalanced (run_events es db)
refunds_within_amount es db reads h = run_events_keep es db db (KeepsAmounts-refl db) reads h

prepared :
    (q : RefundRequest) (db : Db) {seen : Payment} {value : ℕ}
    → prepare_refund q db ≡ ok (seen, value)
    → (q.answer ≡ answered true)
      × (find_scoped q.store_id q.payment_id db ≡ ok seen)
      × (refund_amount seen q.amount ≡ ok value)
unfolding prepare_refund
prepared q db h = ground arith

scoped :
    (store_id id : ℕ) (db : Db) {p : Payment}
    → find_scoped store_id id db ≡ ok p
    → lookup id db.payments ≡ some p
unfolding find_scoped
scoped store_id id db h = ground arith

stale_refused :
    (seen : Payment) (value refund_id : ℕ) (db : Db) {row : Payment}
    → lookup seen.id db.payments ≡ some row
    → row.refunded_amount ≢ seen.refunded_amount
    → reserve seen value refund_id db ≡ err idempotency_conflict
unfolding reserve
stale_refused seen value refund_id db found stale = ground arith

-- Of two refunds that were prepared on one state of a payment, the one that comes second to its
-- transaction is refused, although the provider has made both.
pub second_refund_refused :
    (q q' : RefundRequest) (db : Db) {seen seen' : Payment} {value value' : ℕ} {r : RefundRow}
    {status : ℕ} {db' : Db}
    → prepare_refund q db ≡ ok (seen, value)
    → prepare_refund q' db ≡ ok (seen', value')
    → q.payment_id ≡ q'.payment_id
    → reserve seen value q.refund_id db ≡ ok (r, status, db')
    → (q.answer ≡ answered true)
      × (q'.answer ≡ answered true)
      × (reserve seen' value' q'.refund_id db' ≡ err idempotency_conflict)
second_refund_refused q q' db {seen} {seen'} {value} {value'} {db'} p p' same done =
    let (a, s, v) = prepared q db p in
    let (a', s', v') = prepared q' db p' in
    let at = scoped q.store_id q.payment_id db s in
    let at' = scoped q'.store_id q'.payment_id db s' in
    let one : seen ≡ seen' = ground arith in
    let (row, new, found, locked, amount, refunded, w, rs) =
      reserve_row seen value q.refund_id db done in
    let there : lookup seen.id db'.payments ≡ some new =
      rw w (lookup-insert_self seen.id new db.payments) in
    let (positive, _) = refund_amount_bound seen q.amount v in
    (a, a', rw (← one) (stale_refused seen value' q'.refund_id db' there (λ e. omega arith)))
