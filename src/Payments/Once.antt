-- ===== src/Payments/Once.antt =====
-- Concurrent transitions: pollers, webhooks, sweeps and API calls each read a payment at some time
-- and write later, in any order (`transition` of apps/api/src/payments/payments.service.ts).
use pay_kh.Prelude.{
  ℕ, ◌+◌, ◌≤◌, ◌<◌, ◌≡◌, ◌≢◌, refl, inl, inr, Bool, true, false, ◌&&◌, Option, none, some, List, [],
  ◌∷◌, Result, ok, err, arith, lookup, insert, lookup-insert, ltb, ◌==◌, if◌then◌else◌,
  Option-cases, Bool-cases, internal_error, Table, ==_iff, lookup-insert_self,
}
use pay_kh.Types.{PaymentStatus, paid, status_code}
use pay_kh.Types.Lifecycle.{rank, can_transition-rank}
use pay_kh.Payments.{Payment, Db, Effect, transition_from, transition_tx, transition}
use pay_kh.Payments.Moves.{claim_row, transition_from_moved, transition_from_kept, IsSound}

-- One caller's transaction: the payment that it read, at any time before, and where it moves it.
pub record Call : Type 0 where
  pub seen : Payment
  pub to : PaymentStatus
  pub now : ℕ

-- What the transaction announces: the payment and its new status, or nothing.
unfoldable pub emitted_by : Call → Result (Bool × Payment × Db) → List (ℕ × PaymentStatus)
emitted_by c (ok (true, p, db)) = (c.seen.id, c.to) ∷ []
emitted_by c (ok (false, p, db)) = []
emitted_by c (err e) = []

unfoldable pub db_after : Db → Result (Bool × Payment × Db) → Db
db_after db (ok (b, p, db')) = db'
db_after db (err e) = db

-- The transactions in the order in which they commit: what they announce.
unfoldable pub run_calls : List Call → Db → List (ℕ × PaymentStatus)
unfolding emitted_by db_after
run_calls [] db = []
run_calls (c ∷ cs) db =
    let r = transition_from c.seen c.to c.now db in
    let rest = run_calls cs (db_after db r) in
    elim (emitted_by c r) [ [] ↦ rest | e ∷ _ ↦ e ∷ rest ]

-- How often payment `id` was announced as paid; each announcement fires the paid effects.
unfoldable pub times_paid : ℕ → List (ℕ × PaymentStatus) → ℕ
times_paid id [] = 0
times_paid id ((j, to) ∷ es) =
    (if (j == id) && (status_code to == status_code paid) then 1 else 0) + times_paid id es

-- 1 as long as the payment can still become paid.
room : Option Payment → ℕ
room none = 0
room (some p) = if ltb (rank p.status) (rank paid) then 1 else 0

paid_of_rank : (s : PaymentStatus) → rank s ≡ rank paid → s ≡ paid
paid_of_rank s h = ground arith

moved_uses_room :
    (id k : ℕ) (to : PaymentStatus) (row p : Payment) (t : Table Payment)
    → lookup k t ≡ some row
    → rank row.status < rank to
    → p.status ≡ to
    → times_paid id ((k, to) ∷ []) + room (lookup id (insert k p t)) ≤ room (lookup id t)
unfolding times_paid room
moved_uses_room id k to row p t found up st = elim (Bool-cases (k == id)) [
  | inl same ↦
      let e : k ≡ id = (==_iff k id).0 same in rw (lookup-insert, same, ← e, found) (ground arith)
  | inr other ↦ rw (lookup-insert, other) (omega arith)
]

step_uses_room :
    (id : ℕ) (c : Call) (db : Db) (r : Result (Bool × Payment × Db))
    → transition_from c.seen c.to c.now db ≡ r
    → times_paid id (emitted_by c r) + room (lookup id (db_after db r).payments)
      ≤ room (lookup id db.payments)
unfolding emitted_by db_after times_paid
step_uses_room id c db (err e) h = omega arith
step_uses_room id c db (ok (false, p, db')) h =
    let (_, same) = transition_from_kept c.seen c.to c.now db h in rw same (omega arith)
step_uses_room id c db (ok (true, p, db')) h =
    let (legal, claimed) = transition_from_moved c.seen c.to c.now db h in
    let (row, found, was, st, _, _, w, _) = claim_row c.seen c.to c.now db claimed in
    rw w (
      moved_uses_room id c.seen.id c.to row p db.payments found
        (rw was (can_transition-rank c.seen.status c.to legal)) st)

times_paid-cons :
    (id : ℕ) (l rest : List (ℕ × PaymentStatus))
    → times_paid id (elim l [ [] ↦ rest | e ∷ _ ↦ e ∷ rest ]) ≤ times_paid id l + times_paid id rest
unfolding times_paid
times_paid-cons id [] rest = omega arith
times_paid-cons id (e ∷ l) rest = omega arith

run_uses_room :
    (id : ℕ) (cs : List Call) (db : Db)
    → times_paid id (run_calls cs db) ≤ room (lookup id db.payments)
unfolding run_calls times_paid
run_uses_room id [] db = omega arith
run_uses_room id (c ∷ cs) db =
    let r = transition_from c.seen c.to c.now db in
    omega (
      arith,
      times_paid-cons id (emitted_by c r) (run_calls cs (db_after db r)),
      step_uses_room id c db r refl,
      run_uses_room id cs (db_after db r),
    )

room-le : (o : Option Payment) → room o ≤ 1
unfolding room
room-le none = omega arith
room-le (some p) = ground arith

-- In any interleaving of transactions, with whatever each of them had read before, a payment is
-- announced as paid at most once, so its paid effects are set off at most once.
pub paid_at_most_once : (id : ℕ) (cs : List Call) (db : Db) → times_paid id (run_calls cs db) ≤ 1
paid_at_most_once id cs db = omega (arith, run_uses_room id cs db, room-le (lookup id db.payments))

-- And never again once it is paid, refunded, failed or cancelled.
pub settled_never_paid :
    (id : ℕ) (cs : List Call) (db : Db) {p : Payment}
    → lookup id db.payments ≡ some p
    → rank paid ≤ rank p.status
    → times_paid id (run_calls cs db) ≡ 0
unfolding room
settled_never_paid id cs db found h = ground (arith, run_uses_room id cs db)

tx_refusals :
    (id : ℕ) (to : PaymentStatus) (now : ℕ) (db : Db)
    → transition_tx id to now db ≢ err internal_error
unfolding transition_tx
tx_refusals id to now db h = ground arith

-- The transaction a second time finds the payment where the first has put it.
tx_again :
    (id : ℕ) (to : PaymentStatus) (now now' : ℕ) (db : Db) {p : Payment} {db' : Db}
    → IsSound db
    → transition_tx id to now db ≡ ok (true, p, db')
    → transition_tx id to now' db' ≡ ok (false, p, db')
unfolding transition_tx
tx_again id to now now' db {p} {db'} s h = elim (Option-cases (lookup id db.payments)) [
  | inl missing ↦ absurd (ground arith)
  | inr (seen, found) ↦
      let moved : transition_from seen to now db ≡ ok (true, p, db') = ground arith in
      let (_, claimed) = transition_from_moved seen to now db moved in
      let (row, _, _, st, _, _, w, _) = claim_row seen to now db claimed in
      ground (arith, s.keyed id seen found, lookup-insert_self seen.id p db.payments)
]

-- A transition whose effects were cut short has committed, and asking for it again succeeds and
-- sets off nothing: the effects that did not run are lost.
pub retry_sets_off_nothing :
    (fails fails' : Effect → Bool) (now now' : ℕ) (id : ℕ) (to : PaymentStatus) (db : Db)
    → IsSound db
    → (transition fails now id to db).result ≡ err internal_error
    → let o = transition fails' now' id to (transition fails now id to db).db in
      (o.db ≡ (transition fails now id to db).db)
      × (o.effects ≡ [])
      × ((p : Payment) × (o.result ≡ ok p))
unfolding transition
retry_sets_off_nothing fails fails' now now' id to db s = go (transition_tx id to now db) refl
  where
    go :
        (r : Result (Bool × Payment × Db))
        → transition_tx id to now db ≡ r
        → (transition fails now id to db).result ≡ err internal_error
        → let o = transition fails' now' id to (transition fails now id to db).db in
          (o.db ≡ (transition fails now id to db).db)
          × (o.effects ≡ [])
          × ((p : Payment) × (o.result ≡ ok p))
    go (err e) tx h = absurd (ground (arith, tx_refusals id to now db))
    go (ok (false, p, db')) tx h = absurd (ground arith)
    go (ok (true, p, db')) tx h =
        let again = tx_again id to now now' db s tx in
        (ground arith, ground arith, (p, ground arith))
