-- ===== src/Loyalty/Sweep.antt =====
-- A sweep of expiries can be run again (`expireForStore`, `expireCustomer` of
-- apps/api/src/loyalty/loyalty.service.ts).
use mathlib.Core.Path.{subst}
use pay_kh.Prelude.{
  ℕ, suc, ◌-◌, ◌≤◌, false, ◌≡◌, ◌≢◌, refl, sym, ap, ◌∙◌, ◌⊎◌, inl, inr, ◌||◌, Option, none, some,
  List, [], ◌∷◌, ok, arith, ◌==◌, lookup, insert, lookup-insert_self, lookup-insert_ne,
  lookup-insert, Bool-cases, Option-cases, Result-cases, All,
}
use pay_kh.Decimal.{Rounding}
use pay_kh.Ledger.Points.{expire}
use pay_kh.Loyalty.{Customer, PointsTransaction, LoyaltyDb, negated, is_logged, move_points}
use pay_kh.Loyalty.Reconciled.{move_points_writes, move_points_total}
use pay_kh.Loyalty.Expiry.{at_risk_before, at_risk_before_le, log_of, expire_customer, expire_each}

-- Each customer's row stands under its id.
abbrev pub IsKeyed : LoyaltyDb → Type 0
IsKeyed db = (id : ℕ) (c : Customer) → lookup id db.customers ≡ some c → c.id ≡ id

-- What would expire of a customer's points.
abbrev at_risk_of : (cutoff : ℕ) → Option Customer → List PointsTransaction → ℕ
at_risk_of cutoff none txns = 0
at_risk_of cutoff (some c) txns = at_risk_before txns c.points_balance cutoff

abbrev pub due : (cutoff id : ℕ) → LoyaltyDb → ℕ
due cutoff id db = at_risk_of cutoff (lookup id db.customers) (log_of id db.txns)

insert-IsKeyed :
    (id : ℕ) (written : Customer) (db db' : LoyaltyDb)
    → db'.customers ≡ insert written.id written db.customers
    → IsKeyed db
    → IsKeyed db'
insert-IsKeyed id written db db' e keyed j c h =
    let at = lookup-insert written.id j written db.customers in
    let row : lookup j (insert written.id written db.customers) ≡ some c =
      ap (lookup j) (sym e) ∙ h in
    ground (arith, keyed j c)

-- An expiry is consumption: it takes from what is at risk what it took.
expiry_spends :
    (cutoff id n balance : ℕ) (t : PointsTransaction) (ts : List PointsTransaction)
    → t.customer_id ≡ id
    → t.points ≡ negated n
    → n ≡ at_risk_before (log_of id ts) balance cutoff
    → at_risk_before (log_of id (t ∷ ts)) (balance - n) cutoff ≡ 0
unfolding at_risk_before
expiry_spends cutoff id n balance t ts mine spent all =
    let same : log_of id (t ∷ ts) ≡ t ∷ log_of id ts = ground arith in rw same (ground arith)

expiry_of_other :
    (id : ℕ) (t : PointsTransaction) (ts : List PointsTransaction)
    → t.customer_id ≢ id
    → log_of id (t ∷ ts) ≡ log_of id ts
expiry_of_other id t ts ne = ground arith

-- No row of the log has an id from this one on.
abbrev pub AreNewFrom : ℕ → LoyaltyDb → Type 0
AreNewFrom t db = (k : ℕ) → t ≤ k → is_logged k db.txns ≡ false

module _ (round : Rounding) (now cutoff : ℕ) where
  nothing_due :
      (id t : ℕ) (db : LoyaltyDb)
      → due cutoff id db ≡ 0
      → expire_customer round now id cutoff t db ≡ ok (0, db)
  unfolding expire_customer
  nothing_due id t db h = ground arith

  -- Either nothing is written, or what was due is taken in one movement.
  expire_customer_writes :
      (id t : ℕ) (db : LoyaltyDb) {n : ℕ} {db' : LoyaltyDb}
      → expire_customer round now id cutoff t db ≡ ok (n, db')
      → ((db' ≡ db) × (due cutoff id db ≡ 0))
        ⊎ ((c : Customer) × (lookup id db.customers ≡ some c)
            × (move_points round now expire expire t c.store_id none
                  (negated (due cutoff id db))
                  (record c { points_balance = c.points_balance - due cutoff id db })
                  db
                ≡ ok db'))
  unfolding expire_customer
  expire_customer_writes id t db {n} {db'} h = elim (Option-cases (lookup id db.customers)) [
    | inl missing ↦ inl (ground arith, ground arith)
    | inr (c, found) ↦
        let k = at_risk_before (log_of id db.txns) c.points_balance cutoff in
        elim (Bool-cases ((c.points_balance == 0) || (k == 0))) [
          | inl none_due ↦ inl (
            ground arith,
            ground (arith, at_risk_before_le (log_of id db.txns) c.points_balance cutoff),
          )
          | inr some_due ↦
              let written : Customer = record c { points_balance = c.points_balance - k } in
              elim (Result-cases
                (move_points round now expire expire t c.store_id none (negated k) written db)) [
                  | inl (e, refused) ↦ absurd (ground arith)
                  | inr (d, moves) ↦
                      inr (
                        c,
                        found,
                        let same : d ≡ db' = ground arith in rw found (moves ∙ ap ok same),
                      )
                ]
        ]
  ]

  -- The customer who was expired has nothing left that is due, and the others have what they had.
  expire_customer_settles :
      (id t : ℕ) (db : LoyaltyDb) {n : ℕ} {db' : LoyaltyDb}
      → IsKeyed db
      → expire_customer round now id cutoff t db ≡ ok (n, db')
      → IsKeyed db'
        × (due cutoff id db' ≡ 0)
        × ((other : ℕ) → id ≢ other → due cutoff other db' ≡ due cutoff other db)
  expire_customer_settles id t db {n} {db'} keyed h = elim (expire_customer_writes id t db h) [
    | inl (same, none_due) ↦
        (rw same keyed, rw same none_due, λ other ne. ap (due cutoff other) same)
    | inr (c, found, moves) ↦
        let k = due cutoff id db in
        let written : Customer = record c { points_balance = c.points_balance - k } in
        let (_, customers, txns, _, _) =
          move_points_writes round now expire expire t c.store_id none (negated k) written db
            moves in
        let key = keyed id c found in
        let row : lookup id db'.customers ≡ some written =
          ap (λ j. lookup j db'.customers) (sym key)
          ∙ ap (lookup c.id) customers
          ∙ lookup-insert_self c.id written db.customers in
        let txn : PointsTransaction = record {
          id = t;
          customer_id = c.id;
          type = expire;
          points = negated k;
          payment_id = none;
          created_at = now;
        } in
        let all : k ≡ at_risk_before (log_of id db.txns) c.points_balance cutoff =
          ap (λ o. at_risk_of cutoff o (log_of id db.txns)) found in
        (
          insert-IsKeyed id written db db' customers keyed,
          ap (λ o. at_risk_of cutoff o (log_of id db'.txns)) row
              ∙ ap (λ ts. at_risk_before (log_of id ts) (c.points_balance - k) cutoff) txns
              ∙ expiry_spends cutoff id k c.points_balance txn db.txns key refl all,
          λ other ne.
              ap (at_risk_of cutoff (lookup other db'.customers))
                (ap (log_of other) txns ∙ expiry_of_other other txn db.txns (λ e. ne (sym key ∙ e)))
              ∙ ap (λ o. at_risk_of cutoff o (log_of other db.txns))
                  (ap (lookup other) customers
                    ∙ lookup-insert_ne c.id other written db.customers (λ e. ne (sym key ∙ e))),
        )
  ]

  expire_customer_total :
      (id t : ℕ) (db : LoyaltyDb)
      → is_logged t db.txns ≡ false
      → (n : ℕ) × (db' : LoyaltyDb) × (expire_customer round now id cutoff t db ≡ ok (n, db'))
  unfolding expire_customer
  expire_customer_total id t db new =
      elim (Result-cases (expire_customer round now id cutoff t db)) [
        | inr ((n, db'), done) ↦ (n, db', done)
        | inl (e, refused) ↦ elim (Option-cases (lookup id db.customers)) [
          | inl missing ↦ absurd (ground arith)
          | inr (c, found) ↦
              let k = at_risk_before (log_of id db.txns) c.points_balance cutoff in
              let (js, moves) =
                move_points_total round now expire expire t c.store_id none (negated k)
                  (record c { points_balance = c.points_balance - k }) db new in
              absurd (ground arith)
        ]
      ]

  -- The ids after that of the movement are as they were.
  expire_customer_ids :
      (id t : ℕ) (db : LoyaltyDb) {n : ℕ} {db' : LoyaltyDb}
      → expire_customer round now id cutoff t db ≡ ok (n, db')
      → AreNewFrom t db
      → AreNewFrom (suc t) db'
  unfolding is_logged
  expire_customer_ids id t db {n} {db'} h new k le =
      let old = new k (omega arith) in
      elim (expire_customer_writes id t db h) [
        | inl (same, none_due) ↦ rw same old
        | inr (c, found, moves) ↦
            let (_, _, txns, _, _) =
              move_points_writes round now expire expire t c.store_id none
                (negated (due cutoff id db))
                (record c { points_balance = c.points_balance - due cutoff id db }) db moves in
            rw txns (ground arith)
      ]

  -- What a sweep over some customers leaves, from a database to one.
  abbrev Settles : List ℕ → LoyaltyDb → LoyaltyDb → Type 0
  Settles ids db db' =
      IsKeyed db'
      × ((other : ℕ) → due cutoff other db ≡ 0 → due cutoff other db' ≡ 0)
      × All (λ id. due cutoff id db' ≡ 0) ids

  expire_each-Settles :
      (ids : List ℕ) (t : ℕ) (db : LoyaltyDb)
      → IsKeyed db
      → AreNewFrom t db
      → Settles ids db (expire_each round now cutoff ids t db).2
  unfolding expire_each
  expire_each-Settles [] t db keyed new = (keyed, λ other h. h, tt)
  expire_each-Settles (id ∷ ids) t db keyed new =
      let (n, mid, done) = expire_customer_total id t db (new t (omega arith)) in
      let (keyed1, none_due, others) = expire_customer_settles id t db keyed done in
      let (keyed2, kept, rest) =
        expire_each-Settles ids (suc t) mid keyed1 (expire_customer_ids id t db done new) in
      let same : (expire_each round now cutoff (id ∷ ids) t db).2
          ≡ (expire_each round now cutoff ids (suc t) mid).2 =
        rw done refl in
      subst (Settles (id ∷ ids) db) (sym same) (
        keyed2,
        λ other h. kept other (elim (Bool-cases (id == other)) [
          | inl same ↦ let e : id ≡ other = ground arith in rw (← e) none_due
          | inr differ ↦ others other (ground arith) ∙ h
        ]),
        (kept id none_due, rest),
      )

  nothing_due_each :
      (ids : List ℕ) (t : ℕ) (db : LoyaltyDb)
      → All (λ id. due cutoff id db ≡ 0) ids
      → expire_each round now cutoff ids t db ≡ (0, 0, db)
  unfolding expire_each
  nothing_due_each [] t db h = refl
  nothing_due_each (id ∷ ids) t db h =
      rw (nothing_due id t db h.0) (rw (nothing_due_each ids (suc t) db h.1) refl)

  -- A second sweep of expiries over the same customers, with the same cutoff and under any ids, takes
  -- nothing and changes nothing, where each customer's row stands under its id and the ids of the
  -- first sweep's movements are new.
  pub expire_each_again :
      (ids : List ℕ) (t t' : ℕ) (db : LoyaltyDb)
      → IsKeyed db
      → AreNewFrom t db
      → let (_, _, db') = expire_each round now cutoff ids t db in
        expire_each round now cutoff ids t' db' ≡ (0, 0, db')
  expire_each_again ids t t' db keyed new =
      let (_, _, settled) = expire_each-Settles ids t db keyed new in
      nothing_due_each ids t' _ settled
