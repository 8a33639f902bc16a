-- ===== src/Loyalty/Reconciled.antt =====
-- The three books of loyalty points, and what one movement does to them (`mutateIn` and the other
-- writers of apps/api/src/loyalty/loyalty.service.ts).
use pay_kh.Prelude.{
  ℕ, suc, ◌≡◌, ◌≢◌, refl, sym, ap, ◌∙◌, inl, inr, false, true, err, internal_error, Option, some,
  List, [], ◌∷◌, ok, arith, ◌==◌, if◌then◌else◌, ==_refl, lookup, insert, lookup-insert_ne,
  lookup-insert_self, Bool-cases, Result-cases,
}
use pay_kh.Prelude.Int.{ℤ, pos, ◌+ℤ◌, int_laws}
use pay_kh.Decimal.{Rounding}
use pay_kh.Ledger.{Journal, is_posted, alone}
use pay_kh.Ledger.Points.{
  MovementType, movement_event, post_points_movement, points_balance_for, in_column,
  movement_changes_balance, posting_total,
}
use pay_kh.Loyalty.{Customer, PointsTransaction, LoyaltyDb, is_logged, move_points}

-- The sum of a customer's rows in the log.
unfoldable pub log_total : ℕ → List PointsTransaction → ℤ
log_total id [] = pos 0
log_total id (t ∷ ts) = if t.customer_id == id then t.points +ℤ log_total id ts else log_total id ts

-- For a customer's row: the balance, the log and the ledger agree.
pub record AgreesOn (id : ℕ) (c : Customer) (db : LoyaltyDb) : Type 0 where
  pub keyed : c.id ≡ id
  pub logged : log_total id db.txns ≡ pos c.points_balance
  pub booked : points_balance_for id db.journals ≡ in_column (pos c.points_balance)

abbrev pub IsReconciled : LoyaltyDb → Type 0
IsReconciled db = (id : ℕ) (c : Customer) → lookup id db.customers ≡ some c → AgreesOn id c db

-- No journal of points stands under the id yet, as of an id that was just generated.
abbrev pub IsFresh : ℕ → LoyaltyDb → Type 0
IsFresh txn_id db =
    (type : MovementType)
    → is_posted (movement_event type) (record { id = txn_id; suffix = alone }) db.journals ≡ false

module _ (round : Rounding) (type : MovementType) (txn_id store_id customer_id : ℕ) (delta : ℤ)
    (journals : List Journal) {journals' : List Journal}
    (new : is_posted (movement_event type) (record { id = txn_id; suffix = alone }) journals
      ≡ false)
    (posted : post_points_movement round type txn_id store_id customer_id delta journals
      ≡ ok journals') where
  booked_self :
      points_balance_for customer_id journals'
      ≡ points_balance_for customer_id journals +ℤ in_column delta
  booked_self =
      let (js, e, self, _) =
        movement_changes_balance round type txn_id store_id customer_id (suc customer_id) delta
          journals (λ e. omega arith) new in
      let same : js ≡ journals' = ground arith in rw (← same) self

  booked_other :
      (other : ℕ)
      → customer_id ≢ other
      → points_balance_for other journals' ≡ points_balance_for other journals
  booked_other other ne =
      let (js, e, _, rest) =
        movement_changes_balance round type txn_id store_id customer_id other delta journals ne
          new in
      let same : js ≡ journals' = ground arith in rw (← same) rest

in_column_add : (a b c : ℤ) → c ≡ a +ℤ b → in_column a +ℤ in_column b ≡ in_column c
in_column_add a b c h = rw h (grind int_laws)

+ℤ_comm : (a b : ℤ) → a +ℤ b ≡ b +ℤ a
+ℤ_comm a b = grind int_laws

-- A posting of a movement never fails.
pub movement_posts :
    (round : Rounding) (type : MovementType) (txn_id store_id customer_id : ℕ) (delta : ℤ)
    (journals : List Journal)
    → is_posted (movement_event type) (record { id = txn_id; suffix = alone }) journals ≡ false
    → (js : List Journal) × (post_points_movement round type txn_id store_id customer_id delta
          journals
        ≡ ok js)
movement_posts round type txn_id store_id customer_id delta journals new =
    let (js, e, _, _) =
      movement_changes_balance round type txn_id store_id customer_id (suc customer_id) delta
        journals (λ e. omega arith) new in
    (js, e)

-- What a movement writes.
pub move_points_writes :
    (round : Rounding) (now : ℕ) (log_type posting : MovementType) (txn_id store_id : ℕ)
    (payment_id : Option ℕ) (delta : ℤ) (written : Customer) (db : LoyaltyDb) {db' : LoyaltyDb}
    → move_points round now log_type posting txn_id store_id payment_id delta written db ≡ ok db'
    → (post_points_movement round posting txn_id store_id written.id delta db.journals
        ≡ ok db'.journals)
      × (db'.customers ≡ insert written.id written db.customers)
      × (db'.txns
          ≡ record {
            id = txn_id;
            customer_id = written.id;
            type = log_type;
            points = delta;
            payment_id = payment_id;
            created_at = now;
          }
            ∷ db.txns)
      × (db'.rewards ≡ db.rewards)
      × (db'.redemptions ≡ db.redemptions)
unfolding move_points
move_points_writes round now log_type posting txn_id store_id payment_id delta written db h =
    elim (Result-cases
      (post_points_movement round posting txn_id store_id written.id delta db.journals)) [
        | inl (e, failed) ↦ absurd (ground arith)
        | inr (js, posted) ↦ (ground arith, ground arith, ground arith, ground arith, ground arith)
      ]

-- A row that a movement was computed from stands in the table as the movement finds it.
pub record Follows (delta : ℤ) (written : Customer) (db : LoyaltyDb) : Type 0 where
  pub seen : Customer
  pub reads : lookup written.id db.customers ≡ some seen
  pub moved : pos written.points_balance ≡ pos seen.points_balance +ℤ delta

module _ (round : Rounding) (now : ℕ) (log_type posting : MovementType) (txn_id store_id : ℕ)
    (payment_id : Option ℕ) (delta : ℤ) (written : Customer) (db : LoyaltyDb) {db' : LoyaltyDb}
    (before : IsReconciled db) (fresh : IsFresh txn_id db)
    (moves : move_points round now log_type posting txn_id store_id payment_id delta written db
      ≡ ok db') where
  moved_row : Follows delta written db → AgreesOn written.id written db'
  unfolding log_total
  moved_row follows =
      let (posts, e, l, _, _) =
        move_points_writes round now log_type posting txn_id store_id payment_id delta written db
          moves in
      let old = before written.id follows.seen follows.reads in
      record {
        keyed = refl;
        logged =
            rw (l, follows.moved, ==_refl written.id, old.logged)
              (+ℤ_comm delta (pos follows.seen.points_balance));
        booked =
            booked_self round posting txn_id store_id written.id delta db.journals (fresh posting)
              posts
            ∙ ap (λ x. x +ℤ in_column delta) old.booked
            ∙ in_column_add (pos follows.seen.points_balance) delta (pos written.points_balance)
                follows.moved;
      }

  other_row :
      (id : ℕ) (c : Customer)
      → written.id ≢ id
      → lookup id db'.customers ≡ some c
      → AgreesOn id c db'
  unfolding log_total
  other_row id c ne h =
      let (posts, e, l, _, _) =
        move_points_writes round now log_type posting txn_id store_id payment_id delta written db
          moves in
      let unmoved : lookup id db.customers ≡ some c =
        sym (lookup-insert_ne written.id id written db.customers ne) ∙ ap (lookup id) (sym e) ∙ h in
      let old = before id c unmoved in
      record {
        keyed = old.keyed;
        logged = rw l (ground (arith, old.logged));
        booked =
            booked_other round posting txn_id store_id written.id delta db.journals (fresh posting)
              posts id ne
            ∙ old.booked;
      }

  -- A movement keeps all rows in agreement.
  pub move_points-IsReconciled : Follows delta written db → IsReconciled db'
  move_points-IsReconciled follows id c h = elim (Bool-cases (written.id == id)) [
    | inl same ↦
        let (_, e, _, _, _) =
          move_points_writes round now log_type posting txn_id store_id payment_id delta written db
            moves in
        let same_id : written.id ≡ id = ground arith in
        let found = ap (lookup written.id) e ∙ lookup-insert_self written.id written db.customers in
        let row : c ≡ written = ground (arith, found, h, same_id) in
        rw (row, ← same_id) (moved_row follows)
    | inr other ↦ other_row id c (ground arith) h
  ]

-- The rewards and the redemptions take no part.
pub IsReconciled-rewards :
    (db db' : LoyaltyDb)
    → db'.customers ≡ db.customers
    → db'.txns ≡ db.txns
    → db'.journals ≡ db.journals
    → IsReconciled db
    → IsReconciled db'
IsReconciled-rewards db db' customers txns journals before id c h =
    let old = before id c (ap (lookup id) (sym customers) ∙ h) in
    record { keyed = old.keyed; logged = rw txns old.logged; booked = rw journals old.booked }

module _ (round : Rounding) (now : ℕ) where
  pub move_points_taken :
      (log_type posting : MovementType) (txn_id store_id : ℕ) (payment_id : Option ℕ) (delta : ℤ)
      (written : Customer) (db : LoyaltyDb)
      → is_logged txn_id db.txns ≡ true
      → move_points round now log_type posting txn_id store_id payment_id delta written db
        ≡ err internal_error
  unfolding move_points
  move_points_taken log_type posting txn_id store_id payment_id delta written db taken =
      rw (move_points, taken) refl

  -- A movement under a new id is never refused.
  pub move_points_total :
      (log_type posting : MovementType) (txn_id store_id : ℕ) (payment_id : Option ℕ) (delta : ℤ)
      (written : Customer) (db : LoyaltyDb)
      → is_logged txn_id db.txns ≡ false
      → (js : List Journal) × (move_points round now log_type posting txn_id store_id payment_id
            delta written db
          ≡ ok (record db {
            customers = insert written.id written db.customers;
            txns =
                record {
                  id = txn_id;
                  customer_id = written.id;
                  type = log_type;
                  points = delta;
                  payment_id = payment_id;
                  created_at = now;
                }
                ∷ db.txns;
            journals = js;
          }))
  unfolding move_points
  move_points_total log_type posting txn_id store_id payment_id delta written db new =
      let (js, posts) = posting_total round posting txn_id store_id written.id delta db.journals in
      (js, ground arith)
