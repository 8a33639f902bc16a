-- ===== src/Loyalty/Vouchers.antt =====
-- Vouchers, and what reads made before a transaction do to them (`redeemReward`, `cancel`,
-- `fulfill`, `mutateIn` of apps/api/src/loyalty/loyalty.service.ts).
use pay_kh.Prelude.{
  ℕ, ◌+◌, ◌-◌, ◌≡◌, ◌≤◌, refl, sym, ap, ◌∙◌, ◌⊎◌, inl, inr, true, false, ◌≢◌, Option, none, some,
  ◌∷◌, Bool-cases, ok, err, arith, ==_refl, lookup, insert, lookup-insert_self, Option-cases,
  Result-cases, invalid_request,
}
use pay_kh.Prelude.Int.{pos, ◌+ℤ◌}
use pay_kh.Access.{Caller, assert_store, store_write}
use pay_kh.Decimal.{Rounding}
use pay_kh.Ledger.Points.{redeem, adjust, redeem_reversal}
use pay_kh.Loyalty.{
  Customer, PointsTransaction, Reward, Redemption, RedemptionStatus, issued, fulfilled, cancelled,
  LoyaltyDb, is_issued, is_logged, negated, mutate_from, redeem_from, redeem_reward, refund_points,
  cancel_from, cancel, fulfill,
}
use pay_kh.Loyalty.Reconciled.{log_total, move_points_total, move_points_taken}
use pay_kh.Loyalty.Movement.{spend_points}

-- What the table of customers holds under an id.
abbrev pub balance_of : ℕ → LoyaltyDb → Option ℕ
balance_of id db = elim (lookup id db.customers) [ none ↦ none | some c ↦ some c.points_balance ]

abbrev pub status_of : ℕ → LoyaltyDb → Option RedemptionStatus
status_of id db = elim (lookup id db.redemptions) [ none ↦ none | some r ↦ some r.status ]

abbrev pub stock_of : ℕ → LoyaltyDb → Option (Option ℕ)
stock_of id db = elim (lookup id db.rewards) [ none ↦ none | some r ↦ some r.stock ]

-- One less, and one more, of a stock that is limited.
abbrev stock_less : Option ℕ → Option ℕ
stock_less none = none
stock_less (some n) = some (n - 1)

abbrev stock_more : Option ℕ → Option ℕ
stock_more none = none
stock_more (some n) = some (n + 1)

-- The voucher that is issued.
abbrev new_voucher : Reward → Customer → (redemption_id : ℕ) → Redemption
new_voucher reward c redemption_id = record {
  id = redemption_id;
  store_id = reward.store_id;
  customer_id = c.id;
  reward_id = reward.id;
  points_spent = reward.points_cost;
  status = issued;
}

module _ (round : Rounding) (now : ℕ) where
  mutate_from_total :
      (c row : Customer) (n txn_id : ℕ) (db : LoyaltyDb)
      → n ≤ c.points_balance
      → lookup c.id db.customers ≡ some row
      → row.id ≡ c.id
      → is_logged txn_id db.txns ≡ false
      → (db' : LoyaltyDb) × (mutate_from round now c redeem (negated n) txn_id db
          ≡ ok (c.points_balance - n, db'))
        × (lookup c.id db'.customers ≡ some (record row { points_balance = c.points_balance - n }))
        × (log_total c.id db'.txns ≡ negated n +ℤ log_total c.id db.txns)
        × ((k : ℕ) → txn_id ≢ k → is_logged k db.txns ≡ false → is_logged k db'.txns ≡ false)
  unfolding mutate_from log_total is_logged
  mutate_from_total c row n txn_id db le standing keyed free =
      let written : Customer = record row { points_balance = c.points_balance - n } in
      let (js, moves) =
        move_points_total round now redeem redeem txn_id c.store_id none (negated n) written db
          free in
      let new = spend_points c.points_balance n le in
      let id_is = ==_refl c.id in
      let stored : lookup c.id (insert row.id written db.customers) ≡ some written =
        ap (λ j. lookup j (insert row.id written db.customers)) (sym keyed)
        ∙ lookup-insert_self row.id written db.customers in
      elim (Result-cases (mutate_from round now c redeem (negated n) txn_id db)) [
        | inl (e, refused) ↦ absurd (ground arith)
        | inr ((balance, db'), done) ↦
            let b : balance ≡ c.points_balance - n = ground arith in
            let txn : PointsTransaction = record {
              id = txn_id;
              customer_id = row.id;
              type = redeem;
              points = negated n;
              payment_id = none;
              created_at = now;
            } in
            let l : db'.txns ≡ txn ∷ db.txns = ground arith in
            (
              db',
              done ∙ ap (λ k. ok (k, db')) b,
              ground arith,
              rw (l, keyed, id_is) refl,
              λ k ne free. rw l (ground arith),
            )
      ]

  -- Two redemptions of points that both read the balance before either writes it are both accepted
  -- where one fits, each under a new id of its own; the customer's balance falls once, and the log
  -- has both.
  pub double_spend :
      (c : Customer) (n t1 t2 : ℕ) (db : LoyaltyDb)
      → n ≤ c.points_balance
      → lookup c.id db.customers ≡ some c
      → is_logged t1 db.txns ≡ false
      → is_logged t2 db.txns ≡ false
      → t1 ≢ t2
      → (db1 : LoyaltyDb) × (db2 : LoyaltyDb) × (mutate_from round now c redeem (negated n) t1 db
          ≡ ok (c.points_balance - n, db1))
        × (mutate_from round now c redeem (negated n) t2 db1 ≡ ok (c.points_balance - n, db2))
        × (balance_of c.id db2 ≡ some (c.points_balance - n))
        × (log_total c.id db2.txns ≡ negated n +ℤ (negated n +ℤ log_total c.id db.txns))
  double_spend c n t1 t2 db le read new1 new2 ne =
      let (db1, first, row1, log1, ids) = mutate_from_total c c n t1 db le read refl new1 in
      let (db2, second, row, log2, _) =
        mutate_from_total c _ n t2 db1 le row1 refl (ids t2 ne new2) in
      (db1, db2, first, second, ground arith, log2 ∙ ap (λ x. negated n +ℤ x) log1)

  cancel_closes :
      (user : Caller) (id t : ℕ) (db : LoyaltyDb) (r : Redemption) {db' : LoyaltyDb}
      → lookup id db.redemptions ≡ some r
      → r.id ≡ id
      → cancel round now user id t db ≡ ok db'
      → (is_issued r.status ≡ true)
        × (lookup id db'.redemptions ≡ some (record r { status = cancelled }))
  unfolding cancel cancel_from refund_points
  cancel_closes user id t db r {db'} found keyed h =
      elim (Option-cases (lookup r.customer_id db.customers)) [
        | inl missing ↦ absurd (ground arith)
        | inr (c, standing) ↦
            let written : Customer = record c {
              points_balance = c.points_balance + r.points_spent;
            } in
            let new : is_logged t db.txns ≡ false = elim (Bool-cases (is_logged t db.txns)) [
              | inr free ↦ free
              | inl taken ↦
                  let refused =
                    move_points_taken round now adjust redeem_reversal t r.store_id none
                      (pos r.points_spent) written db taken in
                  absurd (ground arith)
            ] in
            let (js, moves) =
              move_points_total round now adjust redeem_reversal t r.store_id none
                (pos r.points_spent) written db new in
            (
              ground arith,
              let e : db'.redemptions
                      ≡ insert r.id (record r { status = cancelled }) db.redemptions =
                    ground arith in
                  ground (
                    arith,
                    lookup-insert_self r.id (record r { status = cancelled }) db.redemptions,
                  ),
            )
      ]

  fulfill_closes :
      (user : Caller) (id : ℕ) (db : LoyaltyDb) (r : Redemption) {db' : LoyaltyDb}
      → lookup id db.redemptions ≡ some r
      → fulfill round now user id db ≡ ok db'
      → (is_issued r.status ≡ true)
        × (lookup id db'.redemptions ≡ some (record r { status = fulfilled }))
  unfolding fulfill
  fulfill_closes user id db r found h = (
    ground arith,
    ground (arith, lookup-insert_self id (record r { status = fulfilled }) db.redemptions),
  )

  -- A voucher that does not stand as issued can be neither cancelled nor handed over, by a user who
  -- may write to its store.
  closed_stays :
      (user : Caller) (id t : ℕ) (db : LoyaltyDb) (r : Redemption)
      → lookup id db.redemptions ≡ some r
      → assert_store user r.store_id store_write ≡ ok tt
      → is_issued r.status ≡ false
      → (cancel round now user id t db ≡ err invalid_request)
        × (fulfill round now user id db ≡ err invalid_request)
  unfolding cancel cancel_from fulfill
  closed_stays user id t db r found may closed = (ground arith, ground arith)

  -- What issuing a voucher writes.
  redeem_from_writes :
      (reward : Reward) (c : Customer) (t redemption_id : ℕ) (db : LoyaltyDb) {db' : LoyaltyDb}
      → lookup reward.id db.rewards ≡ some reward
      → redeem_from round now reward c t redemption_id db ≡ ok db'
      → (reward.points_cost ≤ c.points_balance)
        × (stock_more (stock_less reward.stock) ≡ reward.stock)
        × (db'.customers
            ≡ insert c.id
                (record c { points_balance = c.points_balance - reward.points_cost })
                db.customers)
        × (lookup reward.id db'.rewards ≡ some (record reward { stock = stock_less reward.stock }))
        × (db'.redemptions
            ≡ insert redemption_id (new_voucher reward c redemption_id) db.redemptions)
  unfolding redeem_from
  redeem_from_writes reward c t redemption_id db {db'} offered h =
      let written : Customer = record c {
        points_balance = c.points_balance - reward.points_cost;
      } in
      let new : is_logged t db.txns ≡ false = elim (Bool-cases (is_logged t db.txns)) [
        | inr free ↦ free
        | inl taken ↦
            let refused =
              move_points_taken round now redeem redeem t reward.store_id none
                (negated reward.points_cost) written db taken in
            absurd (ground arith)
      ] in
      let (js, moves) =
        move_points_total round now redeem redeem t reward.store_id none
          (negated reward.points_cost) written db new in
      elim (Option-cases reward.stock) [
        | inl unlimited ↦ (ground arith, ground arith, ground arith, ground arith, ground arith)
        | inr (n, limited) ↦
            let row =
              lookup-insert_self reward.id (record reward { stock = some (n - 1) }) db.rewards in
            (ground arith, ground arith, ground arith, ground arith, ground arith)
      ]

  -- What a cancellation writes.
  refund_points_writes :
      (r : Redemption) (t : ℕ) (db : LoyaltyDb) (c : Customer) (reward : Reward)
      → lookup r.customer_id db.customers ≡ some c
      → lookup r.reward_id db.rewards ≡ some reward
      → lookup r.id db.redemptions ≡ some r
      → is_logged t db.txns ≡ false
      → (db' : LoyaltyDb) × (refund_points round now r t db ≡ ok db')
        × (db'.customers
            ≡ insert c.id
                (record c { points_balance = c.points_balance + r.points_spent })
                db.customers)
        × (lookup r.reward_id db'.rewards
            ≡ some (record reward { stock = stock_more reward.stock }))
        × (lookup r.id db'.redemptions ≡ some (record r { status = cancelled }))
  unfolding refund_points
  refund_points_writes r t db c reward found offered standing new =
      let written : Customer = record c { points_balance = c.points_balance + r.points_spent } in
      let (js, moves) =
        move_points_total round now adjust redeem_reversal t r.store_id none (pos r.points_spent)
          written db new in
      let closed = lookup-insert_self r.id (record r { status = cancelled }) db.redemptions in
      elim (Result-cases (refund_points round now r t db)) [
        | inl (e, refused) ↦ absurd (ground arith)
        | inr (db', done) ↦ elim (Option-cases reward.stock) [
          | inl unlimited ↦ (db', done, ground arith, ground arith, ground arith)
          | inr (n, limited) ↦
              let row =
                lookup-insert_self r.reward_id (record reward { stock = some (n + 1) })
                  db.rewards in
              (db', done, ground arith, ground arith, ground arith)
        ]
      ]

  -- Cancelling a voucher that was just issued restores what issuing it took: the customer's balance
  -- and the reward's stock; the voucher is left cancelled. The customer and the reward stand under
  -- their ids, and the cancellation is not refused to a user who may write to the store, under a new
  -- id.
  pub cancel-redeem_reward :
      (user : Caller) (store_id customer_id reward_id t1 t2 redemption_id : ℕ) (db : LoyaltyDb)
      (c : Customer) (reward : Reward) {db1 : LoyaltyDb}
      → lookup customer_id db.customers ≡ some c
      → lookup reward_id db.rewards ≡ some reward
      → c.id ≡ customer_id
      → reward.id ≡ reward_id
      → redeem_reward round now store_id customer_id reward_id t1 redemption_id db ≡ ok db1
      → assert_store user store_id store_write ≡ ok tt
      → is_logged t2 db1.txns ≡ false
      → (db2 : LoyaltyDb) × (cancel round now user redemption_id t2 db1 ≡ ok db2)
        × (lookup customer_id db2.customers ≡ some c)
        × (lookup reward_id db2.rewards ≡ some reward)
        × (status_of redemption_id db2 ≡ some cancelled)
  unfolding redeem_reward cancel cancel_from
  cancel-redeem_reward user store_id customer_id reward_id t1 t2 redemption_id db c reward {db1}
        found offered keyed keyed' h may new =
      let issues : redeem_from round now reward c t1 redemption_id db ≡ ok db1 = ground arith in
      let (le, limit, customers, stock, vouchers) =
        redeem_from_writes reward c t1 redemption_id db
          (ap (λ k. lookup k db.rewards) keyed' ∙ offered) issues in
      let r = new_voucher reward c redemption_id in
      let there : lookup redemption_id db1.redemptions ≡ some r =
        ap (lookup redemption_id) vouchers ∙ lookup-insert_self redemption_id r db.redemptions in
      let paid : Customer = record c { points_balance = c.points_balance - reward.points_cost } in
      let (db2, done, customers2, stock2, closed) =
        refund_points_writes r t2 db1 paid (record reward { stock = stock_less reward.stock })
          (ap (lookup c.id) customers ∙ lookup-insert_self c.id paid db.customers) stock there
          new in
      let own : reward.store_id ≡ store_id = ground arith in
      let allowed : assert_store user reward.store_id store_write ≡ ok tt =
        ap (λ k. assert_store user k store_write) own ∙ may in
      let whole : c.points_balance - reward.points_cost + reward.points_cost ≡ c.points_balance =
        omega arith in
      let back : lookup c.id db2.customers ≡ some c =
        ap (lookup c.id) customers2
        ∙ lookup-insert_self c.id
            (record c {
              points_balance = c.points_balance - reward.points_cost + reward.points_cost;
            })
            db1.customers
        ∙ ap (λ k. some (record c { points_balance = k })) whole in
      (
        db2,
        rw (there, cancel, allowed) done,
        ap (λ k. lookup k db2.customers) (sym keyed) ∙ back,
        ap (λ k. lookup k db2.rewards) (sym keyed')
            ∙ stock2
            ∙ ap (λ k. some (record reward { stock = k })) limit,
        ground arith,
      )

  -- A voucher is closed once: after it was cancelled or handed over, it can be neither cancelled
  -- nor handed over, if each reads it after the other has committed.
  pub closed_once :
      (user : Caller) (id t t' : ℕ) (db : LoyaltyDb) (r : Redemption) {db' : LoyaltyDb}
      → lookup id db.redemptions ≡ some r
      → r.id ≡ id
      → assert_store user r.store_id store_write ≡ ok tt
      → (cancel round now user id t db ≡ ok db') ⊎ (fulfill round now user id db ≡ ok db')
      → (cancel round now user id t' db' ≡ err invalid_request)
        × (fulfill round now user id db' ≡ err invalid_request)
  closed_once user id t t' db r {db'} found keyed may (inl h) =
      let (_, row) = cancel_closes user id t db r found keyed h in
      closed_stays user id t' db' _ row may refl
  closed_once user id t t' db r {db'} found keyed may (inr h) =
      let (_, row) = fulfill_closes user id db r found h in
      closed_stays user id t' db' _ row may refl
