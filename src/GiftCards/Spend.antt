-- ===== src/GiftCards/Spend.antt =====
-- Spending a card when payments are captured (`onPaid` of
-- apps/api/src/giftcards/giftcards.module.ts).
use pay_kh.Prelude.{
  ℕ, ◌+◌, ◌-◌, ◌≤◌, ◌<◌, ◌≡◌, ◌≢◌, refl, inl, inr, true, false, some, List, [], ◌∷◌, arith, leb, ap,
  ◌∙◌, ◌==◌, if◌then◌else◌, lookup, insert, lookup-insert_self, Option-cases, Bool-cases,
}
use pay_kh.Payments.{Payment, GiftCardSnapshot}
use pay_kh.GiftCards.{
  GiftCard, GiftCardTransaction, issued, redeemed, GiftCardDb, is_redeemed, debit_from, on_paid,
}

-- What a card has been used for, over all payments.
unfoldable pub spent : ℕ → List GiftCardTransaction → ℕ
spent id [] = 0
spent id (issued c a b ∷ ts) = spent id ts
spent id (redeemed c a b p ∷ ts) = (if c == id then a else 0) + spent id ts

-- A capture debits the card it finds once for a payment that has not spent from it yet.
on_paid_debits :
    (payment : Payment) (g : GiftCardSnapshot) (card : GiftCard) (db : GiftCardDb)
    → payment.gift_card ≡ some g
    → lookup g.id db.cards ≡ some card
    → card.id ≡ g.id
    → 0 < g.applied
    → is_redeemed g.id payment.id db.transactions ≡ false
    → let new_balance = card.balance - g.applied in
      on_paid payment db ≡ record {
        cards = insert g.id (record card { balance = new_balance }) db.cards;
        transactions = redeemed g.id g.applied new_balance payment.id ∷ db.transactions;
      }
unfolding on_paid debit_from
on_paid_debits payment g card db has found same pos fresh = ground arith

on_paid_redeemed :
    (payment : Payment) (g : GiftCardSnapshot) (db : GiftCardDb)
    → payment.gift_card ≡ some g
    → is_redeemed g.id payment.id db.transactions ≡ true
    → on_paid payment db ≡ db
unfolding on_paid
on_paid_redeemed payment g db has done = elim (Option-cases (lookup g.id db.cards)) [
  | inl h ↦ ground arith
  | inr (card, h) ↦ ground arith
]

on_paid_nothing :
    (payment : Payment) (g : GiftCardSnapshot) (db : GiftCardDb)
    → payment.gift_card ≡ some g
    → g.applied ≡ 0
    → on_paid payment db ≡ db
unfolding on_paid
on_paid_nothing payment g db has zero = elim (Option-cases (lookup g.id db.cards)) [
  | inl h ↦ ground arith
  | inr (card, h) ↦ ground arith
]

is_redeemed_self :
    (c p a b : ℕ) (ts : List GiftCardTransaction) → is_redeemed c p (redeemed c a b p ∷ ts) ≡ true
unfolding is_redeemed
is_redeemed_self c p a b ts = ground arith

is_redeemed_other :
    (c p p' a b : ℕ) (ts : List GiftCardTransaction)
    → p ≢ p'
    → is_redeemed c p' (redeemed c a b p ∷ ts) ≡ is_redeemed c p' ts
unfolding is_redeemed
is_redeemed_other c p p' a b ts ne = ground arith

spent_redeemed :
    (c p a b : ℕ) (ts : List GiftCardTransaction) → spent c (redeemed c a b p ∷ ts) ≡ a + spent c ts
unfolding spent
spent_redeemed c p a b ts = ground arith

-- A capture that is announced again does not debit again.
pub on_paid_again :
    (payment : Payment) (g : GiftCardSnapshot) (card : GiftCard) (db : GiftCardDb)
    → payment.gift_card ≡ some g
    → lookup g.id db.cards ≡ some card
    → card.id ≡ g.id
    → on_paid payment (on_paid payment db) ≡ on_paid payment db
on_paid_again payment g card db has found same =
    elim (Bool-cases (is_redeemed g.id payment.id db.transactions)) [
      | inl done ↦ let idle = on_paid_redeemed payment g db has done in ap (on_paid payment) idle
      | inr fresh ↦ elim (Bool-cases (leb g.applied 0)) [
        | inl z ↦ ap (on_paid payment) (on_paid_nothing payment g db has (ground arith))
        | inr p ↦
            let debit = on_paid_debits payment g card db has found same (ground arith) fresh in
            on_paid_redeemed payment g (on_paid payment db) has (
              rw (
                debit,
                is_redeemed_self g.id payment.id g.applied (card.balance - g.applied)
                    db.transactions,
              ))
      ]
    ]

-- Two payments that were each quoted a share of one card, both captured: each is credited with its
-- share in full, although the card covers the two only in part, and the card is left with what
-- truncated subtraction leaves.
pub shares_are_not_reserved :
    (p p' : Payment) (g g' : GiftCardSnapshot) (card : GiftCard) (db : GiftCardDb)
    → p.gift_card ≡ some g
    → p'.gift_card ≡ some g'
    → g'.id ≡ g.id
    → p.id ≢ p'.id
    → lookup g.id db.cards ≡ some card
    → card.id ≡ g.id
    → 0 < g.applied
    → 0 < g'.applied
    → is_redeemed g.id p.id db.transactions ≡ false
    → is_redeemed g.id p'.id db.transactions ≡ false
    → g.applied ≤ card.balance
    → g'.applied ≤ card.balance
    → card.balance < g.applied + g'.applied
    → let db' = on_paid p' (on_paid p db) in
      (spent g.id db'.transactions ≡ g.applied + g'.applied + spent g.id db.transactions)
      × ((c : GiftCard) × (lookup g.id db'.cards ≡ some c) × (c.balance ≡ 0))
shares_are_not_reserved p p' g g' card db has has' same ne found key pos pos' new new' fits fits'
      over =
    let left = card.balance - g.applied in
    let card' : GiftCard = record card { balance = left } in
    let ts = redeemed g.id g.applied left p.id ∷ db.transactions in
    let db1 : GiftCardDb = record { cards = insert g.id card' db.cards; transactions = ts } in
    let first : on_paid p db ≡ db1 = on_paid_debits p g card db has found key pos new in
    let second =
      on_paid_debits p' g' card' db1 has' (rw (same, lookup-insert_self g.id card' db.cards))
        (rw (key, same)) pos'
        (rw (same, is_redeemed_other g.id p.id p'.id g.applied left db.transactions ne, new')) in
    let left' = left - g'.applied in
    let card'' : GiftCard = record card { balance = left' } in
    let db2 : GiftCardDb = record {
      cards = insert g.id card'' db1.cards;
      transactions = redeemed g.id g'.applied left' p'.id ∷ ts;
    } in
    let both : on_paid p' (on_paid p db) ≡ db2 = ap (on_paid p') first ∙ second ∙ rw same refl in
    (
      ap (λ d. spent g.id d.transactions) both
          ∙ omega (
            arith,
            spent_redeemed g.id p'.id g'.applied left' ts,
            spent_redeemed g.id p.id g.applied left db.transactions,
          ),
      (
        card'',
        ap (λ d. lookup g.id d.cards) both ∙ lookup-insert_self g.id card'' db1.cards,
        omega arith,
      ),
    )

-- A capture whose transaction read the card before another capture changed it debits nothing.
pub stale_capture_is_free :
    (seen row : GiftCard) (applied payment_id : ℕ) (db : GiftCardDb)
    → lookup seen.id db.cards ≡ some row
    → row.balance ≢ seen.balance
    → debit_from seen applied payment_id db ≡ db
unfolding debit_from
stale_capture_is_free seen row applied payment_id db found stale = ground arith
