-- ===== src/Checkout/Covered.antt =====
-- Orders that a gift card covers, and cards that no code named (`create` of
-- apps/api/src/payments/payments.service.ts with `onPaid` of
-- apps/api/src/giftcards/giftcards.module.ts).
use pay_kh.Prelude.{
  ℕ, ◌-◌, ◌≡◌, ◌<◌, refl, sym, ap, ◌∙◌, inl, inr, Bool, true, false, Option, none, some, List, [],
  ◌∷◌, Result, ok, Option-cases, Result-cases, arith, lookup, insert, lookup-insert_self, ==_refl,
}
use pay_kh.Types.{pending, paid, can_transition, payment_created}
use pay_kh.Decimal.{Rounding}
use pay_kh.Money.{validate_amount}
use pay_kh.Payments.{
  Payment, CouponSnapshot, GiftCardSnapshot, Db, emit_webhook, Outcome, StatusChange, transition,
  transition_tx, transition_from, claim, after_tx, fire, effects_of,
}
use pay_kh.Idempotency.{Slot, IdempotencyRecord, Executed, find, replay, execute}
use pay_kh.Idempotency.Once.{execute_first}
use pay_kh.Quota.{assert_within_quota}
use pay_kh.GiftCards
use pay_kh.Checkout.{
  ApiKeyContext, CreatePayment, Catalog, Charge, resolve_active, resolve_for_store, price_coupon,
  price_gift_card, price_order, prepare_payment, ask_provider, new_payment, insert_payment,
  after_create, create,
}

module _ (round : Rounding) (now : ℕ) (ctx : ApiKeyContext) (dto : CreatePayment)
    (store_exists : Bool) (catalog : Catalog) {customer_id : Option ℕ} {charge : Charge}
    (prepared : prepare_payment round now ctx dto store_exists catalog
      ≡ ok (customer_id, charge)) where
  -- The last step of the preparation.
  prepared_charge :
      (amount : ℕ) × (coupon : Option CouponSnapshot) × (price_gift_card round now ctx.store_id dto
          amount coupon catalog.gift_cards
        ≡ ok charge)
      × (ordered : ℕ) × (validate_amount dto.amount dto.currency ≡ ok ordered)
      × (price_coupon round now ctx.store_id dto customer_id ordered catalog.coupons
          ≡ ok (amount, coupon))
  unfolding prepare_payment price_order
  prepared_charge =
      elim (Result-cases (assert_within_quota catalog.suspended catalog.quota catalog.usage)) [
        | inl (e, failed) ↦ absurd (ground arith)
        | inr (u, within) ↦ elim (Result-cases (validate_amount dto.amount dto.currency)) [
          | inl (e, failed) ↦ absurd (ground arith)
          | inr (amount, valid) ↦
              elim (Result-cases (resolve_active ctx.store_id dto.branch_id catalog.branches)) [
                | inl (e, failed) ↦ absurd (ground arith)
                | inr (b, branch) ↦
                    elim (Result-cases
                      (resolve_for_store ctx.store_id dto.customer_id catalog.customers)) [
                        | inl (e, failed) ↦ absurd (ground arith)
                        | inr (c, customer) ↦
                            elim (Result-cases
                              (price_coupon round now ctx.store_id dto c amount catalog.coupons)) [
                                | inl (e, failed) ↦ absurd (ground arith)
                                | inr ((charged, coupon), priced) ↦
                                    let same : c ≡ customer_id = ground arith in
                                    (
                                      charged,
                                      coupon,
                                      ground arith,
                                      amount,
                                      valid,
                                      ap
                                            (λ k.
                                              price_coupon round now ctx.store_id dto k amount
                                                catalog.coupons)
                                            (sym same)
                                          ∙ priced,
                                    )
                              ]
                      ]
              ]
        ]
      ]

-- With no effect failing, a pending payment is captured.
captured :
    (now id : ℕ) (p : Payment) (db : Db)
    → lookup id db.payments ≡ some p
    → p.id ≡ id
    → p.status ≡ pending
    → let o = transition (λ _. false) now id paid db in
      (p' : Payment) × (o.result ≡ ok p')
      × (p'.status ≡ paid)
      × (p'.amount ≡ p.amount)
      × (lookup id o.db.payments ≡ some p')
unfolding transition transition_tx transition_from claim after_tx fire effects_of can_transition
captured now id p db found keyed waits =
    let moved : Payment = record p { status = paid; paid_at = some now } in
    let here : lookup p.id db.payments ≡ some p = ap (λ j. lookup j db.payments) keyed ∙ found in
    let change : StatusChange = record {
      payment_id = p.id;
      from_status = some pending;
      to_status = paid;
    } in
    let db' : Db = record db {
      payments = insert p.id moved db.payments;
      history = change ∷ db.history;
    } in
    let tx : transition_tx id paid now db ≡ ok (true, moved, db') =
      rw (transition_tx, found, transition_from, waits, claim, here, waits) refl in
    let row : lookup id db'.payments ≡ some moved =
      ap (λ j. lookup j db'.payments) (sym keyed) ∙ lookup-insert_self p.id moved db.payments in
    (
      moved,
      ap (λ t. (after_tx (λ _. false) paid db t).result) tx,
      refl,
      refl,
      ap (λ t. lookup id (after_tx (λ _. false) paid db t).db.payments) tx ∙ row,
    )

abbrev with_payment : Payment → Db → Db
with_payment row db =
    let created : StatusChange = record {
      payment_id = row.id;
      from_status = none;
      to_status = pending;
    } in
    record db { payments = insert row.id row db.payments; history = created ∷ db.history }

inserted :
    (round : Rounding) (now : ℕ) (row : Payment) (db : Db)
    → insert_payment round now row db ≡ ok (row, 201, with_payment row db)
unfolding insert_payment
inserted round now row db = refl

-- A card that covers an order leaves nothing to charge.
covers_all :
    (round : Rounding) (now store_id : ℕ) (dto : CreatePayment) (amount : ℕ)
    (coupon : Option CouponSnapshot) (cards : GiftCards.GiftCardDb) {charge : Charge}
    → price_gift_card round now store_id dto amount coupon cards ≡ ok charge
    → charge.covers_fully ≡ true
    → charge.amount ≡ 0
unfolding price_gift_card
covers_all round now store_id dto amount coupon cards h covers =
    elim (Option-cases dto.gift_card_code) [
      | inl no_code ↦ absurd (ground arith)
      | inr (code, is_code) ↦
          elim (Result-cases
            (GiftCards.quote round store_id (some code) amount dto.currency now cards)) [
              | inl (e, failed) ↦ absurd (ground arith)
              | inr (g, quoted) ↦ ground arith
            ]
    ]

module _ (round : Rounding) (now : ℕ) (answer : Option (Result (Unit {0}))) (ctx : ApiKeyContext)
    (dto : CreatePayment) (store_exists : Bool) (catalog : Catalog) (slot : Slot) (request_hash : ℕ)
    (records : List (IdempotencyRecord Payment)) (db : Db) {customer_id : Option ℕ}
    {charge : Charge} (empty : find slot records ≡ none)
    (prepared : prepare_payment round now ctx dto store_exists catalog ≡ ok (customer_id, charge))
    (covers : charge.covers_fully ≡ true) where
  abbrev row_of : (payment_id : ℕ) → Payment
  row_of payment_id = new_payment round now ctx dto payment_id customer_id charge

  abbrev call :
      (payment_id : ℕ)
      → List (IdempotencyRecord Payment)
      → Db
      → Outcome Payment × List (IdempotencyRecord Payment)
  call payment_id records db =
      create round now (λ _. false) answer ctx dto (some slot) request_hash payment_id store_exists
        catalog records db

  abbrev guarded_call : ℕ → Executed Db Payment
  guarded_call payment_id =
      execute
        (insert_payment round now (new_payment round now ctx dto payment_id customer_id charge)) now
        (some slot) request_hash none db records

  create_unfolds :
      (payment_id : ℕ)
      → call payment_id records db ≡ (
        after_create round now (λ _. false) charge (guarded_call payment_id),
        (guarded_call payment_id).records,
      )
  unfolding create ask_provider
  create_unfolds payment_id =
      let (amount, coupon, priced, _, _, _) =
        prepared_charge round now ctx dto store_exists catalog prepared in
      let nothing =
        covers_all round now ctx.store_id dto amount coupon catalog.gift_cards priced covers in
      rw (create, empty, prepared, ask_provider, nothing) refl

  -- The end of a first creation.
  finished :
      (payment_id : ℕ) (e : Executed Db Payment)
      → e.result ≡ ok (record { resource = row_of payment_id; status = 201; replayed = false })
      → e.state ≡ with_payment (row_of payment_id) db
      → let moved =
          transition (λ _. false) now payment_id paid (with_payment (row_of payment_id) db) in
        after_create round now (λ _. false) charge e ≡ record {
          result = moved.result;
          db = moved.db;
          effects = emit_webhook (row_of payment_id) payment_created ∷ moved.effects;
        }
  unfolding after_create
  finished payment_id e answers state = rw (after_create, answers, state, covers) refl

  replayed :
      (payment_id : ℕ) (rs : List (IdempotencyRecord Payment)) (later : Db)
      {w : IdempotencyRecord Payment}
      → find slot rs ≡ some w
      → w.request_hash ≡ request_hash
      → call payment_id rs later
        ≡ (record { result = ok w.response_body; db = later; effects = [] }, rs)
  unfolding create replay
  replayed payment_id rs later {w} found same =
      rw (create, found, replay, same, ==_refl request_hash) refl

  -- A first request with a key whose order a gift card covers, with no effect failing, leaves the
  -- payment captured and answers so; the same request again changes nothing, sets off nothing and
  -- answers with the same payment, but as pending: the stored answer is from before the capture.
  pub covered_replay_differs :
      (payment_id payment_id' : ℕ)
      → let (first, records1) = call payment_id records db in
        let (second, _) = call payment_id' records1 first.db in
        (p : Payment) × (first.result ≡ ok p)
        × (p.status ≡ paid)
        × (p.amount ≡ 0)
        × (lookup payment_id first.db.payments ≡ some p)
        × (p' : Payment) × (second.result ≡ ok p')
        × (p'.id ≡ payment_id)
        × (p'.status ≡ pending)
        × (second.db ≡ first.db)
        × (second.effects ≡ [])
  covered_replay_differs payment_id payment_id' =
      let row = row_of payment_id in
      let (amount, coupon, priced, _, _, _) =
        prepared_charge round now ctx dto store_exists catalog prepared in
      let nothing =
        covers_all round now ctx.store_id dto amount coupon catalog.gift_cards priced covers in
      let (answers, state, w, stored, body, hash) =
        execute_first (insert_payment round now row) now slot request_hash db records empty
          (inserted round now row db) in
      let unfolds = create_unfolds payment_id in
      let o : Outcome Payment = (call payment_id records db).0 in
      let rs : List (IdempotencyRecord Payment) = (call payment_id records db).1 in
      let whole =
        ap (λ (z : Outcome Payment × List (IdempotencyRecord Payment)). z.0) unfolds
        ∙ finished payment_id (guarded_call payment_id) answers state in
      let (p, result, is_paid, same_amount, there) =
        captured now payment_id row (with_payment row db)
          (lookup-insert_self payment_id row db.payments) refl refl in
      let again =
        replayed payment_id' rs o.db {w = w}
          (ap (λ (z : Outcome Payment × List (IdempotencyRecord Payment)). find slot z.1) unfolds
            ∙ stored)
          hash in
      (
        p,
        ap (λ (z : Outcome Payment). z.result) whole ∙ result,
        is_paid,
        same_amount ∙ nothing,
        ap (λ (z : Outcome Payment). lookup payment_id z.db.payments) whole ∙ there,
        w.response_body,
        ap (λ (z : Outcome Payment × List (IdempotencyRecord Payment)). z.0.result) again,
        ap (λ (q : Payment). q.id) body,
        ap (λ (q : Payment). q.status) body,
        ap (λ (z : Outcome Payment × List (IdempotencyRecord Payment)). z.0.db) again,
        ap (λ (z : Outcome Payment × List (IdempotencyRecord Payment)). z.0.effects) again,
      )

debited :
    (payment_id : ℕ) (g : GiftCardSnapshot) (card : GiftCards.GiftCard)
    (cards : GiftCards.GiftCardDb) (p : Payment)
    → p.gift_card ≡ some g
    → p.id ≡ payment_id
    → 0 < g.applied
    → lookup g.id cards.cards ≡ some card
    → lookup card.id cards.cards ≡ some card
    → card.id ≡ g.id
    → GiftCards.is_redeemed g.id payment_id cards.transactions ≡ false
    → lookup g.id (GiftCards.on_paid p cards).cards
      ≡ some (record card { balance = card.balance - g.applied })
unfolding GiftCards.on_paid GiftCards.debit_from
debited payment_id g card cards p carried is_p some_points found here keyed unspent =
    let written : GiftCards.GiftCard = record card { balance = card.balance - g.applied } in
    let row = lookup-insert_self card.id written cards.cards in ground arith

-- A request without codes can name any card in its metadata: the payment that it creates charges the
-- payer the whole amount of the request and carries that card and any amount, and when it is paid
-- the card is debited, whatever store the card belongs to, and whether it is active.
pub unquoted_card_debited :
    (round : Rounding) (now : ℕ) (ctx : ApiKeyContext) (dto : CreatePayment) (store_exists : Bool)
    (catalog : Catalog) {customer_id : Option ℕ} {charge : Charge} (payment_id : ℕ)
    (g : GiftCardSnapshot) (card : GiftCards.GiftCard) (cards : GiftCards.GiftCardDb)
    → dto.coupon_code ≡ none
    → dto.gift_card_code ≡ none
    → dto.metadata_gift_card ≡ some g
    → prepare_payment round now ctx dto store_exists catalog ≡ ok (customer_id, charge)
    → 0 < g.applied
    → lookup g.id cards.cards ≡ some card
    → card.id ≡ g.id
    → GiftCards.is_redeemed g.id payment_id cards.transactions ≡ false
    → let payment = new_payment round now ctx dto payment_id customer_id charge in
      (validate_amount dto.amount dto.currency ≡ ok payment.amount)
      × (lookup g.id (GiftCards.on_paid payment cards).cards
          ≡ some (record card { balance = card.balance - g.applied }))
unfolding price_gift_card price_coupon
unquoted_card_debited round now ctx dto store_exists catalog {customer_id} {charge} payment_id g
      card cards no_coupon no_code named prepared some_points found keyed unspent =
    let (amount, coupon, priced, ordered, valid, discounted) =
      prepared_charge round now ctx dto store_exists catalog prepared in
    let carried : charge.gift_card ≡ some g = ground arith in
    let here : lookup card.id cards.cards ≡ some card =
      ap (λ j. lookup j cards.cards) keyed ∙ found in
    let whole : charge.amount ≡ ordered = ground arith in
    (
      ap (λ k. k) valid ∙ ap (λ k. ok k) (sym whole),
      debited payment_id g card cards (new_payment round now ctx dto payment_id customer_id charge)
          carried refl some_points found here keyed unspent,
    )
