-- ===== src/Tests/Orders.antt =====
-- Payments created at concrete inputs.
use pay_kh.Prelude.{◌+◌, ◌≡◌, refl, true, false, none, some, [], ◌∷◌, ok, lookup, arith}
use pay_kh.Types.{pending, paid, usd, test}
use pay_kh.Decimal.{rounding}
use pay_kh.Money.{is_amount, decimal_places, amount_value, validate_amount}
use pay_kh.Payments.{Payment, Db}
use pay_kh.Idempotency.{Slot, find}
use pay_kh.GiftCards
use pay_kh.Quota.{assert_within_quota}
use pay_kh.Checkout.{
  CreatePayment, ApiKeyContext, Catalog, Charge, price_coupon, price_gift_card, price_order,
  prepare_payment, resolve_active, resolve_for_store, new_payment, create,
}
use pay_kh.Checkout.Price.{price_order-adds_up, discounted, covered}
use pay_kh.Checkout.Covered.{covered_replay_differs, unquoted_card_debited}

abbrev store_card : GiftCards.GiftCard
store_card = record {
  id = 3;
  store_id = 7;
  code = 1234;
  currency = usd;
  initial_balance = 50_000;
  balance = 50_000;
  active = true;
  expires_at = none;
}

abbrev catalog : Catalog
catalog = record {
  suspended = false;
  quota = none;
  usage = record { paid_count = 0; last_warned_level = 0; in_flight = 0 };
  branches = [];
  customers = [];
  coupons = record { coupons = []; redemptions = []; payments = [] };
  gift_cards = record { cards = (3, store_card) ∷ []; transactions = [] };
}

-- "5"
abbrev five_dollars : CreatePayment
five_dollars = record {
  amount = b'5' ∷ [];
  currency = usd;
  branch_id = none;
  customer_id = none;
  coupon_code = none;
  gift_card_code = some 1234;
  metadata_coupon = none;
  metadata_gift_card = none;
  expires_in_seconds = none;
}

-- "9"
abbrev nine_dollars : CreatePayment
nine_dollars = record five_dollars { amount = b'9' ∷ [] }

abbrev partly_covered : Charge
partly_covered = record {
  amount = 40_000;
  coupon = none;
  gift_card = some (record { id = 3; applied = 50_000 });
  covers_fully = false;
}

nine_valid : validate_amount nine_dollars.amount usd ≡ ok 90_000
unfolding validate_amount is_amount decimal_places amount_value
nine_valid = refl

nine_priced : price_order rounding 100 7 nine_dollars none 90_000 catalog ≡ ok partly_covered
unfolding price_order price_coupon price_gift_card GiftCards.quote GiftCards.find_code
    GiftCards.apply_card
nine_priced = refl

price_order-adds_up_example :
    partly_covered.amount
      + covered (some 1234) partly_covered.gift_card
      + discounted none partly_covered.coupon
    ≡ 90_000
price_order-adds_up_example =
    price_order-adds_up rounding 100 7 nine_dollars none catalog {amount = 90_000}
      {charge = partly_covered} nine_valid nine_priced

abbrev context : ApiKeyContext
context = record { store_id = 7; mode = test }

abbrev all_covered : Charge
all_covered = record {
  amount = 0;
  coupon = none;
  gift_card = some (record { id = 3; applied = 50_000 });
  covers_fully = true;
}

five_prepared :
    prepare_payment rounding 100 context five_dollars true catalog ≡ ok (none, all_covered)
unfolding prepare_payment assert_within_quota validate_amount resolve_active resolve_for_store
    price_order price_coupon price_gift_card GiftCards.quote GiftCards.find_code
    GiftCards.apply_card is_amount decimal_places amount_value
five_prepared = refl

abbrev slot : Slot
slot = record { scope_id = 7; endpoint = 1; key = 42 }

abbrev no_payments : Db
no_payments = record { payments = []; history = []; refunds = [] }

covered_replay_differs_example :
    let (first, records1) =
      create rounding 100
        (λ _. false)
        none
        context
        five_dollars
        (some slot)
        77
        1
        true
        catalog
        []
        no_payments in
    let (second, _) =
      create rounding 100
        (λ _. false)
        none
        context
        five_dollars
        (some slot)
        77
        2
        true
        catalog
        records1
        first.db in
    (p : Payment) × (first.result ≡ ok p)
    × (p.status ≡ paid)
    × (p.amount ≡ 0)
    × (lookup 1 first.db.payments ≡ some p)
    × (p' : Payment) × (second.result ≡ ok p')
    × (p'.id ≡ 1)
    × (p'.status ≡ pending)
    × (second.db ≡ first.db)
    × (second.effects ≡ [])
unfolding find
covered_replay_differs_example =
    covered_replay_differs rounding 100 none context five_dollars true catalog slot 77 []
      no_payments refl five_prepared refl 1 2

-- A card of another store, named in the metadata.
abbrev foreign_card : GiftCards.GiftCard
foreign_card = record store_card { id = 9; store_id = 8 }

abbrev foreign_cards : GiftCards.GiftCardDb
foreign_cards = record { cards = (9, foreign_card) ∷ []; transactions = [] }

abbrev naming : CreatePayment
naming = record five_dollars {
  gift_card_code = none;
  metadata_gift_card = some (record { id = 9; applied = 20_000 });
}

abbrev in_full : Charge
in_full = record {
  amount = 50_000;
  coupon = none;
  gift_card = some (record { id = 9; applied = 20_000 });
  covers_fully = false;
}

naming_prepared : prepare_payment rounding 100 context naming true catalog ≡ ok (none, in_full)
unfolding prepare_payment assert_within_quota validate_amount resolve_active resolve_for_store
    price_order price_coupon price_gift_card is_amount decimal_places amount_value
naming_prepared = refl

unquoted_card_debited_example :
    (validate_amount naming.amount usd
      ≡ ok (new_payment rounding 100 context naming 1 none in_full).amount)
    × (lookup 9
          (GiftCards.on_paid
            (new_payment rounding 100 context naming 1 none in_full)
            foreign_cards).cards
        ≡ some (record foreign_card { balance = 30_000 }))
unfolding lookup GiftCards.is_redeemed
unquoted_card_debited_example =
    unquoted_card_debited rounding 100 context naming true catalog 1
      (record { id = 9; applied = 20_000 }) foreign_card foreign_cards refl refl refl
      naming_prepared (omega arith) refl refl refl
