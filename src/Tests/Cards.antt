-- ===== src/Tests/Cards.antt =====
-- Runs of gift cards at concrete inputs.
use pay_kh.Prelude.{ℕ, ◌+◌, ◌*◌, ◌<◌, ◌≡◌, refl, true, false, none, some, [], ◌∷◌, arith, lookup}
use pay_kh.Decimal.{rounding}
use pay_kh.Types.{usd}
use pay_kh.Payments.{Payment, GiftCardSnapshot}
use pay_kh.GiftCards.{
  GiftCard, GiftCardDb, GiftCardApplied, issued, is_past, minor_unit, apply_card, on_paid,
  is_redeemed,
}
use pay_kh.GiftCards.Quote.{IsShare, quote-IsShare}
use pay_kh.GiftCards.Spend.{spent, on_paid_again, shares_are_not_reserved}
use pay_kh.Tests.Payments.{ten_dollars}

-- A card with five dollars left.
abbrev card : GiftCard
card = record {
  id = 3;
  store_id = 7;
  code = 1234;
  currency = usd;
  initial_balance = 50_000;
  balance = 50_000;
  active = true;
  expires_at = none;
}

abbrev one_card : GiftCardDb
one_card = record { cards = (3, card) ∷ []; transactions = issued 3 50_000 50_000 ∷ [] }

abbrev five_of_ten : GiftCardApplied
five_of_ten = record { gift_card_id = 3; applied = 50_000; remaining = 50_000 }

quote-IsShare_example :
    (card.active ≡ true)
    × (is_past card.expires_at 0 ≡ false)
    × (card.currency ≡ usd)
    × (0 < card.balance)
    × IsShare card.balance (1000 * minor_unit usd) (minor_unit usd) 50_000 50_000
unfolding apply_card
quote-IsShare_example = quote-IsShare rounding card 1000 usd 0 {q = five_of_ten} refl

abbrev share : GiftCardSnapshot
share = record { id = 3; applied = 50_000 }

abbrev order : ℕ → Payment
order id = record ten_dollars { id = id; gift_card = some share }

on_paid_again_run : on_paid (order 1) (on_paid (order 1) one_card) ≡ on_paid (order 1) one_card
unfolding lookup
on_paid_again_run = on_paid_again (order 1) share card one_card refl refl refl

shares_are_not_reserved_example :
    let db' = on_paid (order 2) (on_paid (order 1) one_card) in
    (spent 3 db'.transactions ≡ 50_000 + 50_000 + spent 3 one_card.transactions)
    × ((c : GiftCard) × (lookup 3 db'.cards ≡ some c) × (c.balance ≡ 0))
unfolding lookup is_redeemed
shares_are_not_reserved_example =
    shares_are_not_reserved (order 1) (order 2) share share card one_card refl refl refl
      (λ e. omega arith) refl refl (omega arith) (omega arith) refl refl (omega arith) (omega arith)
      (omega arith)
