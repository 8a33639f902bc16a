-- ===== src/GiftCards.antt =====
-- Gift cards: `GiftCardsService` of apps/api/src/giftcards/giftcards.module.ts, without the
-- mirror on the PayChain rail, which is best effort and writes no balance.
--
-- A code is a number, `none` one that is empty after `trim()`; balances are in units of 10^-4.
pub mod Quote
pub mod Spend
use pay_kh.Prelude.{
  ℕ, ◌+◌, ◌-◌, ◌*◌, min, Bool, true, false, not, ◌&&◌, ◌||◌, Option, none, some, List, [], ◌∷◌,
  Result, ok, err, ◌>>=◌, ◌>>◌, throw_if, ApiErrorCode, invalid_request, leb, ltb, ◌==◌,
  if◌then◌else◌, Table, lookup, insert,
}
use pay_kh.Types.{Currency, usd, khr}
use pay_kh.Decimal.{Rounding}
use pay_kh.Payments.{Payment, GiftCardSnapshot}

pub record GiftCard : Type 0 where
  pub id : ℕ
  pub store_id : ℕ
  pub code : ℕ
  pub currency : Currency
  pub initial_balance : ℕ
  pub balance : ℕ
  pub active : Bool
  pub expires_at : Option ℕ

-- A row of `GiftCardTransaction`: what was put on the card or, for a payment, taken from it, and
-- the balance after it.
pub data GiftCardTransaction : Type 0 where
  issued : (gift_card_id amount balance : ℕ) → GiftCardTransaction
  redeemed : (gift_card_id amount balance payment_id : ℕ) → GiftCardTransaction

pub record GiftCardDb : Type 0 where
  pub cards : Table GiftCard
  pub transactions : List GiftCardTransaction

abbrev pub currency_code : Currency → ℕ
currency_code usd = 0
currency_code khr = 1

-- The units of 10^-4 in the currency's smallest unit: `DECIMALS` are 2 and 0.
abbrev pub minor_unit : Currency → ℕ
minor_unit usd = 100
minor_unit khr = 10_000

unfoldable pub find_code : ℕ → ℕ → Table GiftCard → Option GiftCard
find_code store_id code [] = none
find_code store_id code ((id, c) ∷ cs) =
    if (c.store_id == store_id) && (c.code == code) then some c else find_code store_id code cs

abbrev pub is_past : Option ℕ → ℕ → Bool
is_past none now = false
is_past (some t) now = leb t now

pub record GiftCardApplied : Type 0 where
  pub gift_card_id : ℕ
  pub applied : ℕ
  pub remaining : ℕ

-- `giftCard.create` with its first transaction.
unfoldable pub issue :
    (id store_id code : ℕ) → Currency → (amount : ℕ) → Option ℕ → GiftCardDb → Result GiftCardDb
issue id store_id code currency amount expires_at db =
    let card : GiftCard = record {
      id = id;
      store_id = store_id;
      code = code;
      currency = currency;
      initial_balance = amount;
      balance = amount;
      active = true;
      expires_at = expires_at;
    } in
    if leb amount 0
    then err invalid_request
    else ok (record {
      cards = insert id card db.cards;
      transactions = issued id amount amount ∷ db.transactions;
    })

module _ (round : Rounding) where
  -- The card's share of an order, once the card is found.
  unfoldable pub apply_card :
      GiftCard → (amount : ℕ) → Currency → (now : ℕ) → Result GiftCardApplied
  apply_card card amount currency now =
      let unit = minor_unit currency in
      let applied = round.down (min card.balance amount) unit * unit in
      do
        throw_if (not card.active) invalid_request
        throw_if (is_past card.expires_at now) invalid_request
        throw_if (not (currency_code card.currency == currency_code currency)) invalid_request
        throw_if (leb card.balance 0) invalid_request
        ok (record {
          gift_card_id = card.id;
          applied = applied;
          remaining = round.half_up (amount - applied) unit * unit;
        })

  unfoldable pub quote :
      (store_id : ℕ)
      → Option ℕ
      → (amount : ℕ) → Currency
      → (now : ℕ) → GiftCardDb
      → Result GiftCardApplied
  quote store_id none amount currency now db = err invalid_request
  quote store_id (some code) amount currency now db = elim (find_code store_id code db.cards) [
    | none ↦ err invalid_request
    | some card ↦ apply_card card amount currency now
  ]

-- Whether the payment has spent from the card already.
unfoldable pub is_redeemed : ℕ → ℕ → List GiftCardTransaction → Bool
is_redeemed card_id payment_id [] = false
is_redeemed card_id payment_id (issued c a b ∷ ts) = is_redeemed card_id payment_id ts
is_redeemed card_id payment_id (redeemed c a b p ∷ ts) =
    (c == card_id) && (p == payment_id) || is_redeemed card_id payment_id ts

-- The write of `onPaid`, for a card `seen` that the transaction read: it takes effect only if the
-- balance is still the one that was read. A balance that would fall below 0 is set to 0.
unfoldable pub debit_from : GiftCard → (applied payment_id : ℕ) → GiftCardDb → GiftCardDb
debit_from seen applied payment_id db = elim (lookup seen.id db.cards) [
  | none ↦ db
  | some row ↦
      let new_balance = seen.balance - applied in
      if row.balance == seen.balance
      then (record {
        cards = insert seen.id (record row { balance = new_balance }) db.cards;
        transactions = redeemed seen.id applied new_balance payment_id ∷ db.transactions;
      })
      else db
]

unfoldable pub on_paid : Payment → GiftCardDb → GiftCardDb
on_paid payment db = elim payment.gift_card [
  | none ↦ db
  | some g ↦ elim (lookup g.id db.cards) [
    | none ↦ db
    | some card ↦
        if leb g.applied 0
        then db
        else if is_redeemed g.id payment.id db.transactions
        then db
        else debit_from card g.applied payment.id db
  ]
]
