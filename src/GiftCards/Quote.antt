-- ===== src/GiftCards/Quote.antt =====
-- What a quote promises (`quote` of apps/api/src/giftcards/giftcards.module.ts).
use pay_kh.Prelude.{
  ℕ, ◌+◌, ◌-◌, ◌*◌, ◌≤◌, ◌<◌, ◌≡◌, refl, min, true, false, ok, arith, ap, sym, ◌∙◌,
}
use pay_kh.Types.{Currency, usd, khr}
use pay_kh.Decimal.{Rounding, half_up_exact}
use pay_kh.GiftCards.{GiftCard, GiftCardApplied, minor_unit, apply_card, currency_code, is_past}

-- A quoted share and the rest make up the order, the share is covered by the card, and no larger
-- whole number of the currency's smallest unit would be.
pub record IsShare (balance amount unit applied remaining : ℕ) : Type 0 where
  pub complete : applied + remaining ≡ amount
  pub covered : applied ≤ balance
  pub largest : (k : ℕ) → k * unit ≤ balance → k * unit ≤ amount → k * unit ≤ applied

apply_card_parts :
    (round : Rounding) (card : GiftCard) (amount : ℕ) (currency : Currency) (now : ℕ)
    {q : GiftCardApplied}
    → apply_card round card amount currency now ≡ ok q
    → (card.active ≡ true)
      × (is_past card.expires_at now ≡ false)
      × (currency_code card.currency ≡ currency_code currency)
      × (0 < card.balance)
      × (q.applied
          ≡ round.down (min card.balance amount) (minor_unit currency) * minor_unit currency)
      × (q.remaining
          ≡ round.half_up (amount - q.applied) (minor_unit currency) * minor_unit currency)
unfolding apply_card
apply_card_parts round card amount currency now h = ground arith

same_currency : (c d : Currency) → currency_code c ≡ currency_code d → c ≡ d
same_currency usd usd h = refl
same_currency usd khr h = absurd (omega arith)
same_currency khr usd h = absurd (omega arith)
same_currency khr khr h = refl

-- What is left of an order in whole units is in whole units.
rest_exact :
    (round : Rounding) (amount applied rest unit : ℕ)
    → 0 < unit
    → amount - applied ≡ rest * unit
    → round.half_up (amount - applied) unit * unit ≡ amount - applied
rest_exact round amount applied rest unit pos e =
    ap (λ t. round.half_up t unit * unit) e
    ∙ ap (λ t. t * unit) (half_up_exact round rest unit pos)
    ∙ sym e

share :
    (round : Rounding) (balance n : ℕ) (currency : Currency)
    → let unit = minor_unit currency in
      let applied = round.down (min balance (n * unit)) unit * unit in
      IsShare balance (n * unit) unit applied (round.half_up (n * unit - applied) unit * unit)
share round balance n usd =
    let d = round.down (min balance (n * 100)) 100 in
    let (low, high) = round.down_floor (min balance (n * 100)) 100 (omega arith) in
    let rest = rest_exact round (n * 100) (d * 100) (n - d) 100 (omega arith) (omega arith) in
    record { complete = omega arith; covered = omega arith; largest = λ k h h'. omega arith }
share round balance n khr =
    let d = round.down (min balance (n * 10_000)) 10_000 in
    let (low, high) = round.down_floor (min balance (n * 10_000)) 10_000 (omega arith) in
    let rest =
      rest_exact round (n * 10_000) (d * 10_000) (n - d) 10_000 (omega arith) (omega arith) in
    record { complete = omega arith; covered = omega arith; largest = λ k h h'. omega arith }

-- Where a card is applied to an order in whole smallest units, it is active, not expired, in the
-- order's currency and not empty, and the order is split exactly, with the largest share that the
-- balance covers.
pub quote-IsShare :
    (round : Rounding) (card : GiftCard) (n : ℕ) (currency : Currency) (now : ℕ)
    {q : GiftCardApplied}
    → apply_card round card (n * minor_unit currency) currency now ≡ ok q
    → (card.active ≡ true)
      × (is_past card.expires_at now ≡ false)
      × (card.currency ≡ currency)
      × (0 < card.balance)
      × IsShare card.balance (n * minor_unit currency) (minor_unit currency) q.applied q.remaining
quote-IsShare round card n currency now h =
    let (active, unexpired, same, funded, applied, remaining) =
      apply_card_parts round card (n * minor_unit currency) currency now h in
    (
      active,
      unexpired,
      same_currency card.currency currency same,
      funded,
      rw (remaining, applied) (share round card.balance n currency),
    )
