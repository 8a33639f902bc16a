-- ===== src/Checkout/Price.antt =====
-- What a payer is charged (`create` of apps/api/src/payments/payments.service.ts): coupon, gift card
-- and charge make up the order.
use pay_kh.Prelude.{
  ℕ, ◌+◌, ◌*◌, ◌≡◌, ◌≤◌, refl, sym, ap, ◌∙◌, inl, inr, Option, none, some, ok, Option-cases,
  Result-cases, arith,
}
use pay_kh.Types.{Currency, usd, khr}
use pay_kh.Decimal.{Rounding}
use pay_kh.Money.{validate_amount, format_amount, bound_max}
use pay_kh.Money.RoundTrip.{validate_amount-IsCharge, reread, whole_units, units-fine}
use pay_kh.Payments.{CouponSnapshot, GiftCardSnapshot}
use pay_kh.Coupons
use pay_kh.Coupons.Quote.{quote-IsOffer, quote-whole}
use pay_kh.GiftCards
use pay_kh.GiftCards.Quote.{quote-IsShare}
use pay_kh.Checkout.{CreatePayment, Catalog, Charge, price_coupon, price_gift_card, price_order}

-- What a code takes off: nothing where the request has none.
abbrev pub discounted : (code : Option ℕ) → Option CouponSnapshot → ℕ
discounted none s = 0
discounted (some code) none = 0
discounted (some code) (some s) = s.discount

abbrev pub covered : (code : Option ℕ) → Option GiftCardSnapshot → ℕ
covered none s = 0
covered (some code) none = 0
covered (some code) (some s) = s.applied

same_unit : (c : Currency) → Coupons.minor_unit c ≡ GiftCards.minor_unit c
same_unit usd = refl
same_unit khr = refl

module _ (round : Rounding) (now store_id : ℕ) (dto : CreatePayment) where
  coupon_part :
      (customer_id : Option ℕ) (n : ℕ) (db : Coupons.CouponDb) {charged : ℕ}
      {snapshot : Option CouponSnapshot}
      → let amount = n * GiftCards.minor_unit dto.currency in
        amount ≤ bound_max dto.currency
        → price_coupon round now store_id dto customer_id amount db ≡ ok (charged, snapshot)
        → (m : ℕ) × (charged ≡ m * GiftCards.minor_unit dto.currency)
          × (charged + discounted dto.coupon_code snapshot ≡ amount)
  unfolding price_coupon
  coupon_part customer_id n db {charged} {snapshot} most h =
      let amount = n * GiftCards.minor_unit dto.currency in
      elim (Option-cases dto.coupon_code) [
        | inl no_code ↦ (n, ground arith, ground arith)
        | inr (code, is_code) ↦
            elim (Result-cases
              (Coupons.quote round store_id (some code) amount dto.currency customer_id now db)) [
                | inl (e, failed) ↦ absurd (ground arith)
                | inr (q, quoted) ↦
                    elim (Result-cases (
                      validate_amount (format_amount round q.amount_after dto.currency)
                        dto.currency)) [
                          | inl (e, failed) ↦ absurd (ground arith)
                          | inr (a, read) ↦
                              let unit = same_unit dto.currency in
                              let (_, _, _, _, _, _, offer) =
                                quote-IsOffer round store_id code n dto.currency customer_id now db
                                  {q = q}
                                  (ap
                                      (λ u.
                                        Coupons.quote round store_id (some code) (n * u)
                                          dto.currency customer_id now db)
                                      unit
                                    ∙ quoted) in
                              let complete : q.discount + q.amount_after ≡ amount =
                                offer.complete ∙ ap (λ u. n * u) unit in
                              let (m, whole) =
                                quote-whole round store_id code amount dto.currency customer_id now
                                  db {q = q} quoted in
                              let whole' : q.amount_after ≡ m * GiftCards.minor_unit dto.currency =
                                whole ∙ ap (λ u. m * u) unit in
                              let same : a ≡ q.amount_after =
                                reread round q.amount_after dto.currency (omega arith)
                                  (rw whole' (units-fine m dto.currency)) read in
                              let is_a : charged ≡ a = ground arith in
                              let off : discounted dto.coupon_code snapshot ≡ q.discount =
                                ground arith in
                              (m, is_a ∙ same ∙ whole', omega arith)
                        ]
              ]
      ]

  gift_part :
      (n : ℕ) (coupon : Option CouponSnapshot) (db : GiftCards.GiftCardDb) {charge : Charge}
      → let amount = n * GiftCards.minor_unit dto.currency in
        price_gift_card round now store_id dto amount coupon db ≡ ok charge
        → (charge.coupon ≡ coupon)
          × (charge.amount + covered dto.gift_card_code charge.gift_card ≡ amount)
  unfolding price_gift_card GiftCards.quote
  gift_part n coupon db {charge} h =
      let amount = n * GiftCards.minor_unit dto.currency in
      elim (Option-cases dto.gift_card_code) [
        | inl no_code ↦ (ground arith, ground arith)
        | inr (code, is_code) ↦ elim (Option-cases (GiftCards.find_code store_id code db.cards)) [
          | inl missing ↦ absurd (ground arith)
          | inr (card, found) ↦
              elim (Result-cases (GiftCards.apply_card round card amount dto.currency now)) [
                | inl (e, failed) ↦ absurd (ground arith)
                | inr (g, applied) ↦
                    let (_, _, _, _, share) =
                      quote-IsShare round card n dto.currency now {q = g} applied in
                    let all = share.complete in (ground arith, ground arith)
              ]
        ]
      ]

  -- For an order whose amount was accepted: what the payer is charged, what the gift card pays and
  -- what the coupon takes off make up the order's amount exactly, where a code that the request does
  -- not have counts for nothing.
  pub price_order-adds_up :
      (customer_id : Option ℕ) (catalog : Catalog) {amount : ℕ} {charge : Charge}
      → validate_amount dto.amount dto.currency ≡ ok amount
      → price_order round now store_id dto customer_id amount catalog ≡ ok charge
      → charge.amount
          + covered dto.gift_card_code charge.gift_card
          + discounted dto.coupon_code charge.coupon
        ≡ amount
  unfolding price_order
  price_order-adds_up customer_id catalog {amount} {charge} valid h =
      let sound = validate_amount-IsCharge dto.amount dto.currency valid in
      let (n, whole) = whole_units amount dto.currency sound.no_finer in
      elim (Result-cases (price_coupon round now store_id dto customer_id amount catalog.coupons)) [
        | inl (e, failed) ↦ absurd (ground arith)
        | inr ((charged, snapshot), priced) ↦
            let rest : price_gift_card round now store_id dto charged snapshot catalog.gift_cards
                ≡ ok charge =
              ground arith in
            let (m, left, sum) =
              coupon_part customer_id n catalog.coupons {charged = charged} {snapshot = snapshot}
                (rw (← whole) sound.at_most)
                (ap (λ a. price_coupon round now store_id dto customer_id a catalog.coupons)
                    (sym whole)
                  ∙ priced) in
            let (kept, all) = gift_part m snapshot catalog.gift_cards {charge = charge} (
              ap (λ a. price_gift_card round now store_id dto a snapshot catalog.gift_cards)
                (sym left)
              ∙ rest) in
            let same = ap (discounted dto.coupon_code) kept in omega arith
      ]
