-- ===== src/Settlements/Totals.antt =====
-- What the statements add up to (`settleGroup` of
-- apps/api/src/settlements/settlement.service.ts).
use pay_kh.Prelude.{
  ℕ, All, ◌+◌, ◌-◌, ◌*◌, ◌≤◌, ◌≡◌, refl, inl, inr, some, List, [], ◌∷◌, length, sum_by, arith, ◌==◌,
  if◌then◌else◌, Option-cases, Bool-cases,
}
use pay_kh.Types.{Currency}
use pay_kh.Decimal.{Rounding}
use pay_kh.Settlements.{
  SettlementPayment, SettlementAmounts, Settlement, SettlementDb, compute_settlement_amounts,
  is_unclaimed, fresh_of, claim_all, is_keyed, find_settlement, add_amounts, add_to, settle_group,
}

-- What `f` adds up to over the payments that a statement has claimed.
abbrev pub claimed : (SettlementPayment → ℕ) → List SettlementPayment → ℕ
claimed f = sum_by (λ p. if is_unclaimed p then 0 else f p)

-- The statements together show the gross, the refunds and the number of the payments that they
-- claim, and their gross is what they show as refunds, fees and net.
pub record IsSettled (db : SettlementDb) : Type 0 where
  pub gross : sum_by (λ s. s.amounts.gross) db.settlements ≡ claimed (λ p. p.amount) db.payments
  pub refunds :
      sum_by (λ s. s.amounts.refunds) db.settlements ≡ claimed (λ p. p.refunded_amount) db.payments
  pub count : sum_by (λ s. s.payment_count) db.settlements ≡ claimed (λ p. 1) db.payments
  pub net :
      sum_by (λ s. s.amounts.refunds + s.amounts.fee + s.amounts.net) db.settlements
      ≡ sum_by (λ s. s.amounts.gross) db.settlements

-- Claiming a group moves exactly its fresh payments to the claimed ones.
claimed-claim_all :
    (f : SettlementPayment → ℕ) (g : ℕ → ℕ → ℕ) (group : List ℕ) (id : ℕ)
    (ps : List SettlementPayment)
    → ((p : SettlementPayment) → f p ≡ g p.amount p.refunded_amount)
    → claimed f (claim_all group id ps) ≡ claimed f ps + sum_by f (fresh_of group ps)
unfolding claim_all fresh_of
claimed-claim_all f g group id [] h = omega arith
claimed-claim_all f g group id (p ∷ ps) h =
    let ih = claimed-claim_all f g group id ps h in
    let same = h p in let same' = h (record p { settlement_id = some id }) in ground arith

-- The group's payments leave nothing unclaimed behind.
fresh_of-claim_all :
    (group : List ℕ) (id : ℕ) (ps : List SettlementPayment)
    → fresh_of group (claim_all group id ps) ≡ []
unfolding claim_all fresh_of
fresh_of-claim_all group id [] = refl
fresh_of-claim_all group id (p ∷ ps) = let ih = fresh_of-claim_all group id ps in ground arith

-- Adding to the statement that was found adds to the sum over all of them.
sum_by-add_to :
    (f : Settlement → ℕ) (store_id : ℕ) (currency : Currency) (day : ℕ) (a : SettlementAmounts)
    (count extra : ℕ) (ss : List Settlement) {s : Settlement}
    → find_settlement store_id currency day ss ≡ some s
    → ((t : Settlement) → f (add_amounts a count t) ≡ f t + extra)
    → sum_by f (add_to store_id currency day a count ss) ≡ sum_by f ss + extra
unfolding add_to find_settlement
sum_by-add_to f store_id currency day a count extra [] found h = absurd (ground arith)
sum_by-add_to f store_id currency day a count extra (t ∷ ss) {s} found h =
    elim (Bool-cases (is_keyed store_id currency day t)) [
      | inl here ↦ let e = h t in ground arith
      | inr other ↦
          let there : find_settlement store_id currency day ss ≡ some s = ground arith in
          let ih = sum_by-add_to f store_id currency day a count extra ss there h in ground arith
    ]

fresh_of-covered :
    (group : List ℕ) (ps : List SettlementPayment)
    → All (λ p. p.refunded_amount ≤ p.amount) ps
    → sum_by (λ p. p.refunded_amount) (fresh_of group ps)
      ≤ sum_by (λ p. p.amount) (fresh_of group ps)
unfolding fresh_of
fresh_of-covered group [] h = omega arith
fresh_of-covered group (p ∷ ps) (within, h) = let ih = fresh_of-covered group ps h in ground arith

sum_by-one : (ps : List SettlementPayment) → sum_by (λ p. 1) ps ≡ length ps
sum_by-one [] = refl
sum_by-one (p ∷ ps) = omega (arith, sum_by-one ps)

fee_bound : (v fee_bps : ℕ) → fee_bps ≤ 10_000 → v * fee_bps ≤ v * 10_000
fee_bound v fee_bps h = grind arith

-- Of a volume, what is not the fee is the net amount, and the gross is made up of all three.
amounts_add_up :
    (round : Rounding) (gross refunds fee_bps : ℕ)
    → refunds ≤ gross
    → fee_bps ≤ 10_000
    → let a = compute_settlement_amounts round gross refunds fee_bps in
      (a.refunds + a.fee + a.net ≡ gross) × (a.gross ≡ gross) × (a.refunds ≡ refunds)
unfolding compute_settlement_amounts
amounts_add_up round gross refunds fee_bps h capped =
    let v = gross - refunds in
    let bound = fee_bound v fee_bps capped in
    let (low, high) = round.half_up_nearest (v * fee_bps) 10_000 (omega arith) in
    (omega arith, refl, refl)

-- With a fee of at most 100% and no payment refunded by more than its amount, a run over any
-- group, at whatever time the group was read, keeps the statements in agreement
-- with the payments: together they show the gross, the refunds and the number of the payments that
-- are claimed, each counted once, and refunds, fees and net make up the gross.
pub settle_group-IsSettled :
    (round : Rounding) (new_id store_id fee_bps : ℕ) (currency : Currency) (payout_date : ℕ)
    (group : List ℕ) (db : SettlementDb)
    → fee_bps ≤ 10_000
    → All (λ p. p.refunded_amount ≤ p.amount) db.payments
    → IsSettled db
    → IsSettled (settle_group round new_id store_id fee_bps currency payout_date group db).1
unfolding settle_group
settle_group-IsSettled round new_id store_id fee_bps currency payout_date group db capped covered
      h =
    let fresh = fresh_of group db.payments in
    let g = sum_by (λ p. p.amount) fresh in
    let r = sum_by (λ p. p.refunded_amount) fresh in
    let a = compute_settlement_amounts round g r fee_bps in
    let n = length fresh in
    let (parts, ag, ar) =
      amounts_add_up round g r fee_bps (fresh_of-covered group db.payments covered) capped in
    let ones = sum_by-one fresh in
    let moved =
      λ (f : SettlementPayment → ℕ) (k : ℕ → ℕ → ℕ)
          (same : (p : SettlementPayment) → f p ≡ k p.amount p.refunded_amount) (id : ℕ).
        claimed-claim_all f k group id db.payments same in
    elim (Bool-cases (n == 0)) [
      | inl none_fresh ↦ rw none_fresh h
      | inr some_fresh ↦
          elim (Option-cases (find_settlement store_id currency payout_date db.settlements)) [
            | inl new ↦
                let mg = moved (λ p. p.amount) (λ x y. x) (λ p. refl) new_id in
                let mr = moved (λ p. p.refunded_amount) (λ x y. y) (λ p. refl) new_id in
                let mc = moved (λ p. 1) (λ x y. 1) (λ p. refl) new_id in
                rw (some_fresh, new)
                  (record {
                    gross = omega arith;
                    refunds = omega arith;
                    count = omega arith;
                    net = omega arith;
                  })
            | inr (s, found) ↦
                let mg = moved (λ p. p.amount) (λ x y. x) (λ p. refl) s.id in
                let mr = moved (λ p. p.refunded_amount) (λ x y. y) (λ p. refl) s.id in
                let mc = moved (λ p. 1) (λ x y. 1) (λ p. refl) s.id in
                let added =
                  λ (f : Settlement → ℕ) (extra : ℕ)
                      (e : (t : Settlement) → f (add_amounts a n t) ≡ f t + extra).
                    sum_by-add_to f store_id currency payout_date a n extra db.settlements found
                      e in
                let sg = added (λ t. t.amounts.gross) a.gross (λ t. refl) in
                let sr = added (λ t. t.amounts.refunds) a.refunds (λ t. refl) in
                let sc = added (λ t. t.payment_count) n (λ t. refl) in
                let sn =
                  added (λ t. t.amounts.refunds + t.amounts.fee + t.amounts.net)
                    (a.refunds + a.fee + a.net) (λ t. omega arith) in
                rw (some_fresh, found)
                  (record {
                    gross = omega arith;
                    refunds = omega arith;
                    count = omega arith;
                    net = omega arith;
                  })
          ]
    ]

-- A run that follows another over the same group writes nothing: no payment is counted twice, even
-- if both runs had read the group before either of them wrote.
pub settle_group_again :
    (round : Rounding) (new_id new_id' store_id fee_bps fee_bps' : ℕ) (currency : Currency)
    (payout_date : ℕ) (group : List ℕ) (db : SettlementDb)
    → let db' = (settle_group round new_id store_id fee_bps currency payout_date group db).1 in
      (settle_group round new_id' store_id fee_bps' currency payout_date group db').1 ≡ db'
unfolding settle_group
settle_group_again round new_id new_id' store_id fee_bps fee_bps' currency payout_date group db =
    elim (Bool-cases (length (fresh_of group db.payments) == 0)) [
      | inl idle ↦ rw (idle, idle) refl
      | inr busy ↦
          elim (Option-cases (find_settlement store_id currency payout_date db.settlements)) [
            | inl new ↦ rw (busy, new, fresh_of-claim_all group new_id db.payments) refl
            | inr (s, found) ↦ rw (busy, found, fresh_of-claim_all group s.id db.payments) refl
          ]
    ]
