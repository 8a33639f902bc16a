-- ===== src/Settlements/Batches.antt =====
-- Batches of a store (`runForStore` of apps/api/src/settlements/settlement.service.ts).
use pay_kh.Prelude.{
  ℕ, suc, All, take, ◌≤◌, inl, inr, ◌&&◌, List, [], ◌∷◌, length, ◌==◌, Option-cases, Bool-cases,
}
use pay_kh.Types.{Currency}
use pay_kh.Decimal.{Rounding}
use pay_kh.Settlements.{
  SettlementPayment, SettlementDb, is_unclaimed, is_member, fresh_of, claim_all, find_settlement,
  settle_group, settle_groups, run_for_store, Group, groups_of, settleable,
}
use pay_kh.Settlements.Totals.{IsSettled, settle_group-IsSettled}

claim_all-covered :
    (group : List ℕ) (id : ℕ) (ps : List SettlementPayment)
    → All (λ p. p.refunded_amount ≤ p.amount) ps
    → All (λ p. p.refunded_amount ≤ p.amount) (claim_all group id ps)
unfolding claim_all
claim_all-covered group id [] h = tt
claim_all-covered group id (p ∷ ps) (within, h) =
    elim (Bool-cases (is_member group p.id && is_unclaimed p)) [
      | inl mine ↦ rw mine (within, claim_all-covered group id ps h)
      | inr other ↦ rw other (within, claim_all-covered group id ps h)
    ]

settle_group-covered :
    (round : Rounding) (new_id store_id fee_bps : ℕ) (currency : Currency) (payout_date : ℕ)
    (group : List ℕ) (db : SettlementDb)
    → All (λ p. p.refunded_amount ≤ p.amount) db.payments
    → All
        (λ p. p.refunded_amount ≤ p.amount)
        (settle_group round new_id store_id fee_bps currency payout_date group db).1.payments
unfolding settle_group
settle_group-covered round new_id store_id fee_bps currency payout_date group db h =
    elim (Bool-cases (length (fresh_of group db.payments) == 0)) [
      | inl idle ↦ rw idle h
      | inr busy ↦
          elim (Option-cases (find_settlement store_id currency payout_date db.settlements)) [
            | inl new ↦ rw (busy, new) (claim_all-covered group new_id db.payments h)
            | inr (s, found) ↦ rw (busy, found) (claim_all-covered group s.id db.payments h)
          ]
    ]

settle_groups-IsSettled :
    (round : Rounding) (new_id store_id fee_bps : ℕ) (groups : List Group) (db : SettlementDb)
    → fee_bps ≤ 10_000
    → All (λ p. p.refunded_amount ≤ p.amount) db.payments
    → IsSettled db
    → IsSettled (settle_groups round new_id store_id fee_bps groups db)
unfolding settle_groups
settle_groups-IsSettled round new_id store_id fee_bps [] db capped covered h = h
settle_groups-IsSettled round new_id store_id fee_bps (g ∷ gs) db capped covered h =
    let db' =
      (settle_group round new_id store_id fee_bps g.currency g.payout_date g.members db).1 in
    settle_groups-IsSettled round (suc new_id) store_id fee_bps gs db' capped
      (settle_group-covered round new_id store_id fee_bps g.currency g.payout_date g.members db
        covered)
      (settle_group-IsSettled round new_id store_id fee_bps g.currency g.payout_date g.members db
        capped covered h)

-- With a fee of at most 100% and no payment refunded by more than its amount, a batch of a store,
-- for whatever cutoff, keeps the statements in agreement with the payments.
pub run_for_store-IsSettled :
    (round : Rounding) (new_id store_id fee_bps cutoff : ℕ) (db : SettlementDb)
    → fee_bps ≤ 10_000
    → All (λ p. p.refunded_amount ≤ p.amount) db.payments
    → IsSettled db
    → IsSettled (run_for_store round new_id store_id fee_bps cutoff db)
unfolding run_for_store
run_for_store-IsSettled round new_id store_id fee_bps cutoff db capped covered h =
    settle_groups-IsSettled round new_id store_id fee_bps
      (groups_of (take 5000 (settleable store_id cutoff db.payments))) db capped covered h
