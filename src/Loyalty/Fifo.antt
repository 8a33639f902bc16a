-- ===== src/Loyalty/Fifo.antt =====
-- The rule of expiry against the model it stands for: lots of points, the oldest used first. The
-- lots are an abstract view of the log of apps/api/src/loyalty/loyalty.service.ts.
use pay_kh.Prelude.{
  ℕ, suc, ◌+◌, ◌-◌, ◌≡◌, ◌≤◌, ◌<◌, refl, ◌∙◌, inl, inr, List, [], ◌∷◌, ◌++◌, ltb, if◌then◌else◌,
  sum_by, sum_by-append, arith, Bool-cases, All, All-append,
}
use pay_kh.Prelude.Int.{ℤ, pos, negsuc, pos_part, neg_part, +ℤ_parts}
use pay_kh.Loyalty.{PointsTransaction}
use pay_kh.Loyalty.Reconciled.{log_total}
use pay_kh.Loyalty.Expiry.{at_risk_before, earned_before, consumed, log_of}

-- What is left of the points of one earning.
pub record Lot : Type 0 where
  pub earned_at : ℕ
  pub left : ℕ

abbrev pub held : List Lot → ℕ
held lots = sum_by (λ l. l.left) lots

abbrev pub alive_before : (cutoff : ℕ) → List Lot → ℕ
alive_before cutoff lots = sum_by (λ l. if ltb l.earned_at cutoff then l.left else 0) lots

-- Uses points, the first lots first.
unfoldable pub use_points : ℕ → List Lot → List Lot
use_points n [] = []
use_points n (l ∷ ls) = record l { left = l.left - n } ∷ use_points (n - l.left) ls

-- One movement: a new lot at the end, or points used.
unfoldable pub move_lots : (points : ℤ) → (at : ℕ) → List Lot → List Lot
move_lots (pos n) at lots = lots ++ (record { earned_at = at; left = n } ∷ [])
move_lots (negsuc n) at lots = use_points (suc n) lots

-- The lots after a log, which is kept with its newest row first.
unfoldable pub lots_after : List PointsTransaction → List Lot
lots_after [] = []
lots_after (t ∷ ts) = move_lots t.points t.created_at (lots_after ts)

-- No row is older than the rows under it, and none uses more than is held.
unfoldable pub IsHistory : List PointsTransaction → Type 0
IsHistory [] = Unit
IsHistory (t ∷ ts) =
    All (λ u. u.created_at ≤ t.created_at) ts
    × (neg_part t.points ≤ held (lots_after ts))
    × IsHistory ts

abbrev IsBefore : ℕ → List Lot → Type 0
IsBefore t lots = All (λ l. l.earned_at ≤ t) lots

unfoldable IsSorted : List Lot → Type 0
IsSorted [] = Unit
IsSorted (l ∷ ls) = All (λ k. l.earned_at ≤ k.earned_at) ls × IsSorted ls

use_points-All :
    (P : ℕ → Type 0) (n : ℕ) (ls : List Lot)
    → All (λ l. P l.earned_at) ls
    → All (λ l. P l.earned_at) (use_points n ls)
unfolding use_points
use_points-All P n [] h = h
use_points-All P n (l ∷ ls) h = (h.0, use_points-All P (n - l.left) ls h.1)

use_points-IsSorted : (n : ℕ) (ls : List Lot) → IsSorted ls → IsSorted (use_points n ls)
unfolding use_points IsSorted
use_points-IsSorted n [] h = h
use_points-IsSorted n (l ∷ ls) h = (
  use_points-All (λ k. l.earned_at ≤ k) (n - l.left) ls h.0,
  use_points-IsSorted (n - l.left) ls h.1,
)

held-use_points : (n : ℕ) (ls : List Lot) → held (use_points n ls) ≡ held ls - n
unfolding use_points
held-use_points n [] = omega arith
held-use_points n (l ∷ ls) = omega (arith, held-use_points (n - l.left) ls)

-- Lots from the cutoff on hold nothing from before it.
none_before :
    (cutoff t : ℕ) (ls : List Lot)
    → cutoff ≤ t
    → All (λ k. t ≤ k.earned_at) ls
    → alive_before cutoff ls ≡ 0
none_before cutoff t [] le h = refl
none_before cutoff t (l ∷ ls) le h = ground (arith, none_before cutoff t ls le h.1, h.0)

alive-use_points :
    (cutoff n : ℕ) (ls : List Lot)
    → IsSorted ls
    → alive_before cutoff (use_points n ls) ≡ alive_before cutoff ls - n
unfolding use_points IsSorted
alive-use_points cutoff n [] h = omega arith
alive-use_points cutoff n (l ∷ ls) h = elim (Bool-cases (ltb l.earned_at cutoff)) [
  | inl before ↦ ground (arith, alive-use_points cutoff (n - l.left) ls h.1)
  | inr after ↦ ground (
    arith,
    alive-use_points cutoff (n - l.left) ls h.1,
    none_before cutoff l.earned_at ls (ground arith) h.0,
  )
]

append-IsSorted :
    (ls : List Lot) (lot : Lot)
    → IsSorted ls
    → IsBefore lot.earned_at ls
    → IsSorted (ls ++ (lot ∷ []))
unfolding IsSorted
append-IsSorted [] lot h before = (tt, tt)
append-IsSorted (l ∷ ls) lot h before = (
  All-append (λ k. l.earned_at ≤ k.earned_at) ls (lot ∷ []) h.0 (before.0, tt),
  append-IsSorted ls lot h.1 before.1,
)

move_lots-IsBefore :
    (t : ℕ) (points : ℤ) (at : ℕ) (ls : List Lot)
    → at ≤ t
    → IsBefore t ls
    → IsBefore t (move_lots points at ls)
unfolding move_lots
move_lots-IsBefore t (pos n) at ls le h =
    All-append (λ l. l.earned_at ≤ t) ls (record { earned_at = at; left = n } ∷ []) h (le, tt)
move_lots-IsBefore t (negsuc n) at ls le h = use_points-All (λ k. k ≤ t) (suc n) ls h

move_lots-IsSorted :
    (points : ℤ) (at : ℕ) (ls : List Lot)
    → IsSorted ls
    → IsBefore at ls
    → IsSorted (move_lots points at ls)
unfolding move_lots
move_lots-IsSorted (pos n) at ls h before =
    append-IsSorted ls (record { earned_at = at; left = n }) h before
move_lots-IsSorted (negsuc n) at ls h before = use_points-IsSorted (suc n) ls h

held-move_lots :
    (points : ℤ) (at : ℕ) (ls : List Lot)
    → held (move_lots points at ls) ≡ held ls + pos_part points - neg_part points
unfolding move_lots
held-move_lots (pos n) at ls =
    omega (arith, sum_by-append (λ l. l.left) ls (record { earned_at = at; left = n } ∷ []))
held-move_lots (negsuc n) at ls = omega (arith, held-use_points (suc n) ls)

alive-move_lots :
    (cutoff : ℕ) (points : ℤ) (at : ℕ) (ls : List Lot)
    → IsSorted ls
    → alive_before cutoff (move_lots points at ls)
      ≡ alive_before cutoff ls + (if ltb at cutoff then pos_part points else 0) - neg_part points
unfolding move_lots
alive-move_lots cutoff (pos n) at ls h =
    let added =
      sum_by-append (λ l. if ltb l.earned_at cutoff then l.left else 0) ls
        (record { earned_at = at; left = n } ∷ []) in
    added ∙ ground arith
alive-move_lots cutoff (negsuc n) at ls h = ground (arith, alive-use_points cutoff (suc n) ls h)

-- No lot is younger than the log.
lots_after-IsBefore :
    (t : ℕ) (txns : List PointsTransaction)
    → All (λ u. u.created_at ≤ t) txns
    → IsBefore t (lots_after txns)
unfolding lots_after
lots_after-IsBefore t [] h = tt
lots_after-IsBefore t (u ∷ us) h =
    move_lots-IsBefore t u.points u.created_at (lots_after us) h.0 (lots_after-IsBefore t us h.1)

lots_after-IsSorted : (txns : List PointsTransaction) → IsHistory txns → IsSorted (lots_after txns)
unfolding lots_after IsHistory IsSorted
lots_after-IsSorted [] h = tt
lots_after-IsSorted (t ∷ ts) (times, covered, rest) =
    move_lots-IsSorted t.points t.created_at (lots_after ts) (lots_after-IsSorted ts rest)
      (lots_after-IsBefore t.created_at ts times)

abbrev earned : List PointsTransaction → ℕ
earned txns = sum_by (λ t. pos_part t.points) txns

-- The lots hold what was earned and not used.
held-lots_after :
    (txns : List PointsTransaction)
    → IsHistory txns
    → held (lots_after txns) + consumed txns ≡ earned txns
unfolding lots_after IsHistory
held-lots_after [] h = refl
held-lots_after (t ∷ ts) (times, covered, rest) =
    omega (
      arith,
      held-lots_after ts rest,
      held-move_lots t.points t.created_at (lots_after ts),
      covered,
    )

-- Where all is from before the cutoff, all that was earned counts.
earned_before_all :
    (cutoff t : ℕ) (txns : List PointsTransaction)
    → t < cutoff
    → All (λ u. u.created_at ≤ t) txns
    → earned_before cutoff txns ≡ earned txns
earned_before_all cutoff t [] lt h = refl
earned_before_all cutoff t (u ∷ us) lt h = ground (arith, earned_before_all cutoff t us lt h.1, h.0)

alive-lots_after :
    (cutoff : ℕ) (txns : List PointsTransaction)
    → IsHistory txns
    → alive_before cutoff (lots_after txns) ≡ earned_before cutoff txns - consumed txns
unfolding lots_after IsHistory
alive-lots_after cutoff [] h = refl
alive-lots_after cutoff (t ∷ ts) (times, covered, rest) =
    let ih = alive-lots_after cutoff ts rest in
    let move =
      alive-move_lots cutoff t.points t.created_at (lots_after ts) (lots_after-IsSorted ts rest) in
    elim (Bool-cases (ltb t.created_at cutoff)) [
      | inl before ↦
          let all = earned_before_all cutoff t.created_at ts (ground arith) times in
          let total = held-lots_after ts rest in ground (arith, ih, move, all, total)
      | inr after ↦ ground (arith, ih, move)
    ]

-- The signed sum of a log, from its two sums.
log_total_parts :
    (id : ℕ) (txns : List PointsTransaction)
    → pos_part (log_total id txns) + consumed (log_of id txns)
      ≡ neg_part (log_total id txns) + earned (log_of id txns)
unfolding log_total
log_total_parts id [] = refl
log_total_parts id (t ∷ ts) =
    ground (arith, log_total_parts id ts, +ℤ_parts t.points (log_total id ts))

alive_le_held : (cutoff : ℕ) (ls : List Lot) → alive_before cutoff ls ≤ held ls
alive_le_held cutoff [] = omega arith
alive_le_held cutoff (l ∷ ls) = ground (arith, alive_le_held cutoff ls)

-- For the log of a customer in which time runs forward, that never uses more than is held and that
-- adds up to the balance: the points at risk, which `atRiskBefore` computes from two sums, are what
-- the lots from before the cutoff still hold when the oldest points are always used first.
pub at_risk_before-alive :
    (id cutoff balance : ℕ) (txns : List PointsTransaction)
    → IsHistory (log_of id txns)
    → log_total id txns ≡ pos balance
    → at_risk_before (log_of id txns) balance cutoff
      ≡ alive_before cutoff (lots_after (log_of id txns))
unfolding at_risk_before
at_risk_before-alive id cutoff balance txns h total =
    let txns_of = log_of id txns in
    let alive = alive-lots_after cutoff txns_of h in
    let all = held-lots_after txns_of h in
    let le = alive_le_held cutoff (lots_after txns_of) in
    let sum = log_total_parts id txns in ground arith
