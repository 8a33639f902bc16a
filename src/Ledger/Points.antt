-- ===== src/Ledger/Points.antt =====
-- The points half of a loyalty movement (`postPointsMovement`, `pointsBalanceFor` of
-- apps/api/src/ledger/ledger.service.ts). Points are signed; balances are read in units of 10^-4
-- points, the scale of the column.
use pay_kh.Prelude.{
  ℕ, zero, suc, not, ◌+◌, ◌*◌, ◌≡◌, ◌≢◌, refl, inl, inr, Bool, true, false, ◌&&◌, none, some, List,
  [], ◌∷◌, Result, ok, arith, ◌==◌, leb, if◌then◌else◌, ==_refl, Bool-cases, is_some_eq,
}
use pay_kh.Prelude.Int.{ℤ, pos, negsuc, pos_part, neg_part, sub_ℕ, ◌+ℤ◌, int_laws}
use pay_kh.Decimal.{Rounding, half_up_exact}
use pay_kh.Ledger.{
  Account, account_code, points_liability, points_expense, points_settled, points_breakage, points,
  currency_code, JournalEvent, points_earn, points_redeem, points_adjust, points_expire,
  points_redeem_reversal, debit, credit, alone, Line, Journal, is_posted, post, debit_of, credit_of,
}

pub data MovementType : Type 0 where
  earn redeem adjust expire redeem_reversal : MovementType

-- `points.${type.toLowerCase()}`
unfoldable pub movement_event : MovementType → JournalEvent
movement_event earn = points_earn
movement_event redeem = points_redeem
movement_event adjust = points_adjust
movement_event expire = points_expire
movement_event redeem_reversal = points_redeem_reversal

-- The account on the other side: from the sign, and then from the type.
unfoldable pub contra : MovementType → (increases : Bool) → Account
contra redeem_reversal true = points_settled
contra _ true = points_expense
contra redeem false = points_settled
contra _ false = points_breakage

abbrev pub is_positive : ℤ → Bool
is_positive (pos n) = leb 1 n
is_positive (negsuc n) = false

module _ (round : Rounding) where
  unfoldable pub post_points_movement :
      MovementType
      → (points_txn_id store_id customer_id : ℕ) → ℤ
      → List Journal
      → Result (List Journal)
  post_points_movement type points_txn_id store_id customer_id n journals =
      let magnitude = (pos_part n + neg_part n) * 10_000 * 10_000 in
      let up = is_positive n in
      let liability_line : Line = record {
        account = points_liability;
        direction = if up then credit else debit;
        amount = magnitude;
        customer_id = some customer_id;
      } in
      let contra_line : Line = record {
        account = contra type up;
        direction = if up then debit else credit;
        amount = magnitude;
        customer_id = none;
      } in
      if pos_part n + neg_part n == 0
      then ok journals
      else post round (movement_event type) (record { id = points_txn_id; suffix = alone })
          (some store_id) points (liability_line ∷ contra_line ∷ []) journals

-- What the entries of a customer's points liability add up to on one side.
unfoldable pub customer_side : (Line → ℕ) → ℕ → List Line → ℕ
customer_side side customer_id [] = 0
customer_side side customer_id (l ∷ ls) =
    (if is_some_eq l.customer_id customer_id
        && (account_code l.account == account_code points_liability)
      then side l
      else 0)
    + customer_side side customer_id ls

unfoldable pub booked_points : (Line → ℕ) → ℕ → List Journal → ℕ
booked_points side customer_id [] = 0
booked_points side customer_id (j ∷ js) =
    (if currency_code j.currency == currency_code points
      then customer_side side customer_id j.lines
      else 0)
    + booked_points side customer_id js

-- Credits less debits.
unfoldable pub points_balance_for : ℕ → List Journal → ℤ
points_balance_for customer_id journals =
    sub_ℕ (booked_points credit_of customer_id journals)
      (booked_points debit_of customer_id journals)

-- A number of points, in the units of the column.
abbrev pub in_column : ℤ → ℤ
in_column n = sub_ℕ (pos_part n * 10_000) (neg_part n * 10_000)

abbrev is_zero : ℤ → Bool
is_zero n = pos_part n + neg_part n == 0

-- The journal of a movement.
abbrev movement_journal : MovementType → (points_txn_id store_id customer_id : ℕ) → ℤ → Journal
movement_journal type points_txn_id store_id customer_id n =
    let up = is_positive n in
    let amount = (pos_part n + neg_part n) * 10_000 in
    record {
      event = movement_event type;
      reference = record { id = points_txn_id; suffix = alone };
      store_id = some store_id;
      currency = points;
      lines =
          record {
            account = points_liability;
            direction = if up then credit else debit;
            amount = amount;
            customer_id = some customer_id;
          }
          ∷ record {
            account = contra type up;
            direction = if up then debit else credit;
            amount = amount;
            customer_id = none;
          }
          ∷ [];
    }

posted :
    (round : Rounding) (type : MovementType) (points_txn_id store_id customer_id : ℕ) (n : ℤ)
    (journals : List Journal)
    → is_zero n ≡ false
    → is_posted (movement_event type) (record { id = points_txn_id; suffix = alone }) journals
      ≡ false
    → post_points_movement round type points_txn_id store_id customer_id n journals
      ≡ ok (movement_journal type points_txn_id store_id customer_id n ∷ journals)
unfolding post_points_movement post
posted round type points_txn_id store_id customer_id (pos zero) journals some_points new =
    absurd (ground arith)
posted round type points_txn_id store_id customer_id (pos (suc k)) journals some_points new =
    ground (arith, half_up_exact round (suc k * 10_000) 10_000 (omega arith))
posted round type points_txn_id store_id customer_id (negsuc k) journals some_points new =
    ground (arith, half_up_exact round (suc k * 10_000) 10_000 (omega arith))

-- The entries of a movement, on its customer's liability and on the others'.
movement_entries :
    (type : MovementType) (points_txn_id store_id customer_id other : ℕ) (n : ℤ)
    (journals : List Journal)
    → let js = movement_journal type points_txn_id store_id customer_id n ∷ journals in
      let amount = (pos_part n + neg_part n) * 10_000 in
      (booked_points credit_of other js
        ≡ (if (customer_id == other) && is_positive n then amount else 0)
          + booked_points credit_of other journals)
      × (booked_points debit_of other js
          ≡ (if (customer_id == other) && not (is_positive n) then amount else 0)
            + booked_points debit_of other journals)
unfolding booked_points customer_side
movement_entries type points_txn_id store_id customer_id other n journals =
    elim (Bool-cases (is_positive n)) [
      | inl up ↦ (ground arith, ground arith)
      | inr down ↦ (ground arith, ground arith)
    ]

no_movement :
    (round : Rounding) (type : MovementType) (points_txn_id store_id customer_id : ℕ) (n : ℤ)
    (journals : List Journal)
    → is_zero n ≡ true
    → post_points_movement round type points_txn_id store_id customer_id n journals ≡ ok journals
unfolding post_points_movement
no_movement round type points_txn_id store_id customer_id n journals zero_points =
    rw zero_points refl

-- A movement that was not posted before changes its customer's balance by exactly its points, and
-- the balance of no other customer.
pub movement_changes_balance :
    (round : Rounding) (type : MovementType) (points_txn_id store_id customer_id other : ℕ) (n : ℤ)
    (journals : List Journal)
    → customer_id ≢ other
    → is_posted (movement_event type) (record { id = points_txn_id; suffix = alone }) journals
      ≡ false
    → (journals' : List Journal) × (post_points_movement round type points_txn_id store_id
          customer_id n journals
        ≡ ok journals')
      × (points_balance_for customer_id journals'
          ≡ points_balance_for customer_id journals +ℤ in_column n)
      × (points_balance_for other journals' ≡ points_balance_for other journals)
unfolding points_balance_for
movement_changes_balance round type points_txn_id store_id customer_id other n journals ne new =
    elim (Bool-cases (is_zero n)) [
      | inl z ↦ (
        journals,
        no_movement round type points_txn_id store_id customer_id n journals z,
        grind int_laws,
        refl,
      )
      | inr nz ↦
          let (c, d) =
            movement_entries type points_txn_id store_id customer_id customer_id n journals in
          let (c', d') =
            movement_entries type points_txn_id store_id customer_id other n journals in
          (
            movement_journal type points_txn_id store_id customer_id n ∷ journals,
            posted round type points_txn_id store_id customer_id n journals nz new,
            grind (int_laws, ==_refl customer_id),
            ground arith,
          )
    ]

again :
    (round : Rounding) (type : MovementType) (points_txn_id store_id customer_id : ℕ) (n : ℤ)
    (journals : List Journal)
    → is_posted (movement_event type) (record { id = points_txn_id; suffix = alone }) journals
      ≡ true
    → post_points_movement round type points_txn_id store_id customer_id n journals ≡ ok journals
unfolding post_points_movement post
again round type points_txn_id store_id customer_id (pos zero) journals there = refl
again round type points_txn_id store_id customer_id (pos (suc k)) journals there =
    ground (arith, half_up_exact round (suc k * 10_000) 10_000 (omega arith))
again round type points_txn_id store_id customer_id (negsuc k) journals there =
    ground (arith, half_up_exact round (suc k * 10_000) 10_000 (omega arith))

-- A movement's posting is never refused: its two lines balance.
pub posting_total :
    (round : Rounding) (type : MovementType) (points_txn_id store_id customer_id : ℕ) (n : ℤ)
    (journals : List Journal)
    → (js : List Journal) × (post_points_movement round type points_txn_id store_id customer_id n
          journals
        ≡ ok js)
posting_total round type points_txn_id store_id customer_id n journals =
    elim (Bool-cases
      (is_posted (movement_event type) (record { id = points_txn_id; suffix = alone }) journals)) [
        | inl there ↦
            (journals, again round type points_txn_id store_id customer_id n journals there)
        | inr new ↦
            let (js, e, _, _) =
              movement_changes_balance round type points_txn_id store_id customer_id
                (suc customer_id) n journals (λ e. omega arith) new in
            (js, e)
      ]
