-- ===== src/Games.antt =====
-- Prizes of games: the tables and `claimPrize` of apps/api/src/games/games.service.ts.
--
-- A draw is a number below the sum of the weights, as `Math.random` gives it. What other players do
-- between a read of the prizes and the claim that follows it is an argument.
pub mod Stock
pub mod Plays
use pay_kh.Prelude.{
  ℕ, zero, suc, Result, ok, err, internal_error, ◌-◌, Bool, true, false, not, ◌&&◌, ◌||◌, Option,
  none, some, List, [], ◌∷◌, ltb, ◌==◌, if◌then◌else◌, Table, lookup, insert,
}
use pay_kh.Loyalty.{LoyaltyDb}

pub data PrizeType : Type 0 where
  points reward no_prize : PrizeType

-- A stock of -1, which is unlimited, is `none`.
pub record Prize : Type 0 where
  pub id : ℕ
  pub game_id : ℕ
  pub type : PrizeType
  pub points_value : ℕ
  pub weight : ℕ
  pub stock : Option ℕ
  pub awarded : ℕ

pub data PlayStatus : Type 0 where
  issued revealed : PlayStatus

pub record GamePlay : Type 0 where
  pub id : ℕ
  pub game_id : ℕ
  pub store_id : ℕ
  pub customer_id : Option ℕ
  pub prize_id : Option ℕ
  pub status : PlayStatus
  pub won : Bool
  pub payment_id : Option ℕ

pub record Game : Type 0 where
  pub id : ℕ
  pub store_id : ℕ
  pub active : Bool

pub record GameDb : Type 0 where
  pub games : Table Game
  pub prizes : Table Prize
  pub plays : Table GamePlay
  pub loyalty : LoyaltyDb

abbrev pub is_revealed : PlayStatus → Bool
is_revealed issued = false
is_revealed revealed = true

-- `prizeAvailable`
abbrev pub prize_available : Prize → Bool
prize_available p = ltb 0 p.weight && (elim p.stock [ none ↦ true | some n ↦ ltb 0 n ])

abbrev pub is_excluded : ℕ → List ℕ → Bool
is_excluded id [] = false
is_excluded id (x ∷ xs) = (x == id) || is_excluded id xs

unfoldable pub open_prizes : (game_id : ℕ) → (excluded : List ℕ) → Table Prize → List Prize
open_prizes game_id excluded [] = []
open_prizes game_id excluded ((id, p) ∷ t) =
    if (p.game_id == game_id) && prize_available p && not (is_excluded p.id excluded)
    then p ∷ open_prizes game_id excluded t
    else open_prizes game_id excluded t

-- The prize that a roll falls on; the last one if it falls on none.
unfoldable pub choose : (roll : ℕ) → Prize → List Prize → Prize
choose roll p [] = p
choose roll p (q ∷ ps) = if ltb roll p.weight then p else choose (roll - p.weight) q ps

-- The write of a claim: without a condition where the stock is unlimited in the row that was read,
-- else only if a unit is still there. A row that is gone makes the first throw.
unfoldable pub claim_unit : Prize → Table Prize → Result (Option (Table Prize))
claim_unit chosen t = elim (lookup chosen.id t) [
  | none ↦ elim chosen.stock [ none ↦ err internal_error | some n ↦ ok none ]
  | some row ↦ elim chosen.stock [
    | none ↦ ok (some (insert chosen.id (record row { awarded = suc row.awarded }) t))
    | some seen ↦ elim row.stock [
      | none ↦ ok none
      | some zero ↦ ok none
      | some (suc n) ↦
          ok (some (insert chosen.id (record row { stock = some n; awarded = suc row.awarded }) t))
    ]
  ]
]

-- The row that a claim returns: a limited one with the unit taken.
abbrev pub as_claimed : Prize → Prize
as_claimed p = elim p.stock [
  | none ↦ p
  | some n ↦ record p { stock = some (n - 1); awarded = suc p.awarded }
]

-- `claimPrize`: at most so many rounds.
unfoldable pub claim_rounds :
    (attempts : ℕ)
    → (game_id : ℕ) → (roll : ℕ → ℕ) → (others : ℕ → Table Prize → Table Prize)
    → (excluded : List ℕ) → Table Prize
    → Result (Option Prize) × Table Prize
claim_rounds zero game_id roll others excluded t = (ok none, t)
claim_rounds (suc left) game_id roll others excluded t = elim (open_prizes game_id excluded t) [
  | [] ↦ (ok none, t)
  | p ∷ ps ↦
      let chosen = choose (roll left) p ps in
      let meanwhile = others left t in
      let again = claim_rounds left game_id roll others (chosen.id ∷ excluded) meanwhile in
      elim (claim_unit chosen meanwhile) [
        | err e ↦ (err e, meanwhile)
        | ok none ↦ again
        | ok (some t') ↦ (ok (some (as_claimed chosen)), t')
      ]
]

abbrev pub claim_prize :
    (game_id : ℕ)
    → (roll : ℕ → ℕ) → (others : ℕ → Table Prize → Table Prize) → Table Prize
    → Result (Option Prize) × Table Prize
claim_prize game_id roll others t = claim_rounds 10 game_id roll others [] t
