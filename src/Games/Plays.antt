-- ===== src/Games/Plays.antt =====
-- Plays of games: `creditPrize`, `reveal`, `drawAndRecord` and `play` of
-- apps/api/src/games/games.service.ts.
use pay_kh.Prelude.{
  ℕ, ◌+◌, Bool, true, false, not, ◌||◌, Option, none, some, Result, ok, err, ◌>>◌, throw_if,
  payment_not_found, invalid_request, ◌==◌, if◌then◌else◌, Table, lookup, insert,
}
use pay_kh.Prelude.Int.{pos}
use pay_kh.Decimal.{Rounding}
use pay_kh.Ledger.Points.{earn}
use pay_kh.Loyalty.{Customer, LoyaltyDb, move_points}
use pay_kh.Games.{points, no_prize, revealed, is_revealed, Prize, GamePlay, GameDb, claim_prize}

-- `!!prize && prize.type !== 'NONE'`
abbrev pub is_won : Option Prize → Bool
is_won none = false
is_won (some p) = elim p.type [ no_prize ↦ false | _ ↦ true ]

-- No customer is named, or one of the store.
abbrev pub is_own_customer : (store_id : ℕ) → Option ℕ → LoyaltyDb → Bool
is_own_customer store_id none db = true
is_own_customer store_id (some id) db = elim (lookup id db.customers) [
  | none ↦ false
  | some c ↦ c.store_id == store_id
]

module _ (round : Rounding) (now : ℕ) where
  -- `creditPrize`
  unfoldable pub credit_prize :
      (txn_id store_id : ℕ) → (customer_id : Option ℕ) → Option Prize → LoyaltyDb → Result LoyaltyDb
  credit_prize txn_id store_id customer_id none db = ok db
  credit_prize txn_id store_id none (some p) db = ok db
  credit_prize txn_id store_id (some id) (some p) db =
      if (elim p.type [ points ↦ false | _ ↦ true ]) || (p.points_value == 0)
      then ok db
      else elim (lookup id db.customers) [
        | none ↦ err payment_not_found
        | some c ↦
            let written : Customer = record c {
              points_balance = c.points_balance + p.points_value;
              lifetime_points = c.lifetime_points + p.points_value;
            } in
            move_points round now earn earn txn_id store_id none (pos p.points_value) written db
      ]

  -- `reveal`, from the play that it read on. The card and the claim stay written when the credit
  -- fails, whose result comes first.
  unfoldable pub reveal_from :
      GamePlay
      → (txn_id : ℕ) → (roll : ℕ → ℕ) → (others : ℕ → Table Prize → Table Prize) → GameDb
      → Result LoyaltyDb × GameDb
  reveal_from play txn_id roll others db =
      let (drawn, prizes) = claim_prize play.game_id roll others db.prizes in
      let prize : Option Prize = elim drawn [ ok p ↦ p | err e ↦ none ] in
      let shown : GamePlay = record play {
        status = revealed;
        won = is_won prize;
        prize_id = elim prize [ none ↦ none | some p ↦ some p.id ];
      } in
      let credited = credit_prize txn_id play.store_id play.customer_id prize db.loyalty in
      let loyalty : LoyaltyDb = elim credited [ ok l ↦ l | err e ↦ db.loyalty ] in
      if is_revealed play.status then (ok db.loyalty, db) else elim drawn [
        | err e ↦ (err e, record db { prizes = prizes })
        | ok p ↦ (
          credited,
          record db { prizes = prizes; plays = insert play.id shown db.plays; loyalty = loyalty },
        )
      ]

  unfoldable pub reveal :
      (store_id play_id txn_id : ℕ)
      → (roll : ℕ → ℕ) → (others : ℕ → Table Prize → Table Prize) → GameDb
      → Result LoyaltyDb × GameDb
  reveal store_id play_id txn_id roll others db = elim (lookup play_id db.plays) [
    | none ↦ (err payment_not_found, db)
    | some play ↦
        if play.store_id == store_id
        then reveal_from play txn_id roll others db
        else (err payment_not_found, db)
  ]

  -- `drawAndRecord`
  unfoldable pub draw_and_record :
      (play_id txn_id game_id store_id : ℕ)
      → (customer_id payment_id : Option ℕ) → (roll : ℕ → ℕ)
      → (others : ℕ → Table Prize → Table Prize) → GameDb
      → Result LoyaltyDb × GameDb
  draw_and_record play_id txn_id game_id store_id customer_id payment_id roll others db =
      let (drawn, prizes) = claim_prize game_id roll others db.prizes in
      let prize : Option Prize = elim drawn [ ok p ↦ p | err e ↦ none ] in
      let play : GamePlay = record {
        id = play_id;
        game_id = game_id;
        store_id = store_id;
        customer_id = customer_id;
        prize_id = elim prize [ none ↦ none | some p ↦ some p.id ];
        status = revealed;
        won = is_won prize;
        payment_id = payment_id;
      } in
      let credited = credit_prize txn_id store_id customer_id prize db.loyalty in
      let loyalty : LoyaltyDb = elim credited [ ok l ↦ l | err e ↦ db.loyalty ] in
      elim drawn [
        | err e ↦ (err e, record db { prizes = prizes })
        | ok p ↦ (
          credited,
          record db { prizes = prizes; plays = insert play_id play db.plays; loyalty = loyalty },
        )
      ]

  -- `play`
  unfoldable pub play :
      (play_id txn_id store_id game_id : ℕ)
      → (customer_id : Option ℕ) → (roll : ℕ → ℕ) → (others : ℕ → Table Prize → Table Prize)
      → GameDb
      → Result LoyaltyDb × GameDb
  play play_id txn_id store_id game_id customer_id roll others db =
      let checked : Result (Unit {0}) = elim (lookup game_id db.games) [
        | none ↦ err payment_not_found
        | some game ↦ do
          throw_if (not (game.store_id == store_id)) payment_not_found
          throw_if (not game.active) invalid_request
          throw_if (not (is_own_customer store_id customer_id db.loyalty)) invalid_request
      ] in
      elim checked [
        | err e ↦ (err e, db)
        | ok done ↦ draw_and_record play_id txn_id game_id store_id customer_id none roll others db
      ]
