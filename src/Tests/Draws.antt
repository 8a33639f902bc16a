-- ===== src/Tests/Draws.antt =====
-- Draws of prizes at concrete inputs.
use pay_kh.Prelude.{◌≡◌, refl, some, ok, [], ◌∷◌, Table, lookup, insert}
use pay_kh.Games.{points, Prize, open_prizes, choose, claim_unit, claim_rounds, claim_prize}
use pay_kh.Games.Stock.{Keeps, Keeps-refl, claim_prize-Keeps}

abbrev mug : Prize
mug = record {
  id = 1;
  game_id = 4;
  type = points;
  points_value = 20;
  weight = 3;
  stock = some 1;
  awarded = 0;
}

abbrev shelf : Table Prize
shelf = (1, mug) ∷ (2, record mug { id = 2; weight = 1; stock = some 5 }) ∷ []

claim_prize-Keeps_example : Keeps shelf (claim_prize 4 (λ k. 2) (λ k t. t) shelf).1
claim_prize-Keeps_example =
    claim_prize-Keeps 4 (λ k. 2) (λ k t. t) (λ k t limited. (Keeps-refl t, limited)) shelf
      (refl, (refl, tt))

mug_drawn :
    (claim_prize 4 (λ k. 2) (λ k t. t) shelf).0
    ≡ ok (some (record mug { stock = some 0; awarded = 1 }))
unfolding claim_rounds open_prizes choose claim_unit lookup insert
mug_drawn = refl
