-- ===== src/Games/Stock.antt =====
-- Draws and the stock of prizes (`claimPrize` of
-- apps/api/src/games/games.service.ts).
use mathlib.Core.Path.{subst}
use pay_kh.Prelude.{
  ℕ, zero, suc, ◌+◌, ◌≡◌, refl, sym, ◌∙◌, ◌⊎◌, inl, inr, true, false, Option, none, some, List, [],
  ◌∷◌, arith, if_cases, Bool-cases, Result, Result-cases, ok, err, Table, All, ◌-◌, Bool, lookup,
  insert, lookup-insert, ◌==◌,
}
use pay_kh.Games.{Prize, open_prizes, choose, as_claimed, claim_unit, claim_rounds, claim_prize}

List-cases : (l : List Prize) → (l ≡ []) ⊎ ((p : Prize) × (ps : List Prize) × (l ≡ p ∷ ps))
List-cases [] = inl refl
List-cases (p ∷ ps) = inr (p, ps, refl)

-- Every prize with a limited stock stays, and what is left and what was awarded add up to the same.
abbrev pub Keeps : Table Prize → Table Prize → Type 0
Keeps t t' =
    (id : ℕ) (p : Prize) (n : ℕ)
    → lookup id t ≡ some p
    → p.stock ≡ some n
    → (p' : Prize) × (n' : ℕ) × (lookup id t' ≡ some p')
      × (p'.stock ≡ some n')
      × (n' + p'.awarded ≡ n + p.awarded)

pub Keeps-refl : (t : Table Prize) → Keeps t t
Keeps-refl t id p n found limited = (p, n, found, limited, refl)

Keeps-trans : (a b c : Table Prize) → Keeps a b → Keeps b c → Keeps a c
Keeps-trans a b c h k id p n found limited =
    let (q, m, found', limited', sum) = h id p n found limited in
    let (r, l, found'', limited'', sum') = k id q m found' limited' in
    (r, l, found'', limited'', sum' ∙ sum)

abbrev pub is_limited : Prize → Bool
is_limited p = elim p.stock [ none ↦ false | some n ↦ true ]

-- Every prize of the table has a limited stock.
abbrev pub Limited : Table Prize → Type 0
Limited t = All (λ row. is_limited row.1 ≡ true) t

-- The write of a claim, from any read of a prize with a limited stock.
claim_unit-Keeps :
    (chosen : Prize) (t t' : Table Prize)
    → is_limited chosen ≡ true
    → claim_unit chosen t ≡ ok (some t')
    → (row : Prize) × (n : ℕ) × (lookup chosen.id t ≡ some row)
      × (row.stock ≡ some (suc n))
      × (t' ≡ insert chosen.id (record row { stock = some n; awarded = suc row.awarded }) t)
unfolding claim_unit
claim_unit-Keeps chosen t t' limited h = ground arith

insert-Keeps :
    (k : ℕ) (row : Prize) (n : ℕ) (t : Table Prize)
    → lookup k t ≡ some row
    → row.stock ≡ some (suc n)
    → Keeps t (insert k (record row { stock = some n; awarded = suc row.awarded }) t)
insert-Keeps k row n t found stock id p m there limited = elim (Bool-cases (k == id)) [
  | inl same ↦
      let row' : Prize = record row { stock = some n; awarded = suc row.awarded } in
      let at = lookup-insert k id row' t in (row', n, ground arith, refl, ground arith)
  | inr other ↦
      let row' : Prize = record row { stock = some n; awarded = suc row.awarded } in
      let at = lookup-insert k id row' t in (p, m, ground arith, limited, refl)
]

insert-Limited :
    (k : ℕ) (p : Prize) (t : Table Prize) → is_limited p ≡ true → Limited t → Limited (insert k p t)
unfolding insert
insert-Limited k p [] h all = (h, tt)
insert-Limited k p ((j, q) ∷ t) h all =
    if_cases Limited (j == k) _ _ (λ _. (h, all.1)) (λ _. (all.0, insert-Limited k p t h all.1))

open_prizes-AreLimited :
    (game_id : ℕ) (excluded : List ℕ) (t : Table Prize)
    → Limited t
    → All (λ p. is_limited p ≡ true) (open_prizes game_id excluded t)
unfolding open_prizes
open_prizes-AreLimited game_id excluded [] h = tt
open_prizes-AreLimited game_id excluded ((id, p) ∷ t) h =
    if_cases (All (λ q. is_limited q ≡ true)) _ (p ∷ open_prizes game_id excluded t)
      (open_prizes game_id excluded t) (λ _. (h.0, open_prizes-AreLimited game_id excluded t h.1))
      (λ _. open_prizes-AreLimited game_id excluded t h.1)

choose-IsLimited :
    (roll : ℕ) (p : Prize) (ps : List Prize)
    → is_limited p ≡ true
    → All (λ q. is_limited q ≡ true) ps
    → is_limited (choose roll p ps) ≡ true
unfolding choose
choose-IsLimited roll p [] h hs = h
choose-IsLimited roll p (q ∷ ps) h hs =
    if_cases (λ c. is_limited c ≡ true) _ _ _ (λ _. h)
      (λ _. choose-IsLimited (roll - p.weight) q ps hs.0 hs.1)

module _ (game_id : ℕ) (roll : ℕ → ℕ) (others : ℕ → Table Prize → Table Prize)
    (others_keep : (k : ℕ) (t : Table Prize)
      → Limited t
      → Keeps t (others k t) × Limited (others k t)) where
  abbrev After : Table Prize → Result (Option Prize) × Table Prize → Type 0
  After t done = Keeps t done.1 × Limited done.1

  claim_rounds-After :
      (attempts : ℕ) (excluded : List ℕ) (t : Table Prize)
      → Limited t
      → After t (claim_rounds attempts game_id roll others excluded t)
  unfolding claim_rounds
  claim_rounds-After zero excluded t limited = (Keeps-refl t, limited)
  claim_rounds-After (suc left) excluded t limited =
      let ps = open_prizes game_id excluded t in
      let run = claim_rounds (suc left) game_id roll others excluded t in
      elim (List-cases ps) [
        | inl nothing ↦
            let e : run ≡ (ok none, t) = rw (claim_rounds, nothing) refl in
            subst (After t) (sym e) (Keeps-refl t, limited)
        | inr (p, qs, found) ↦
            let chosen = choose (roll left) p qs in
            let meanwhile = others left t in
            let (kept, limited') = others_keep left t limited in
            let all : All (λ q. is_limited q ≡ true) (p ∷ qs) =
              subst (All (λ q. is_limited q ≡ true)) found
                (open_prizes-AreLimited game_id excluded t limited) in
            let one = choose-IsLimited (roll left) p qs all.0 all.1 in
            elim (Result-cases (claim_unit chosen meanwhile)) [
              | inl (c, threw) ↦
                  let e : run ≡ (err c, meanwhile) = rw (claim_rounds, found, threw) refl in
                  subst (After t) (sym e) (kept, limited')
              | inr (none, lost) ↦
                  let e : run
                      ≡ claim_rounds left game_id roll others (chosen.id ∷ excluded) meanwhile =
                    rw (claim_rounds, found, lost) refl in
                  let (kept', limited'') =
                    claim_rounds-After left (chosen.id ∷ excluded) meanwhile limited' in
                  subst (After t) (sym e) (Keeps-trans t meanwhile _ kept kept', limited'')
              | inr (some t', claimed) ↦
                  let e : run ≡ (ok (some (as_claimed chosen)), t') =
                    rw (claim_rounds, found, claimed) refl in
                  let (row, n, there, stock, written) =
                    claim_unit-Keeps chosen meanwhile t' one claimed in
                  let row' : Prize = record row { stock = some n; awarded = suc row.awarded } in
                  subst (After t) (sym e) (
                    Keeps-trans t meanwhile t' kept (
                        subst (Keeps meanwhile) (sym written)
                          (insert-Keeps chosen.id row n meanwhile there stock)),
                    subst Limited (sym written)
                        (insert-Limited chosen.id row' meanwhile refl limited'),
                  )
            ]
      ]

  -- Where every prize has a limited stock, and other players keep to the same: whatever the rolls are
  -- and whatever the others do between the reads and the claims, a draw leaves every prize in place,
  -- with what is left and what was awarded adding up to what they did before.
  pub claim_prize-Keeps :
      (t : Table Prize) → Limited t → Keeps t (claim_prize game_id roll others t).1
  claim_prize-Keeps t limited = (claim_rounds-After 10 [] t limited).0
