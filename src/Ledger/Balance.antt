-- ===== src/Ledger/Balance.antt =====
-- What every posting keeps (`LedgerService.post` of apps/api/src/ledger/ledger.service.ts).
use pay_kh.Prelude.{
  ℕ, ◌<◌, ◌≡◌, refl, ◌⊎◌, inl, inr, true, false, Option, List, [], ◌∷◌, map, ok, arith, ◌==◌,
  if◌then◌else◌, ==_refl, sum_by,
}
use pay_kh.Decimal.{Rounding}
use pay_kh.Ledger.{
  LedgerCurrency, currency_code, JournalEvent, Reference, Suffix, alone, under, backfill,
  same_suffix, Line, Journal, debits, credits, is_posted, round_line, post,
}

-- Every journal moves something and balances, and no two stand under one (event, reference).
abbrev pub IsSound : List Journal → Type 0
IsSound [] = Unit
IsSound (j ∷ js) =
    (debits j.lines ≡ credits j.lines)
    × (0 < debits j.lines)
    × (is_posted j.event j.reference js ≡ false)
    × IsSound js

same_suffix_refl : (s : Suffix) → same_suffix s s ≡ true
same_suffix_refl alone = refl
same_suffix_refl (under n) = ==_refl n
same_suffix_refl backfill = refl

module _ (round : Rounding) (event : JournalEvent) (reference : Reference) (store_id : Option ℕ)
    (currency : LedgerCurrency) where
  abbrev pub journal_of : List Line → Journal
  journal_of lines = record {
    event = event;
    reference = reference;
    store_id = store_id;
    currency = currency;
    lines = map (round_line round) lines;
  }

  -- The two ways in which a posting succeeds.
  pub post_cases :
      (lines : List Line) (journals : List Journal) {journals' : List Journal}
      → post round event reference store_id currency lines journals ≡ ok journals'
      → ((journals' ≡ journals)
          × ((debits (map (round_line round) lines) ≡ 0)
              ⊎ (is_posted event reference journals ≡ true)))
        ⊎ ((journals' ≡ journal_of lines ∷ journals)
            × (debits (map (round_line round) lines) ≡ credits (map (round_line round) lines))
            × (0 < debits (map (round_line round) lines))
            × (is_posted event reference journals ≡ false))
  unfolding post
  post_cases lines journals h = ground arith

  -- A posting that succeeds keeps the ledger sound.
  pub post-IsSound :
      (lines : List Line) (journals : List Journal) {journals' : List Journal}
      → IsSound journals
      → post round event reference store_id currency lines journals ≡ ok journals'
      → IsSound journals'
  post-IsSound lines journals h e = elim (post_cases lines journals e) [
    | inl (same, _) ↦ rw same h
    | inr (new, even, moves, free) ↦ rw new (even, moves, free, h)
  ]

  posted_now :
      (lines : List Line) (journals : List Journal)
      → is_posted event reference (journal_of lines ∷ journals) ≡ true
  unfolding is_posted
  posted_now lines journals = ground (arith, same_suffix_refl reference.suffix)

  -- Posting again under one (event, reference), whatever the lines, changes nothing.
  pub post_again :
      (lines lines' : List Line) (journals : List Journal) {journals' journals'' : List Journal}
      → 0 < debits (map (round_line round) lines)
      → post round event reference store_id currency lines journals ≡ ok journals'
      → post round event reference store_id currency lines' journals' ≡ ok journals''
      → journals'' ≡ journals'
  post_again lines lines' journals moves e e' =
      ground (arith, post_cases lines journals e, post_cases lines' _ e', posted_now lines journals)

-- What is booked on one side of one currency.
abbrev pub total : (List Line → ℕ) → LedgerCurrency → List Journal → ℕ
total side currency =
    sum_by (λ j. if currency_code j.currency == currency_code currency then side j.lines else 0)

-- The trial balance: in a sound ledger debits and credits agree in every currency.
pub trial_balance :
    (currency : LedgerCurrency) (journals : List Journal)
    → IsSound journals
    → total debits currency journals ≡ total credits currency journals
trial_balance currency [] h = refl
trial_balance currency (j ∷ js) (even, _, _, h) = ground (arith, trial_balance currency js h)
