-- ===== src/Khqr/Fields.antt =====
-- Encoding and decoding fields (`tlv`, `parseTlv` of apps/api/src/providers/khqr.util.ts).
use pay_kh.Prelude.{
  ℕ, zero, suc, ◌+◌, ◌/◌, ◌%◌, ◌≤◌, ◌<◌, ◌≡◌, refl, ◌∙◌, ap, inl, inr, Option, none, some, List, [],
  ◌∷◌, ◌++◌, arith, ltb, ◌==◌, if◌then◌else◌, length, take, drop, take-append, drop-append,
  length-append, Bool-cases, ==_refl,
}
use pay_kh.Money.{is_digit, digits_of}
use pay_kh.Khqr.{Text, padded_length, tlv, two_digits, parse_tlv}

-- The fields one after the other; a tag has two code units.
unfoldable pub encode : List ((ℕ × ℕ) × Text) → Text
encode [] = []
encode ((t, v) ∷ fields) = tlv (t.0 ∷ t.1 ∷ []) v ++ encode fields

abbrev pub AreShort : List ((ℕ × ℕ) × Text) → Type 0
AreShort [] = Unit
AreShort ((t, v) ∷ fields) = (length v < 100) × AreShort fields

abbrev pub decoded : List ((ℕ × ℕ) × Text) → List (Text × Text)
decoded [] = []
decoded ((t, v) ∷ fields) = (t.0 ∷ t.1 ∷ [], v) ∷ decoded fields

padded_digits : (n : ℕ) → n < 100 → padded_length n ≡ (n / 10 + b'0') ∷ (n % 10 + b'0') ∷ []
unfolding padded_length digits_of
padded_digits n h = elim (Bool-cases (ltb n 10)) [
  | inl small ↦ ground arith
  | inr large ↦ ground arith
]

two_digits-back : (n : ℕ) → n < 100 → two_digits (n / 10 + b'0') (n % 10 + b'0') ≡ some n
unfolding two_digits is_digit
two_digits-back n h = ground arith

-- The end of a round of `parse_tlv`: the value, if it is all there, and the fields behind it.
abbrev keep : Text → ℕ → Text → Option (List (Text × Text)) → Option (List (Text × Text))
keep t len value rest =
    if length value == len
    then elim rest [ none ↦ none | some fields ↦ some ((t, value) ∷ fields) ]
    else none

-- One field, and what follows it.
parse_tlv-tlv :
    (fuel t u : ℕ) (v rest : Text)
    → length v < 100
    → parse_tlv (suc fuel) (tlv (t ∷ u ∷ []) v ++ rest)
      ≡ elim (parse_tlv fuel rest) [ none ↦ none | some fields ↦ some ((t ∷ u ∷ [], v) ∷ fields) ]
unfolding parse_tlv tlv
parse_tlv-tlv fuel t u v rest short =
    let opened : parse_tlv (suc fuel) (tlv (t ∷ u ∷ []) v ++ rest)
        ≡ keep (t ∷ u ∷ []) (length v) (take (length v) (v ++ rest))
            (parse_tlv fuel (drop (length v) (v ++ rest))) =
      rw (padded_digits (length v) short, parse_tlv, two_digits-back (length v) short) refl in
    opened
    ∙ ap (λ x. keep (t ∷ u ∷ []) (length v) x (parse_tlv fuel (drop (length v) (v ++ rest))))
        (take-append v rest)
    ∙ ap (λ x. keep (t ∷ u ∷ []) (length v) v (parse_tlv fuel x)) (drop-append v rest)
    ∙ rw (==_refl (length v)) refl

nothing_left : (fuel : ℕ) → parse_tlv (suc fuel) [] ≡ some []
unfolding parse_tlv
nothing_left fuel = refl

length-tlv : (t v rest : Text) → length rest + length t ≤ length (tlv t v ++ rest)
unfolding tlv
length-tlv t v rest = omega (
  arith,
  length-append (t ++ padded_length (length v) ++ v) rest,
  length-append (t ++ padded_length (length v)) v,
  length-append t (padded_length (length v)),
)

-- Fields whose values have fewer than 100 code units are decoded as they were encoded, on as much
-- fuel as the text is long, and one more.
pub parse_tlv-encode :
    (fields : List ((ℕ × ℕ) × Text)) (fuel : ℕ)
    → AreShort fields
    → length (encode fields) < fuel
    → parse_tlv fuel (encode fields) ≡ some (decoded fields)
unfolding encode
parse_tlv-encode fields zero short enough = absurd (omega arith)
parse_tlv-encode [] (suc fuel) short enough = nothing_left fuel
parse_tlv-encode ((t, v) ∷ fields) (suc fuel) (short, rest) enough =
    let size = length-tlv (t.0 ∷ t.1 ∷ []) v (encode fields) in
    let ih = parse_tlv-encode fields fuel rest (omega arith) in
    rw (parse_tlv-tlv fuel t.0 t.1 v (encode fields) short, ih) refl
