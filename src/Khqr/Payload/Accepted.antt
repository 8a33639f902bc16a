-- ===== src/Khqr/Payload/Accepted.antt =====
-- What `parseKhqr` of apps/api/src/providers/khqr.util.ts accepts.
use pay_kh.Prelude.{
  ap, ◌∙◌, ◌++◌, length-append, suc, ◌-◌, ◌≡◌, refl, inl, inr, true, false, none, some, List, [],
  ◌∷◌, ℕ, zero, ◌+◌, arith, length, take, drop, take-append, sym, Option-cases, Bool-cases,
}
use pay_kh.Khqr.{Text, same_text, crc16, crc_header, tag, parse_tlv, get}
use pay_kh.Khqr.Payload.{
  ParsedKhqr, parsed_account, parsed_fields, parse_checked, parse_khqr, is_checksummed,
  is_account_id, trim, upper, is_text, last_index_of, text_of, or_else,
}

account_accepted :
    (top acct : List (Text × Text)) {k : ParsedKhqr}
    → parsed_account top acct ≡ some k
    → (is_account_id k.bakong_account_id ≡ true)
      × (k.is_static ≡ is_text (get (tag 1) top) (tag 11))
      × (k.amount ≡ get (tag 54) top)
unfolding parsed_account
account_accepted top acct h = (ground arith, ground arith, ground arith)

abbrev block : List (Text × Text) → Text
block top = text_of (or_else (get (tag 30) top) (get (tag 29) top))

fields_accepted :
    (top : List (Text × Text)) {k : ParsedKhqr}
    → parsed_fields top ≡ some k
    → (acct : List (Text × Text)) × (is_text (get (tag 0) top) (tag 1) ≡ true)
      × (parsed_account top acct ≡ some k)
unfolding parsed_fields
fields_accepted top h = elim (Bool-cases (is_text (get (tag 0) top) (tag 1))) [
  | inl format ↦ elim (Option-cases (parse_tlv (suc (length (block top))) (block top))) [
    | inl broken ↦ absurd (ground arith)
    | inr (acct, e) ↦ (acct, format, ground arith)
  ]
  | inr other ↦ absurd (ground arith)
]

take-drop : (n : ℕ) (s : Text) → take n s ++ drop n s ≡ s
take-drop zero s = refl
take-drop (suc n) [] = refl
take-drop (suc n) (c ∷ s) = ap (λ t. c ∷ t) (take-drop n s)

same_text_eq : (a b : Text) → same_text a b ≡ true → a ≡ b
same_text_eq [] [] h = refl
same_text_eq [] (y ∷ ys) h = absurd (ground arith)
same_text_eq (x ∷ xs) [] h = absurd (ground arith)
same_text_eq (x ∷ xs) (y ∷ ys) h =
    let rest : same_text xs ys ≡ true = ground arith in
    let ih = same_text_eq xs ys rest in let head : x ≡ y = ground arith in rw (head, ih) refl

-- Where the last header stands.
record HeaderAt (i : ℕ) (s : Text) : Type 0 where
  front : Text
  back : Text
  splits : s ≡ front ++ (crc_header ++ back)
  counted : length front ≡ i

last_index_of-HeaderAt : (s : Text) (i : ℕ) → last_index_of crc_header s ≡ some i → HeaderAt i s
unfolding last_index_of
last_index_of-HeaderAt [] i h = absurd (ground arith)
last_index_of-HeaderAt (c ∷ s) i h = elim (Option-cases (last_index_of crc_header s)) [
  | inr (j, later) ↦
      let at = last_index_of-HeaderAt s j later in
      let next : suc j ≡ i = ground arith in
      record {
        front = c ∷ at.front;
        back = at.back;
        splits = ap (λ t. c ∷ t) at.splits;
        counted = ap suc at.counted ∙ next;
      }
  | inl no_later ↦ elim (Bool-cases (same_text (take 4 (c ∷ s)) crc_header)) [
    | inr differs ↦ absurd (ground arith)
    | inl same ↦
        let first : 0 ≡ i = ground arith in
        record {
          front = [];
          back = drop 4 (c ∷ s);
          splits =
              sym (take-drop 4 (c ∷ s))
              ∙ ap (λ t. t ++ drop 4 (c ∷ s)) (same_text_eq (take 4 (c ∷ s)) crc_header same);
          counted = first;
        }
  ]
]

take_past : (a b : Text) (n : ℕ) → take (length a + n) (a ++ b) ≡ a ++ take n b
take_past [] b n = ap (λ k. take k b) (omega arith)
take_past (c ∷ a) b n =
    let next : length (c ∷ a) + n ≡ suc (length a + n) = omega arith in
    ap (λ k. take k (c ∷ (a ++ b))) next ∙ ap (λ t. c ∷ t) (take_past a b n)

drop_past : (a b : Text) (n : ℕ) → drop (length a + n) (a ++ b) ≡ drop n b
drop_past [] b n = ap (λ k. drop k b) (omega arith)
drop_past (c ∷ a) b n =
    let next : length (c ∷ a) + n ≡ suc (length a + n) = omega arith in
    ap (λ k. drop k (c ∷ (a ++ b))) next ∙ drop_past a b n

-- A text that ends in tag 63, with the checksum of all that stands before it.
pub record Sealed (qr : Text) : Type 0 where
  pub body : Text
  pub checksum : Text
  pub splits : qr ≡ body ++ (crc_header ++ checksum)
  pub four : length checksum ≡ 4
  pub matches : crc16 (body ++ crc_header) ≡ upper checksum

is_checksummed-Sealed : (qr : Text) → is_checksummed qr ≡ true → Sealed qr
unfolding is_checksummed
is_checksummed-Sealed qr h = elim (Option-cases (last_index_of crc_header qr)) [
  | inl nowhere ↦ absurd (ground arith)
  | inr (i, found) ↦
      let at = last_index_of-HeaderAt qr i found in
      let ends : i + 8 ≡ length qr = ground arith in
      let same =
        same_text_eq (crc16 (take (i + 4) qr)) (upper (drop (length qr - 4) qr)) (ground arith) in
      let whole : length qr ≡ length at.front + length (crc_header ++ at.back) =
        ap length at.splits ∙ length-append at.front (crc_header ++ at.back) in
      let counted = at.counted in
      let size : i + 4 ≡ length at.front + 4 = omega arith in
      let size' : length qr - 4 ≡ length at.front + 4 = omega arith in
      record {
        body = at.front;
        checksum = at.back;
        splits = at.splits;
        four = omega arith;
        matches =
            ap crc16 (
              sym (
                ap (λ k. take k qr) size
                ∙ ap (take (length at.front + 4)) at.splits
                ∙ take_past at.front (crc_header ++ at.back) 4))
            ∙ same
            ∙ ap upper (
                ap (λ k. drop k qr) size'
                ∙ ap (drop (length at.front + 4)) at.splits
                ∙ drop_past at.front (crc_header ++ at.back) 4);
      }
]

fields_of : (qr : Text) (sealed : Sealed qr) → take (length qr - 8) qr ≡ sealed.body
fields_of qr sealed =
    let four = sealed.four in
    let whole : length qr ≡ length sealed.body + length (crc_header ++ sealed.checksum) =
      ap length sealed.splits ∙ length-append sealed.body (crc_header ++ sealed.checksum) in
    let size : length qr - 8 ≡ length sealed.body = omega arith in
    ap (λ k. take k qr) size
    ∙ ap (take (length sealed.body)) sealed.splits
    ∙ take-append sealed.body (crc_header ++ sealed.checksum)

-- What is known of the payload that a result was read from.
abbrev pub IsAccepted : Text → ParsedKhqr → Type 0
IsAccepted s k =
    (sealed : Sealed (trim s)) × (is_account_id k.bakong_account_id ≡ true)
    × (top : List (Text × Text)) × (parse_tlv (suc (length sealed.body)) sealed.body ≡ some top)
    × (is_text (get (tag 0) top) (tag 1) ≡ true)
    × (k.is_static ≡ is_text (get (tag 1) top) (tag 11))
    × (k.amount ≡ get (tag 54) top)

-- A payload that is accepted is, without the spaces around it, a list of fields, tag 63 and the four
-- characters of the checksum of both, in upper or lower case. The format of the fields is known, the
-- account has the form name@bank, and the payload is static, and asks for an amount, as the fields
-- say.
pub parse_khqr-Sealed : (s : Text) {k : ParsedKhqr} → parse_khqr s ≡ some k → IsAccepted s k
unfolding parse_khqr parse_checked
parse_khqr-Sealed s {k} h =
    let body = take (length (trim s) - 8) (trim s) in
    elim (Bool-cases (is_checksummed (trim s))) [
      | inr bad ↦ absurd (ground arith)
      | inl good ↦ elim (Option-cases (parse_tlv (suc (length body)) body)) [
        | inl broken ↦ absurd (ground arith)
        | inr (top, e) ↦
            let (acct, format, parsed) = fields_accepted top {k = k} (ground arith) in
            let (account, static, amount) = account_accepted top acct parsed in
            let sealed = is_checksummed-Sealed (trim s) good in
            let fields = fields_of (trim s) sealed in
            (
              sealed,
              account,
              top,
              sym (ap (λ b. parse_tlv (suc (length b)) b) fields) ∙ e,
              format,
              static,
              amount,
            )
      ]
    ]

last_index_of-append : (xs : Text) → last_index_of crc_header (xs ++ crc_header) ≡ some (length xs)
unfolding last_index_of
last_index_of-append [] = refl
last_index_of-append (c ∷ xs) = rw (last_index_of-append xs) refl

ends_in_header_unchecked : (xs : Text) → is_checksummed (xs ++ crc_header) ≡ false
unfolding is_checksummed
ends_in_header_unchecked xs =
    rw (is_checksummed, last_index_of-append xs, length-append xs crc_header) (ground arith)

-- A payload that ends in the four characters 6304 is refused, also where these are its checksum.
pub checksum_6304_refused : (s xs : Text) → trim s ≡ xs ++ crc_header → parse_khqr s ≡ none
unfolding parse_khqr
checksum_6304_refused s xs e =
    let unchecked : is_checksummed (trim s) ≡ false =
      ap is_checksummed e ∙ ends_in_header_unchecked xs in
    ground arith
