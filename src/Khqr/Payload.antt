-- ===== src/Khqr/Payload.antt =====
-- Decoding a payload: `parseKhqr` of apps/api/src/providers/khqr.util.ts.
pub mod Accepted
use pay_kh.Prelude.{
  ℕ, zero, suc, ◌+◌, ◌-◌, ◌*◌, Bool, true, false, not, ◌&&◌, ◌||◌, Option, none, some, List, [],
  ◌∷◌, ◌++◌, leb, ltb, ◌==◌, if◌then◌else◌, length, take, drop, all_by,
}
use pay_kh.Types.{Currency, usd, khr}
use pay_kh.Khqr.{Text, same_text, tag, currency_code_text, crc_header, crc16, parse_tlv, get}

-- `\s`, which is also what `trim` takes off.
abbrev pub is_space : ℕ → Bool
is_space c =
    leb 9 c && leb c 13
    || (c == 32)
    || (c == 160)
    || (c == 0x1680)
    || leb 0x2000 c && leb c 0x200a
    || (c == 0x2028)
    || (c == 0x2029)
    || (c == 0x202f)
    || (c == 0x205f)
    || (c == 0x3000)
    || (c == 0xfeff)

unfoldable pub trim_start : Text → Text
trim_start [] = []
trim_start (c ∷ s) = let rest = trim_start s in if is_space c then rest else c ∷ s

unfoldable pub trim_end : Text → Text
trim_end [] = []
trim_end (c ∷ s) = elim (trim_end s) [
  | [] ↦ if is_space c then [] else c ∷ []
  | d ∷ rest ↦ c ∷ d ∷ rest
]

unfoldable pub trim : Text → Text
trim s = trim_end (trim_start s)

-- `toUpperCase` of a letter from a to z; what it does to other letters never gives one of those
-- that the comparisons are with.
abbrev pub upper : Text → Text
upper [] = []
upper (c ∷ s) = (if leb b'a' c && leb c b'z' then c - 32 else c) ∷ upper s

-- `lastIndexOf`
unfoldable pub last_index_of : Text → Text → Option ℕ
last_index_of pattern [] = none
last_index_of pattern (c ∷ s) = elim (last_index_of pattern s) [
  | some i ↦ some (suc i)
  | none ↦ if same_text (take (length pattern) (c ∷ s)) pattern then some 0 else none
]

-- `[^@\s]`
abbrev pub is_plain : ℕ → Bool
is_plain c = not (c == b'@') && not (is_space c)

-- `/^[^@\s]+@[^@\s]+$/`
unfoldable pub is_account_from : (seen : Bool) → Text → Bool
is_account_from seen [] = false
is_account_from seen (c ∷ s) =
    let rest = is_account_from true s in
    if c == b'@' then seen && leb 1 (length s) && all_by is_plain s else is_plain c && rest

unfoldable pub is_account_id : Text → Bool
is_account_id s = is_account_from false s

pub record ParsedKhqr : Type 0 where
  pub is_static : Bool
  pub is_merchant : Bool
  pub bakong_account_id : Text
  pub account_information : Option Text
  pub merchant_id : Option Text
  pub acquiring_bank : Option Text
  pub merchant_name : Option Text
  pub merchant_city : Option Text
  pub currency : Option Currency
  pub amount : Option Text

abbrev pub is_there : Option Text → Bool
is_there none = false
is_there (some v) = true

abbrev pub is_text : Option Text → Text → Bool
is_text none t = false
is_text (some v) t = same_text v t

-- `!v`: an absent or empty text.
abbrev pub is_missing : Option Text → Bool
is_missing none = true
is_missing (some []) = true
is_missing (some (c ∷ s)) = false

-- `top.get('30') ?? top.get('29')`
abbrev pub or_else : Option Text → Option Text → Option Text
or_else none w = w
or_else (some v) w = some v

abbrev pub text_of : Option Text → Text
text_of none = []
text_of (some v) = v

-- `CODE_TO_CURRENCY`
abbrev pub currency_of : Option Text → Option Currency
currency_of none = none
currency_of (some v) =
    if same_text v (currency_code_text usd)
    then some usd
    else if same_text v (currency_code_text khr)
    then some khr
    else none

abbrev pub other_country : Option Text → Bool
other_country none = false
other_country (some []) = false
other_country (some (c ∷ s)) = not (same_text (upper (c ∷ s)) (b'K' ∷ b'H' ∷ []))

-- What follows once the account block is decoded.
unfoldable pub parsed_account : List (Text × Text) → List (Text × Text) → Option ParsedKhqr
parsed_account top acct =
    let is_merchant = is_there (get (tag 30) top) in
    let id = get (tag 0) acct in
    if is_missing id
    then none
    else if not (is_account_id (text_of id))
    then none
    else if other_country (get (tag 58) top)
    then none
    else some (record {
      is_static = is_text (get (tag 1) top) (tag 11);
      is_merchant = is_merchant;
      bakong_account_id = text_of id;
      account_information = get (tag 1) acct;
      merchant_id = if is_merchant then get (tag 1) acct else none;
      acquiring_bank = get (tag 2) acct;
      merchant_name = get (tag 59) top;
      merchant_city = get (tag 60) top;
      currency = currency_of (get (tag 53) top);
      amount = get (tag 54) top;
    })

-- The fields before tag 63.
unfoldable pub parsed_fields : List (Text × Text) → Option ParsedKhqr
parsed_fields top =
    let block = or_else (get (tag 30) top) (get (tag 29) top) in
    let start = get (tag 1) top in
    if not (is_text (get (tag 0) top) (tag 1))
    then none
    else if not (is_text start (tag 11)) && not (is_text start (tag 12))
    then none
    else if is_missing block
    then none
    else elim (parse_tlv (suc (length (text_of block))) (text_of block)) [
      | none ↦ none
      | some acct ↦ parsed_account top acct
    ]

unfoldable pub parse_checked : Text → Option ParsedKhqr
parse_checked body = elim (parse_tlv (suc (length body)) body) [
  | none ↦ none
  | some top ↦ parsed_fields top
]

-- Whether the text ends in tag 63 with the checksum of everything before it.
unfoldable pub is_checksummed : Text → Bool
is_checksummed qr =
    let n = length qr in
    elim (last_index_of crc_header qr) [
      | none ↦ false
      | some i ↦ (i + 8 == n) && same_text (crc16 (take (i + 4) qr)) (upper (drop (n - 4) qr))
    ]

unfoldable pub parse_khqr : Text → Option ParsedKhqr
parse_khqr qr_string =
    let qr = trim qr_string in
    let n = length qr in
    if ltb n 12
    then none
    else if not (is_checksummed qr)
    then none
    else parse_checked (take (n - 8) qr)
