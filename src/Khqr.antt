-- ===== src/Khqr.antt =====
-- KHQR payloads: apps/api/src/providers/khqr.util.ts. A text is the list of its UTF-16 code units.
-- An error that is thrown is `none`. The MD5 of the `crypto` module is an argument.
pub mod Fields
pub mod Payload
use Prim.Native.Nat.{bit_xor}
use pay_kh.Prelude.{
  ℕ, zero, suc, ◌+◌, ◌-◌, ◌*◌, ◌/◌, ◌%◌, Bool, true, false, not, ◌&&◌, ◌||◌, Option, none, some,
  List, [], ◌∷◌, ◌++◌, leb, ltb, ◌==◌, if◌then◌else◌, length, take, drop,
}
use pay_kh.Types.{Currency, usd, khr}
use pay_kh.Money.{is_digit, digits_of}

abbrev pub Text : Type 0
Text = List ℕ

abbrev pub same_text : Text → Text → Bool
same_text [] [] = true
same_text [] (y ∷ ys) = false
same_text (x ∷ xs) [] = false
same_text (x ∷ xs) (y ∷ ys) = (x == y) && same_text xs ys

-- `len.toString().padStart(2, '0')`
unfoldable pub padded_length : ℕ → Text
padded_length n = let ds = digits_of 15 n in if ltb n 10 then b'0' ∷ ds else ds

unfoldable pub tlv : Text → Text → Text
tlv tag value = tag ++ padded_length (length value) ++ value

-- One round of the inner loop of `crc16`.
unfoldable pub crc_shift : ℕ → ℕ
crc_shift crc = (if crc / 0x8000 % 2 == 1 then bit_xor (crc * 2) 0x1021 else crc * 2) % 0x10000

unfoldable pub crc_char : ℕ → ℕ → ℕ
crc_char crc c = crc_shift (
    crc_shift (
      crc_shift
        (crc_shift (crc_shift (crc_shift (crc_shift (crc_shift (bit_xor crc (c * 256)))))))))

unfoldable pub crc_from : ℕ → Text → ℕ
crc_from crc [] = crc
crc_from crc (c ∷ s) = crc_from (crc_char crc c) s

-- A digit of `toString(16).toUpperCase()`.
abbrev pub hex_digit : ℕ → ℕ
hex_digit n = if ltb n 10 then n + b'0' else n - 10 + b'A'

unfoldable pub crc16 : Text → Text
crc16 input =
    let crc = crc_from 0xffff input in
    hex_digit (crc / 4096 % 16)
    ∷ hex_digit (crc / 256 % 16)
    ∷ hex_digit (crc / 16 % 16)
    ∷ hex_digit (crc % 16)
    ∷ []

-- `CURRENCY_CODE`
abbrev pub currency_code_text : Currency → Text
currency_code_text usd = b'8' ∷ b'4' ∷ b'0' ∷ []
currency_code_text khr = b'1' ∷ b'1' ∷ b'6' ∷ []

abbrev pub tag : ℕ → Text
tag n = (n / 10 + b'0') ∷ (n % 10 + b'0') ∷ []

-- `p ? tlv(tag, p) : ''`: an absent or empty text gives nothing.
unfoldable pub optional_tlv : Text → Option Text → Text
optional_tlv t none = []
optional_tlv t (some []) = []
optional_tlv t (some (c ∷ s)) = tlv t (c ∷ s)

-- `p ? tlv(tag, p.slice(0, 25)) : ''`
unfoldable pub optional_short : Text → Option Text → Text
optional_short t none = []
optional_short t (some []) = []
optional_short t (some (c ∷ s)) = tlv t (take 25 (c ∷ s))

pub record BakongKhqrParams : Type 0 where
  pub bakong_account_id : Text
  pub merchant_name : Text
  pub merchant_city : Text
  pub amount : Option Text
  pub currency : Currency
  pub account_information : Option Text
  pub merchant_id : Option Text
  pub acquiring_bank : Option Text
  pub bill_number : Option Text
  pub mobile_number : Option Text
  pub store_label : Option Text
  pub is_merchant : Bool
  pub expires_at : Option ℕ

-- The sub-tags of tag 29 or 30.
unfoldable pub account_info : BakongKhqrParams → Text
account_info p =
    tlv (tag 0) p.bakong_account_id
    ++ optional_tlv (tag 1) (if p.is_merchant then p.merchant_id else p.account_information)
    ++ optional_tlv (tag 2) p.acquiring_bank

unfoldable pub additional_data : BakongKhqrParams → Text
additional_data p =
    optional_short (tag 1) p.bill_number
    ++ optional_short (tag 2) p.mobile_number
    ++ optional_short (tag 3) p.store_label

-- `if (additional) payload += tlv('62', additional)`
unfoldable pub tagged_unless_empty : Text → Text → Text
tagged_unless_empty t [] = []
tagged_unless_empty t (c ∷ s) = tlv t (c ∷ s)

-- Tag 99, of a dynamic payload that expires; instants have at most 15 digits.
unfoldable pub timestamps : Option Text → Option ℕ → (created_at_ms : ℕ) → Text
timestamps none expires created_at_ms = []
timestamps (some amount) none created_at_ms = []
timestamps (some amount) (some t) created_at_ms =
    tlv (tag 99) (tlv (tag 0) (digits_of 15 created_at_ms) ++ tlv (tag 1) (digits_of 15 t))

-- `p.amount === undefined ? '' : tlv('54', p.amount)`
unfoldable pub amount_tlv : Option Text → Text
amount_tlv none = []
amount_tlv (some a) = tlv (tag 54) a

abbrev pub initiation : Option Text → Text
initiation none = b'1' ∷ b'1' ∷ []
initiation (some a) = b'1' ∷ b'2' ∷ []

-- The payload before tag 63.
unfoldable pub bakong_fields : BakongKhqrParams → (created_at_ms : ℕ) → Text
bakong_fields p created_at_ms =
    tlv (tag 0) (tag 1)
    ++ tlv (tag 1) (initiation p.amount)
    ++ tlv (tag (if p.is_merchant then 30 else 29)) (account_info p)
    ++ tlv (tag 52) (b'5' ∷ b'9' ∷ b'9' ∷ b'9' ∷ [])
    ++ tlv (tag 53) (currency_code_text p.currency)
    ++ amount_tlv p.amount
    ++ tlv (tag 58) (b'K' ∷ b'H' ∷ [])
    ++ tlv (tag 59) (take 25 p.merchant_name)
    ++ tlv (tag 60) (take 15 p.merchant_city)
    ++ tagged_unless_empty (tag 62) (additional_data p)
    ++ timestamps p.amount p.expires_at created_at_ms

abbrev pub crc_header : Text
crc_header = b'6' ∷ b'3' ∷ b'0' ∷ b'4' ∷ []

-- `payload + crc16(payload)`
unfoldable pub with_crc : Text → Text
with_crc fields = let payload = fields ++ crc_header in payload ++ crc16 payload

unfoldable pub build_bakong_khqr :
    (Text → Text) → BakongKhqrParams → (created_at_ms : ℕ) → Text × Text
build_bakong_khqr md5 p created_at_ms =
    let qr = with_crc (bakong_fields p created_at_ms) in (qr, md5 qr)

-- `KhqrParams` and the payload of the mock provider; `mock_account` and `mock_acquirer` are its
-- texts "mock@paykh" and "PayKH Mock Acquirer".
pub record KhqrParams : Type 0 where
  pub merchant_name : Text
  pub merchant_city : Text
  pub amount : Text
  pub currency : Currency
  pub bill_number : Option Text
  pub store_label : Option Text

abbrev pub mock_account : Text
mock_account = b'm' ∷ b'o' ∷ b'c' ∷ b'k' ∷ b'@' ∷ b'p' ∷ b'a' ∷ b'y' ∷ b'k' ∷ b'h' ∷ []

abbrev pub mock_acquirer : Text
mock_acquirer =
    b'P' ∷ b'a' ∷ b'y' ∷ b'K' ∷ b'H' ∷ b' ' ∷ b'M' ∷ b'o' ∷ b'c' ∷ b'k' ∷ b' ' ∷ b'A' ∷ b'c' ∷ b'q'
    ∷ b'u' ∷ b'i' ∷ b'r' ∷ b'e' ∷ b'r' ∷ []

unfoldable pub mock_fields : KhqrParams → Text
mock_fields p =
    tlv (tag 0) (tag 1)
    ++ tlv (tag 1) (tag 12)
    ++ tlv (tag 29) (tlv (tag 0) mock_account ++ tlv (tag 1) mock_acquirer)
    ++ tlv (tag 52) (b'5' ∷ b'9' ∷ b'9' ∷ b'9' ∷ [])
    ++ tlv (tag 53) (currency_code_text p.currency)
    ++ tlv (tag 54) p.amount
    ++ tlv (tag 58) (b'K' ∷ b'H' ∷ [])
    ++ tlv (tag 59) (take 25 p.merchant_name)
    ++ tlv (tag 60) (take 15 p.merchant_city)
    ++ tagged_unless_empty (tag 62)
        (optional_short (tag 1) p.bill_number ++ optional_short (tag 3) p.store_label)

unfoldable pub build_mock_khqr : (Text → Text) → KhqrParams → Text × Text
build_mock_khqr md5 p = let qr = with_crc (mock_fields p) in (qr, md5 qr)

-- The value of two decimal digits, or none.
unfoldable pub two_digits : ℕ → ℕ → Option ℕ
two_digits a b = if is_digit a && is_digit b then some ((a - b'0') * 10 + (b - b'0')) else none

-- `parseTlv`, on fuel: every round but the last takes four code units or more.
unfoldable pub parse_tlv : ℕ → Text → Option (List (Text × Text))
parse_tlv zero s = none
parse_tlv (suc fuel) [] = some []
parse_tlv (suc fuel) (t ∷ u ∷ a ∷ b ∷ s) = elim (two_digits a b) [
  | none ↦ none
  | some len ↦
      let rest = parse_tlv fuel (drop len s) in
      if length (take len s) == len
      then elim rest [ none ↦ none | some fields ↦ some ((t ∷ u ∷ [], take len s) ∷ fields) ]
      else none
]
parse_tlv (suc fuel) _ = none

-- `Map.get`: the value that was set last.
unfoldable pub get : Text → List (Text × Text) → Option Text
get t [] = none
get t ((u, v) ∷ fields) = elim (get t fields) [
  | some w ↦ some w
  | none ↦ if same_text u t then some v else none
]
