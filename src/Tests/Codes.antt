-- ===== src/Tests/Codes.antt =====
-- KHQR payloads at concrete inputs.
use pay_kh.Prelude.{ℕ, ◌≡◌, refl, false, none, some, List, [], ◌∷◌, ◌++◌, arith}
use pay_kh.Types.{usd}
use pay_kh.Money.{is_digit, digits_of}
use pay_kh.Khqr.{
  Text, crc_header, BakongKhqrParams, with_crc, bakong_fields, parse_tlv, get, tlv, padded_length,
  crc16, crc_from, crc_char, crc_shift, optional_tlv, optional_short, account_info, additional_data,
  tagged_unless_empty, timestamps, amount_tlv, two_digits,
}
use pay_kh.Khqr.Fields.{encode, decoded, parse_tlv-encode}
use pay_kh.Khqr.Payload.{
  ParsedKhqr, parse_khqr, trim, trim_start, trim_end, is_checksummed, is_account_id,
  is_account_from, parsed_account, parsed_fields, parse_checked, last_index_of,
}
use pay_kh.Khqr.Payload.Accepted.{IsAccepted, parse_khqr-Sealed, checksum_6304_refused}

abbrev two_fields : List ((ℕ × ℕ) × Text)
two_fields = ((b'0', b'0'), b'0' ∷ b'1' ∷ []) ∷ ((b'5', b'8'), b'K' ∷ b'H' ∷ []) ∷ []

parse_tlv-encode_example : parse_tlv 13 (encode two_fields) ≡ some (decoded two_fields)
unfolding encode tlv padded_length digits_of
parse_tlv-encode_example =
    parse_tlv-encode two_fields 13 (omega arith, (omega arith, tt)) (omega arith)

-- A payload for 1.00 to the account a@b.
abbrev params : BakongKhqrParams
params = record {
  bakong_account_id = b'a' ∷ b'@' ∷ b'b' ∷ [];
  merchant_name = b'A' ∷ [];
  merchant_city = b'P' ∷ [];
  amount = some (b'1' ∷ b'.' ∷ b'0' ∷ b'0' ∷ []);
  currency = usd;
  account_information = none;
  merchant_id = none;
  acquiring_bank = none;
  bill_number = none;
  mobile_number = none;
  store_label = none;
  is_merchant = false;
  expires_at = none;
}

abbrev payload : Text
payload = with_crc (bakong_fields params 0)

abbrev parsed : ParsedKhqr
parsed = record {
  is_static = false;
  is_merchant = false;
  bakong_account_id = b'a' ∷ b'@' ∷ b'b' ∷ [];
  account_information = none;
  merchant_id = none;
  acquiring_bank = none;
  merchant_name = some (b'A' ∷ []);
  merchant_city = some (b'P' ∷ []);
  currency = some usd;
  amount = some (b'1' ∷ b'.' ∷ b'0' ∷ b'0' ∷ []);
}

parse_khqr-Sealed_example : IsAccepted payload parsed
unfolding parse_khqr trim trim_start trim_end is_checksummed last_index_of crc16 crc_from crc_char
    crc_shift parse_checked parsed_fields parsed_account is_account_id is_account_from get parse_tlv
    two_digits is_digit digits_of padded_length tlv with_crc bakong_fields account_info
    additional_data optional_tlv optional_short tagged_unless_empty timestamps amount_tlv
parse_khqr-Sealed_example = parse_khqr-Sealed payload {k = parsed} refl

-- The same for 144.86, whose checksum is 6304.
abbrev unlucky : BakongKhqrParams
unlucky = record params { amount = some (b'1' ∷ b'4' ∷ b'4' ∷ b'.' ∷ b'8' ∷ b'6' ∷ []) }

checksum_6304_refused_example : parse_khqr (with_crc (bakong_fields unlucky 0)) ≡ none
unfolding with_crc bakong_fields tlv padded_length digits_of account_info additional_data
    optional_tlv optional_short tagged_unless_empty timestamps amount_tlv crc16 crc_from crc_char
    crc_shift trim trim_start trim_end
checksum_6304_refused_example =
    checksum_6304_refused (with_crc (bakong_fields unlucky 0))
      (bakong_fields unlucky 0 ++ crc_header) refl
