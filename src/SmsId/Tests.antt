-- ===== src/SmsId/Tests.antt =====
-- Runs of the id functions, and their theorems at concrete ids.
use smpp_js.Prelude.{ℕ, ◌+◌, ◌≡◌, ◌↔◌, refl, some, List, [], ◌∷◌, arith}
use smpp_js.Prelude.Digits.{decimal as spelled}
use smpp_js.SmsId.{
  decimal, hex, value_of, normalise_sms_id, segment_id, parse_segment_id, js_number,
}
use smpp_js.SmsId.Numbers.{normalise-eq_iff, normalise_idempotent}
use smpp_js.SmsId.Segments.{parse-segment_id}

-- "1F" and "031"
abbrev hex_id : List ℕ
hex_id = b'1' ∷ b'F' ∷ []

abbrev decimal_id : List ℕ
decimal_id = b'0' ∷ b'3' ∷ b'1' ∷ []

hex_normalised : normalise_sms_id hex_id (some hex) ≡ b'3' ∷ b'1' ∷ []
unfolding normalise_sms_id spelled
hex_normalised = refl

-- "a-007", which no call of `segment_id` writes, is read as part 7 of "a".
zeros_read :
    parse_segment_id (b'a' ∷ b'-' ∷ b'0' ∷ b'0' ∷ b'7' ∷ [])
    ≡ some (record { base = b'a' ∷ []; part = 7 })
unfolding parse_segment_id
zeros_read = refl

normalise-eq_iff_example :
    (normalise_sms_id decimal_id (some decimal) ≡ normalise_sms_id hex_id (some hex))
    ↔ (value_of decimal decimal_id ≡ value_of hex hex_id)
unfolding normalise_sms_id
normalise-eq_iff_example =
    normalise-eq_iff decimal_id hex_id decimal hex (omega arith) (omega arith) refl refl

normalise_idempotent_example :
    normalise_sms_id (normalise_sms_id hex_id (some hex)) (some decimal)
    ≡ normalise_sms_id hex_id (some hex)
normalise_idempotent_example = normalise_idempotent hex_id hex

parse-segment_id_example :
    parse_segment_id (segment_id hex_id 11 20) ≡ some (record { base = hex_id; part = 11 + 1 })
unfolding parse_segment_id
parse-segment_id_example = parse-segment_id hex_id 11 20 (omega arith) refl

-- 2 ^ 53 + 1 is between two doubles, and the even one is taken.
rounded_down : js_number 9007199254740993 ≡ 9007199254740992
unfolding js_number
rounded_down = refl

rounded_up : js_number 9007199254740995 ≡ 9007199254740996
unfolding js_number
rounded_up = refl

-- "1F-07"
abbrev zeros_id : List ℕ
zeros_id = b'1' ∷ b'F' ∷ b'-' ∷ b'0' ∷ b'7' ∷ []
