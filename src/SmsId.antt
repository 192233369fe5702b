-- ===== src/SmsId.antt =====
-- src/sms-id.ts: message ids and the numbers in them. A text is the list of its code units.
pub mod Numbers
pub mod Segments
mod Tests
use smpp_js.Prelude.{
  ℕ, zero, suc, ◌+◌, ◌-◌, ◌*◌, ◌/◌, ◌%◌, ◌^◌, Bool, true, false, not, ◌&&◌, ◌||◌, Option, none,
  some, List, [], ◌∷◌, ◌++◌, reverse, length, ltb, leb, ◌==◌, if◌then◌else◌,
}
use smpp_js.Prelude.Digits.{decimal as spelled, is_digit, digit_value, number_from, all_of}

pub data SmsIdNotation : Type 0 where
  decimal hex : SmsIdNotation

unfoldable pub is_hex : ℕ → Bool
is_hex c = is_digit c || ((leb b'a' c && leb c b'f') || (leb b'A' c && leb c b'F'))

unfoldable pub hex_value : ℕ → ℕ
hex_value c =
    if leb b'a' c then c - b'a' + 10 else if leb b'A' c then c - b'A' + 10 else digit_value c

abbrev pub max_id_length : ℕ
max_id_length = 64

-- `digits.test(id)` of a notation: one digit or more, and nothing else.
pub spells : SmsIdNotation → List ℕ → Bool
unfolding is_digit is_hex all_of
spells n [] = false
spells decimal (c ∷ cs) = all_of is_digit (c ∷ cs)
spells hex (c ∷ cs) = all_of is_hex (c ∷ cs)

-- `BigInt(prefix + id)`
pub value_of : SmsIdNotation → List ℕ → ℕ
unfolding number_from hex_value
value_of decimal id = number_from digit_value 10 0 id
value_of hex id = number_from hex_value 16 0 id

-- A notation that is left out, or that is none of the two, leaves the id as it arrived.
pub normalise_sms_id : List ℕ → Option SmsIdNotation → List ℕ
unfolding spells value_of
normalise_sms_id id none = id
normalise_sms_id id (some n) =
    if ltb max_id_length (length id)
    then id
    else if spells n id
    then spelled (value_of n id)
    else id

pub segment_id : List ℕ → ℕ → ℕ → List ℕ
segment_id sms_id index total =
    if total == 1 then sms_id else sms_id ++ (b'-' ∷ spelled (index + 1))

pub record Numbering : Type 0 where
  pub base : List ℕ
  pub part : ℕ

-- The characters that `.` does not match.
abbrev pub is_break : ℕ → Bool
is_break c = c == 10 || (c == 13 || (c == 0x2028 || c == 0x2029))

unfoldable pub is_plain : ℕ → Bool
is_plain c = not (is_break c)

-- `n / 2 ^ k`, `q` with the remainder `r`, rounded to the nearest whole number, to the even one of
-- two, and scaled back.
unfoldable pub nearest : ℕ → ℕ → ℕ → ℕ
nearest k q r =
    if ltb (2 ^ k) (2 * r) || ((2 * r == 2 ^ k) && (q % 2 == 1)) then (q + 1) * 2 ^ k else q * 2 ^ k

-- Rounded to 53 bits, from the scale `k` on; 2 ^ 1024 stands for the infinity that is past the last.
unfoldable pub rounded : ℕ → ℕ → ℕ → ℕ
unfolding nearest
rounded zero k n = 2 ^ 1024
rounded (suc scales) k n = elim (ltb (n / 2 ^ k) 9007199254740992) [
  | true ↦ nearest k (n / 2 ^ k) (n % 2 ^ k)
  | false ↦ rounded scales (k + 1) n
]

-- `Number` of the digits of a whole number: exact below 2 ^ 53, and the nearest double from there on,
-- whose scale is 971 at most.
unfoldable pub js_number : ℕ → ℕ
unfolding rounded
js_number n = if ltb n 9007199254740992 then n else rounded 972 0 n

-- The longest run of digits at the front, and what follows it.
pub span_digits : List ℕ → List ℕ × List ℕ
unfolding is_digit
span_digits [] = ([], [])
span_digits (c ∷ cs) =
    let (front, rest) = span_digits cs in if is_digit c then (c ∷ front, rest) else ([], c ∷ cs)

-- The match of `/^(.*)-(\d+)$/` read from the end: digits, a dash, and the base before it.
pub split_numbered : List ℕ × List ℕ → Option Numbering
unfolding is_plain all_of number_from js_number
split_numbered ([], rest) = none
split_numbered (d ∷ ds, []) = none
split_numbered (d ∷ ds, c ∷ base) =
    if (c == b'-') && all_of is_plain base
    then some (record {
      base = reverse base;
      part = js_number (number_from digit_value 10 0 (reverse (d ∷ ds)));
    })
    else none

unfoldable pub parse_segment_id : List ℕ → Option Numbering
unfolding span_digits split_numbered
parse_segment_id sms_id = split_numbered (span_digits (reverse sms_id))
