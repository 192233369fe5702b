-- ===== src/Encodings.antt =====
-- src/defs/encodings.ts: the alphabets of a message. A text is the list of its UTF-16 code units.
mod Tests
pub mod Lossless
pub mod Alphabet
use smpp_js.Prelude.{
  ℕ, zero, suc, ◌+◌, ◌-◌, ◌*◌, ◌/◌, ◌%◌, Bool, true, false, not, ◌&&◌, ◌||◌, Option, none, some,
  List, [], ◌∷◌, ◌++◌, map, length, get_elem?, flatten, find, nat_eq, text_eq, bit_and, ltb, leb,
  ◌==◌, if◌then◌else◌,
}
use smpp_js.Prelude.Digits.{all_of}
use smpp_js.Wire.{index_of}

pub data EncodingName : Type 0 where
  ascii latin1 ucs2 : EncodingName

-- The characters of the GSM alphabet, by their codes from 0; none stands twice.
unfoldable pub gsm_chars : List ℕ
gsm_chars =
    64 ∷ 163 ∷ 36 ∷ 165 ∷ 232 ∷ 233 ∷ 249 ∷ 236 ∷ 242 ∷ 199 ∷ 10 ∷ 216 ∷ 248 ∷ 13 ∷ 197 ∷ 229 ∷ 916
    ∷ 95 ∷ 934 ∷ 915 ∷ 923 ∷ 937 ∷ 928 ∷ 936 ∷ 931 ∷ 920 ∷ 926 ∷ 27 ∷ 198 ∷ 230 ∷ 223 ∷ 201 ∷ 32
    ∷ 33 ∷ 34 ∷ 35 ∷ 164 ∷ 37 ∷ 38 ∷ 39 ∷ 40 ∷ 41 ∷ 42 ∷ 43 ∷ 44 ∷ 45 ∷ 46 ∷ 47 ∷ 48 ∷ 49 ∷ 50 ∷ 51
    ∷ 52 ∷ 53 ∷ 54 ∷ 55 ∷ 56 ∷ 57 ∷ 58 ∷ 59 ∷ 60 ∷ 61 ∷ 62 ∷ 63 ∷ 161 ∷ 65 ∷ 66 ∷ 67 ∷ 68 ∷ 69 ∷ 70
    ∷ 71 ∷ 72 ∷ 73 ∷ 74 ∷ 75 ∷ 76 ∷ 77 ∷ 78 ∷ 79 ∷ 80 ∷ 81 ∷ 82 ∷ 83 ∷ 84 ∷ 85 ∷ 86 ∷ 87 ∷ 88 ∷ 89
    ∷ 90 ∷ 196 ∷ 214 ∷ 209 ∷ 220 ∷ 167 ∷ 191 ∷ 97 ∷ 98 ∷ 99 ∷ 100 ∷ 101 ∷ 102 ∷ 103 ∷ 104 ∷ 105
    ∷ 106 ∷ 107 ∷ 108 ∷ 109 ∷ 110 ∷ 111 ∷ 112 ∷ 113 ∷ 114 ∷ 115 ∷ 116 ∷ 117 ∷ 118 ∷ 119 ∷ 120 ∷ 121
    ∷ 122 ∷ 228 ∷ 246 ∷ 241 ∷ 252 ∷ 224 ∷ []

-- The characters behind an escape, each with the base character that follows it.
unfoldable pub gsm_extended_pairs : List (ℕ × ℕ)
gsm_extended_pairs =
    (12, 10)
    ∷ (b'^', 923)
    ∷ (b'{', b'(')
    ∷ (b'}', b')')
    ∷ (b'\\', b'/')
    ∷ (b'[', b'<')
    ∷ (b'~', b'=')
    ∷ (b']', b'>')
    ∷ (b'|', 161)
    ∷ (8364, b'e')
    ∷ []

-- `gsmCharCodes.get(char)`
unfoldable pub char_code : ℕ → Option ℕ
unfolding gsm_chars
char_code c = index_of (λ d. d == c) gsm_chars

-- The two directions of `gsmExtChars`: no base character is an extended one.
unfoldable pub base_of : ℕ → Option ℕ
unfolding gsm_extended_pairs
base_of c = find c gsm_extended_pairs

unfoldable pub extended_of : ℕ → Option ℕ
unfolding gsm_extended_pairs
extended_of c = find c (map (λ p. (p.1, p.0)) gsm_extended_pairs)

abbrev pub escape_char : ℕ
escape_char = 0x1B

abbrev or_else : ℕ → Option ℕ → ℕ
or_else fallback none = fallback
or_else fallback (some n) = n

-- `gsmChars[byte] ?? ' '`
unfoldable pub char_at : ℕ → ℕ
unfolding gsm_chars
char_at byte = or_else b' ' (get_elem? gsm_chars byte)

-- `value.replace(gsmExtended, …)`
abbrev pub escaped_char : ℕ → Option ℕ → List ℕ
escaped_char c none = c ∷ []
escaped_char c (some base) = escape_char ∷ base ∷ []

unfoldable pub escape : List ℕ → List ℕ
unfolding base_of
escape [] = []
escape (c ∷ cs) = escaped_char c (base_of c) ++ escape cs

-- `result.replace(gsmEscaped, …)`: an escape and a base character become the extended one.
unfoldable pub unescape : List ℕ → List ℕ
unfolding extended_of
unescape [] = []
unescape (c ∷ []) = c ∷ []
unescape (c ∷ d ∷ cs) =
    let pair = unescape cs in
    let one = unescape (d ∷ cs) in
    if c == escape_char
    then (elim (extended_of d) [ some e ↦ e ∷ pair | none ↦ c ∷ one ])
    else c ∷ one

abbrev pub is_high : ℕ → Bool
is_high c = leb 0xD800 c && ltb c 0xDC00

abbrev pub is_low : ℕ → Bool
is_low c = leb 0xDC00 c && ltb c 0xE000

-- `for (const char of text)`: the code points, each by its one or two code units.
unfoldable pub code_points : List ℕ → List (List ℕ)
code_points [] = []
code_points (c ∷ []) = (c ∷ []) ∷ []
code_points (c ∷ d ∷ cs) =
    let pair = code_points cs in
    let one = code_points (d ∷ cs) in
    if is_high c && is_low d then (c ∷ d ∷ []) ∷ pair else (c ∷ []) ∷ one

-- `gsmCharCodes.get(char) ?? 0x20` of a code point.
unfoldable pub code_of : List ℕ → ℕ
unfolding char_code
code_of (c ∷ []) = or_else 0x20 (char_code c)
code_of _ = 0x20

unfoldable pub swapped : List ℕ → List ℕ
swapped (hi ∷ lo ∷ bs) = (hi * 256 + lo) ∷ swapped bs
swapped _ = []

unfoldable pub big_endian : List ℕ → List ℕ
big_endian [] = []
big_endian (c ∷ cs) = (c / 256) ∷ (c % 256) ∷ big_endian cs

unfoldable pub encode : EncodingName → List ℕ → List ℕ
unfolding escape code_points code_of big_endian
encode ascii value = map code_of (code_points (escape value))
encode latin1 value = map (λ c. c % 256) value
encode ucs2 value = big_endian value

-- An odd octet at the end of UCS2 is left out.
unfoldable pub decode : EncodingName → List ℕ → List ℕ
unfolding unescape char_at swapped
decode ascii buffer = unescape (map char_at buffer)
decode latin1 buffer = buffer
decode ucs2 buffer = swapped buffer

abbrev is_some : Option ℕ → Bool
is_some none = false
is_some (some _) = true

-- A character of `gsmRegex`: of the alphabet, or behind an escape.
unfoldable pub is_gsm : ℕ → Bool
is_gsm c = is_some (char_code c) || is_some (base_of c)

unfoldable pub match : EncodingName → List ℕ → Bool
unfolding is_gsm
match ascii value = all_of is_gsm value
match latin1 value = false
match ucs2 value = true

unfoldable pub detect : List ℕ → EncodingName
unfolding match
detect value = if match ascii value then ascii else if match latin1 value then latin1 else ucs2

pub record Unencodable : Type 0 where
  pub char : List ℕ
  pub index : ℕ

-- The loop of `unencodable`.
unfoldable pub unencodable_from : EncodingName → ℕ → List (List ℕ) → Option Unencodable
unfolding encode decode
unencodable_from e index [] = none
unencodable_from e index (char ∷ chars) =
    let rest = unencodable_from e (index + length char) chars in
    if text_eq.beq (decode e (encode e char)) char
    then rest
    else some (record { char = char; index = index })

unfoldable pub unencodable : List ℕ → EncodingName → Option Unencodable
unfolding unencodable_from
unencodable message e = unencodable_from e 0 (code_points message)

unfoldable pub message_class_of : ℕ → Option ℕ
message_class_of data_coding =
    if bit_and data_coding 0x80 == 0
    then (if bit_and data_coding 0x10 == 0x10 then some (bit_and data_coding 0x03) else none)
    else if bit_and data_coding 0xF0 == 0xF0
    then some (bit_and data_coding 0x03)
    else none

-- `(dataCoding >> 2) & 0x03` is the two bits above the lowest two.
unfoldable pub message_class_encoding : ℕ → Option EncodingName
unfolding message_class_of
message_class_encoding data_coding =
    let alphabet = bit_and (data_coding / 4) 0x03 in
    elim (message_class_of data_coding) [
      | none ↦ none
      | some _ ↦
          if bit_and data_coding 0xF0 == 0xF0
          then some (if bit_and data_coding 0x04 == 0x04 then latin1 else ascii)
          else if alphabet == 1
          then some latin1
          else some (if alphabet == 2 then ucs2 else ascii)
    ]

unfoldable pub encoding_by_data_coding : ℕ → EncodingName
unfolding message_class_encoding
encoding_by_data_coding data_coding = elim (message_class_encoding data_coding) [
  | some e ↦ e
  | none ↦
      if data_coding == 0x08
      then ucs2
      else if leb 0x02 data_coding && leb data_coding 0x04
      then latin1
      else ascii
]

unfoldable pub data_coding_by_encoding : EncodingName → ℕ
data_coding_by_encoding ascii = 0x00
data_coding_by_encoding latin1 = 0x03
data_coding_by_encoding ucs2 = 0x08
