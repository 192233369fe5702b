-- ===== src/Encodings/Tests.antt =====
-- Runs of the alphabets of src/defs/encodings.ts.
use smpp_js.Prelude.{◌≡◌, refl, none, [], ◌∷◌}
use smpp_js.Prelude.Digits.{all_of}
use smpp_js.Encodings.{
  char_code, ascii, latin1, ucs2, encode, decode, detect, unencodable, encoding_by_data_coding,
}

-- A text with an extended character: `{a`.
escaped : encode ascii (b'{' ∷ b'a' ∷ []) ≡ 0x1B ∷ 0x28 ∷ 0x61 ∷ []
unfolding encode
escaped = refl

unescaped : decode ascii (0x1B ∷ 0x28 ∷ 0x61 ∷ []) ≡ b'{' ∷ b'a' ∷ []
unfolding decode
unescaped = refl

-- A raw escape in front of an `e`: the alphabet is taken to carry the text, which then reads as a
-- euro sign.
raw_escape : detect (0x1B ∷ b'e' ∷ []) ≡ ascii
unfolding detect all_of char_code
raw_escape = refl

raw_escape_passes : unencodable (0x1B ∷ b'e' ∷ []) ascii ≡ none
unfolding unencodable encode decode
raw_escape_passes = refl

raw_escape_read : decode ascii (encode ascii (0x1B ∷ b'e' ∷ [])) ≡ 8364 ∷ []
unfolding encode decode
raw_escape_read = refl

-- A flash message in UCS2, and a binary one.
flash_ucs2 : encoding_by_data_coding 0x18 ≡ ucs2
unfolding encoding_by_data_coding
flash_ucs2 = refl

binary : encoding_by_data_coding 0x04 ≡ latin1
unfolding encoding_by_data_coding
binary = refl
