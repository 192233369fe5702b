-- ===== src/Message.antt =====
-- src/message.ts: a message body in an alphabet, and a long message cut into segments.
pub mod Points
pub mod Split
pub mod Segments
pub mod Bodies
mod Tests
use smpp_js.Prelude.{
  ℕ, zero, suc, ◌+◌, ◌*◌, ◌%◌, Bool, true, false, Option, none, some, List, [], ◌∷◌, ◌++◌, length,
  take, drop, ltb, leb, if◌then◌else◌,
}
use smpp_js.Prelude.Results.{Result, ok, err}
use smpp_js.Constants.{has_udh}
use smpp_js.Udh.{udh_length}
use smpp_js.Encodings.{
  EncodingName, ascii, latin1, ucs2, code_points, encode, decode, detect, Unencodable, unencodable,
  encoding_by_data_coding, data_coding_by_encoding,
}

abbrev pub single_message_bits : ℕ
single_message_bits = 1120

abbrev pub max_segments : ℕ
max_segments = 255

unfoldable pub segment_units : EncodingName → ℕ
segment_units ascii = 153
segment_units latin1 = 134
segment_units ucs2 = 134

abbrev pub resolved : List ℕ → Option EncodingName → EncodingName
resolved message none = detect message
resolved message (some e) = e

unfoldable pub encode_message : List ℕ → Option EncodingName → List ℕ × EncodingName
encode_message message encoding = let e = resolved message encoding in (encode e message, e)

-- The error of `encodeBody`: the coding asked for, its alphabet, and what that cannot carry.
pub data BodyError : Type 0 where
  cannot_carry : ℕ → EncodingName → Unencodable → BodyError

-- The octets of a text, and the coding that they are under.
unfoldable pub encode_body : List ℕ → Option ℕ → Result BodyError (List ℕ × ℕ)
unfolding encode_message
encode_body text none =
    let (buffer, e) = encode_message text none in ok (buffer, data_coding_by_encoding e)
encode_body text (some data_coding) =
    let e = encoding_by_data_coding data_coding in
    elim (unencodable text e) [
      | some lost ↦ err (cannot_carry data_coding e lost)
      | none ↦ ok (encode e text, data_coding)
    ]

-- The text of a body, and its user data header where it has one.
unfoldable pub decode_message : List ℕ → ℕ → ℕ → List ℕ × Option (List ℕ)
decode_message buffer data_coding esm_class =
    let e = encoding_by_data_coding data_coding in
    let header_length = udh_length buffer in
    if has_udh esm_class
    then (decode e (drop header_length buffer), some (take header_length buffer))
    else (decode e buffer, none)

abbrev bits_each : EncodingName → ℕ
bits_each ascii = 7
bits_each _ = 8

unfoldable pub bit_count : List ℕ → Option EncodingName → ℕ
bit_count message encoding =
    let e = resolved message encoding in length (encode e message) * bits_each e

-- The loop over the code points, from the part begun and the units that it uses.
unfoldable pub split_from : EncodingName → ℕ → List (List ℕ) → List ℕ → ℕ → List (List ℕ)
split_from e budget [] [] used = []
split_from e budget [] (c ∷ cs) used = (c ∷ cs) ∷ []
split_from e budget (char ∷ chars) current used =
    let cost = length (encode e char) in
    elim (ltb budget (used + cost)) [
      | true ↦ current ∷ split_from e budget chars char cost
      | false ↦ split_from e budget chars (current ++ char) (used + cost)
    ]

-- The parts, each behind its header, numbered from the given one on.
unfoldable pub numbered : EncodingName → ℕ → ℕ → ℕ → List (List ℕ) → List (List ℕ)
numbered e reference total n [] = []
numbered e reference total n (part ∷ parts) =
    (5 ∷ 0 ∷ 3 ∷ (reference % 256) ∷ total ∷ n ∷ encode e part)
    ∷ numbered e reference total (suc n) parts

unfoldable pub split_message : List ℕ → Option EncodingName → ℕ → List (List ℕ)
unfolding bit_count segment_units split_from numbered
split_message message encoding reference =
    let e = resolved message encoding in
    let parts = split_from e (segment_units e) (code_points message) [] 0 in
    if leb (bit_count message (some e)) single_message_bits
    then encode e message ∷ []
    else if ltb max_segments (length parts)
    then []
    else numbered e reference (length parts) 1 parts
