-- ===== src/Wire/Texts.antt =====
-- The texts and octet fields of src/defs/types.ts.
use smpp_js.Prelude.{
  ℕ, suc, ◌+◌, Option, none, some, List, [], ◌∷◌, ◌++◌, length, take, drop, ltb, ◌==◌,
  if◌then◌else◌,
}
use smpp_js.Prelude.Results.{ok, err, ◌>>=◌}
use smpp_js.Wire.{
  ParamValue, bytes, text, WireError, starts_past, unterminated, too_long_for_length_octet,
  Fallible, out_of_range, poke, index_of, is_nul, want_text, want_cstring_text, want_bytes,
  WireType,
}

-- The octets from an offset to the first NUL, or that there is none; the octets are not empty.
unfoldable pub cstring_length : List ℕ → Option ℕ
cstring_length [] = none
cstring_length (c ∷ cs) =
    let rest = cstring_length cs in
    if c == 0 then some 0 else (elim rest [ none ↦ none | some n ↦ some (suc n) ])

-- An offset at the end exactly is an absent field.
unfoldable pub read_cstring : List ℕ → ℕ → Fallible (ℕ × List ℕ)
unfolding out_of_range cstring_length
read_cstring buf offset = elim (out_of_range buf offset 0) [
  | some _ ↦ err (starts_past offset (length buf))
  | none ↦ if offset == length buf then ok (0, []) else elim (cstring_length (drop offset buf)) [
    | none ↦ err unterminated
    | some n ↦ ok (n + 1, take n (drop offset buf))
  ]
]

unfoldable pub write_cstring : List ℕ → List ℕ → ℕ → Fallible (List ℕ)
unfolding out_of_range
write_cstring t buf offset = elim (out_of_range buf offset (length t + 1)) [
  | some e ↦ err e
  | none ↦ ok (poke offset (t ++ (0 ∷ [])) buf)
]

unfoldable pub cstring_size : ParamValue → Fallible ℕ
unfolding want_cstring_text
cstring_size value = do t ← want_cstring_text value; ok (length t + 1)

unfoldable pub cstring_write : ParamValue → List ℕ → ℕ → Fallible (List ℕ)
unfolding want_cstring_text write_cstring
cstring_write value buf offset = do t ← want_cstring_text value; write_cstring t buf offset

unfoldable pub cstring : WireType
cstring = record {
  default = text [];
  read = λ buf offset _. (do r ← read_cstring buf offset; ok (r.0, text r.1));
  size = cstring_size;
  write = cstring_write;
}

unfoldable pub too_long : List ℕ → Option WireError
too_long t = if ltb 0xFF (length t) then some (too_long_for_length_octet (length t)) else none

unfoldable pub string_read : List ℕ → ℕ → Fallible (ℕ × ParamValue)
unfolding out_of_range
string_read buf offset = elim (out_of_range buf offset 1) [
  | some e ↦ err e
  | none ↦
      let n = first (drop offset buf) in
      elim (out_of_range buf (offset + 1) n) [
        | some e ↦ err e
        | none ↦ ok (n + 1, text (take n (drop (offset + 1) buf)))
      ]
]
  where
    first : List ℕ → ℕ
    first [] = 0
    first (c ∷ _) = c

unfoldable pub string_size : ParamValue → Fallible ℕ
unfolding want_text too_long
string_size value = do
  t ← want_text value
  elim (too_long t) [ some e ↦ err e | none ↦ ok (length t + 1) ]

unfoldable pub string_write : ParamValue → List ℕ → ℕ → Fallible (List ℕ)
unfolding want_text too_long out_of_range
string_write value buf offset = do
  t ← want_text value
  elim (too_long t) [
    | some e ↦ err e
    | none ↦ elim (out_of_range buf offset (length t + 1)) [
      | some e ↦ err e
      | none ↦ ok (poke offset (length t ∷ t) buf)
    ]
  ]

unfoldable pub string : WireType
string = record {
  default = text [];
  read = λ buf offset _. string_read buf offset;
  size = string_size;
  write = string_write;
}

abbrev or_zero : Option ℕ → ℕ
or_zero none = 0
or_zero (some n) = n

unfoldable pub buffer_read : List ℕ → ℕ → Option ℕ → Fallible (ℕ × ParamValue)
unfolding out_of_range
buffer_read buf offset given = elim (out_of_range buf offset (or_zero given)) [
  | some e ↦ err e
  | none ↦ ok (or_zero given, bytes (take (or_zero given) (drop offset buf)))
]

unfoldable pub buffer_size : ParamValue → Fallible ℕ
unfolding want_bytes
buffer_size value = do b ← want_bytes value; ok (length b)

unfoldable pub buffer_write : ParamValue → List ℕ → ℕ → Fallible (List ℕ)
unfolding want_bytes out_of_range
buffer_write value buf offset = do
  b ← want_bytes value
  elim (out_of_range buf offset (length b)) [ some e ↦ err e | none ↦ ok (poke offset b buf) ]

unfoldable pub buffer : WireType
buffer = record { default = bytes []; read = buffer_read; size = buffer_size; write = buffer_write }

-- The text ends at the first NUL within the declared octets, or with them. `buf.indexOf(0, offset)`
-- finds the NUL from the offset on.
unfoldable pub tlv_cstring_read : List ℕ → ℕ → Option ℕ → Fallible (ℕ × ParamValue)
unfolding out_of_range
tlv_cstring_read buf offset given =
    let n = or_zero given in
    elim (out_of_range buf offset n) [
      | some e ↦ err e
      | none ↦ elim (index_of is_nul (drop offset buf)) [
        | none ↦ ok (n, text (take n (drop offset buf)))
        | some i ↦
            if ltb n i
            then ok (n, text (take n (drop offset buf)))
            else ok (n, text (take i (drop offset buf)))
      ]
    ]

unfoldable pub tlv_cstring : WireType
tlv_cstring = record {
  default = text [];
  read = tlv_cstring_read;
  size = cstring_size;
  write = cstring_write;
}

unfoldable pub tlv_string_read : List ℕ → ℕ → Option ℕ → Fallible (ℕ × ParamValue)
unfolding out_of_range
tlv_string_read buf offset given = elim (out_of_range buf offset (or_zero given)) [
  | some e ↦ err e
  | none ↦ ok (or_zero given, text (take (or_zero given) (drop offset buf)))
]

unfoldable pub tlv_string_size : ParamValue → Fallible ℕ
unfolding want_text
tlv_string_size value = do t ← want_text value; ok (length t)

unfoldable pub tlv_string_write : ParamValue → List ℕ → ℕ → Fallible (List ℕ)
unfolding want_text out_of_range
tlv_string_write value buf offset = do
  t ← want_text value
  elim (out_of_range buf offset (length t)) [ some e ↦ err e | none ↦ ok (poke offset t buf) ]

unfoldable pub tlv_string : WireType
tlv_string = record {
  default = text [];
  read = tlv_string_read;
  size = tlv_string_size;
  write = tlv_string_write;
}
