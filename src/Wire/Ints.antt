-- ===== src/Wire/Ints.antt =====
-- The integers of src/defs/types.ts, big-endian in 1, 2 or 4 octets.
use smpp_js.Prelude.{
  ℕ, ◌+◌, ◌*◌, ◌/◌, ◌%◌, ◌^◌, Option, none, some, List, [], ◌∷◌, length, drop, ◌==◌, if◌then◌else◌,
}
use smpp_js.Prelude.Results.{ok, err}
use smpp_js.Wire.{
  whole, ParamValue, number, integer_tlv_octets, Fallible, out_of_range, poke, want_int, WireType,
}

pub data Width : Type 0 where
  one two four : Width

unfoldable pub octets_of : Width → ℕ
octets_of one = 1
octets_of two = 2
octets_of four = 4

unfoldable pub max_of : Width → ℕ
max_of one = 0xFF
max_of two = 0xFFFF
max_of four = 0xFFFF_FFFF

-- `readUInt8`, `readUInt16BE` and `readUInt32BE` of the octets at the front.
unfoldable pub read_be : Width → List ℕ → ℕ
read_be one (a ∷ _) = a
read_be two (a ∷ b ∷ _) = a * 256 + b
read_be four (a ∷ b ∷ c ∷ d ∷ _) = a * 2 ^ 24 + b * 2 ^ 16 + c * 2 ^ 8 + d
read_be _ _ = 0

-- `writeUInt8`, `writeUInt16BE` and `writeUInt32BE` of a number in range.
unfoldable pub write_be : Width → ℕ → List ℕ
write_be one n = n ∷ []
write_be two n = (n / 256) ∷ (n % 256) ∷ []
write_be four n = (n / 2 ^ 24) ∷ (n / 2 ^ 16 % 256) ∷ (n / 2 ^ 8 % 256) ∷ (n % 256) ∷ []

unfoldable pub int_read : Width → List ℕ → ℕ → Fallible (ℕ × ParamValue)
unfolding octets_of read_be out_of_range
int_read w buf offset = elim (out_of_range buf offset (octets_of w)) [
  | some e ↦ err e
  | none ↦ ok (octets_of w, number (whole (read_be w (drop offset buf))))
]

unfoldable pub int_write : Width → ParamValue → List ℕ → ℕ → Fallible (List ℕ)
unfolding octets_of max_of write_be out_of_range want_int
int_write w value buf offset = elim (out_of_range buf offset (octets_of w)) [
  | some e ↦ err e
  | none ↦ elim (want_int value (max_of w)) [
    | err e ↦ err e
    | ok int ↦ ok (poke offset (write_be w int) buf)
  ]
]

unfoldable pub int_type : Width → WireType
int_type w = record {
  default = number (whole 0);
  read = λ buf offset _. int_read w buf offset;
  size = λ _. ok (octets_of w);
  write = int_write w;
}

-- The width of an integer TLV is the one that its header declares.
abbrev width_of : ℕ → Option Width
width_of n =
    if n == 1 then some one else if n == 2 then some two else if n == 4 then some four else none

unfoldable pub tlv_int_read : Width → List ℕ → ℕ → Option ℕ → Fallible (ℕ × ParamValue)
unfolding int_read
tlv_int_read w buf offset none = int_read w buf offset
tlv_int_read w buf offset (some length) = elim (width_of length) [
  | none ↦ err (integer_tlv_octets length)
  | some declared ↦ int_read declared buf offset
]

unfoldable pub tlv_int : Width → WireType
tlv_int w = record {
  default = number (whole 0);
  read = tlv_int_read w;
  size = λ _. ok (octets_of w);
  write = int_write w;
}
