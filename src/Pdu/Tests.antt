-- ===== src/Pdu/Tests.antt =====
-- Runs of the PDU codec, and its theorems at concrete PDUs.
use smpp_js.Prelude.{
  ℕ, ◌+◌, ◌≡◌, refl, none, some, List, [], ◌∷◌, ◌++◌, drop, flatten, length, arith,
}
use smpp_js.Prelude.Results.{ok}
use smpp_js.Wire.{number, whole, text, bytes}
use smpp_js.Wire.Ints.{one, int_type, write_be, max_of}
use smpp_js.Wire.Texts.{cstring, buffer}
use smpp_js.Wire.Encodes.{int_type-Encodes, cstring-Encodes, buffer-Encodes}
use smpp_js.Defs.Commands.{Param}
use smpp_js.Framer.{PduFramer, fresh, next, pdus}
use smpp_js.Framer.Cuts.{octets}
use smpp_js.Pdu.{
  with_header, Params, sm_length, value_for, write_params, read_params, header_of, check_framing,
}
use smpp_js.Pdu.Params.{Fields, done, field, standing, params_round_trip}
use smpp_js.Pdu.Header.{Built, pdu_of, Fits, SameHeader, header_of-pdu_of, arrived, next-pdus_of}

-- A message id, a length, and the message of that length.
abbrev table : List Param
table = ("message_id", cstring) ∷ ("sm_length", int_type one) ∷ ("short_message", buffer) ∷ []

abbrev given : Params
given =
    ("message_id", text (b'a' ∷ b'7' ∷ []))
    ∷ ("sm_length", number (whole 3))
    ∷ ("short_message", bytes (1 ∷ 0 ∷ 2 ∷ []))
    ∷ []

abbrev written : List (List ℕ)
written = (b'a' ∷ b'7' ∷ 0 ∷ []) ∷ (3 ∷ []) ∷ (1 ∷ 0 ∷ 2 ∷ []) ∷ []

given-Fields : Fields given table [] written given
unfolding sm_length value_for write_be max_of
given-Fields = field (cstring-Encodes (b'a' ∷ b'7' ∷ []) (some 0) refl refl) (
    field (int_type-Encodes one 3 (some 0) (omega arith))
      (field (buffer-Encodes (1 ∷ 0 ∷ 2 ∷ [])) done))

params_round_trip_example :
    (write_params table given ≡ ok written)
    × (read_params table (9 ∷ 9 ∷ b'a' ∷ b'7' ∷ 0 ∷ 3 ∷ 1 ∷ 0 ∷ 2 ∷ 8 ∷ []) (standing none 2 [])
        ≡ ok (standing (some "short_message") 9 given))
unfolding flatten
params_round_trip_example =
    params_round_trip given table [] given written (9 ∷ 9 ∷ []) (8 ∷ []) none given-Fields

-- A refused query, and an enquire_link behind it.
abbrev refused : Built
refused = record { id = 0x8000_0003; status = 0x67; seq_nr = 7; body = [] }

abbrev filled : Built
filled = record { id = 0x8000_0004; status = 0; seq_nr = 8; body = b'x' ∷ 0 ∷ [] }

refused-Fits : Fits refused
refused-Fits = record {
  id_fits = omega arith;
  status_fits = omega arith;
  seq_fits = omega arith;
  length_fits = omega arith;
}

filled-Fits : Fits filled
filled-Fits = record {
  id_fits = omega arith;
  status_fits = omega arith;
  seq_fits = omega arith;
  length_fits = omega arith;
}

header_of-pdu_of_example :
    SameHeader (header_of (pdu_of filled)) filled
    × (length (pdu_of filled) ≡ 2 + 16)
    × (check_framing (pdu_of filled) ≡ none)
header_of-pdu_of_example = header_of-pdu_of filled filled-Fits

-- The second PDU arrives in two chunks, the first of them with the first PDU.
abbrev chunks : List (List ℕ)
chunks = (pdu_of refused ++ (0 ∷ 0 ∷ [])) ∷ drop 2 (pdu_of filled) ∷ []

next-pdus_of_example :
    (g : PduFramer) × (next (arrived chunks fresh)
      ≡ some (g, pdus (pdu_of refused ∷ pdu_of filled ∷ [])))
    × (octets g ≡ [])
unfolding flatten with_header write_be
next-pdus_of_example =
    next-pdus_of (refused ∷ filled ∷ []) chunks (refused-Fits, (filled-Fits, tt)) refl
