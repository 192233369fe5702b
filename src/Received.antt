-- ===== src/Received.antt =====
-- src/concat.ts, with `decodeSegments` of src/reassembly.ts: where a received PDU stands in its message,
-- and the text of the segments together.
pub mod Whole
mod Tests
use smpp_js.Prelude.{
  ℕ, Option, none, some, List, [], ◌∷◌, ◌++◌, String, string_eq, find, if◌then◌else◌,
}
use smpp_js.Constants.{has_udh}
use smpp_js.Wire.{JsNumber, whole, ParamValue, number}
use smpp_js.Udh.{ConcatInfo, concat_info}
use smpp_js.Retained.{TagKey, named, key_eq, count, Tlv, PduObject, message_octets}
use smpp_js.Reassembly.{Spelling, sar, udh, Concat}
use smpp_js.Message.{decode_message}

-- `paramNumber(…, 0)` of what was read from the wire, which is a whole number.
abbrev pub number_in : Option ParamValue → ℕ
number_in (some (number (whole n))) = n
number_in _ = 0

-- A number of a TLV, likewise.
abbrev pub count_in : Option Tlv → Option ℕ
count_in none = none
count_in (some t) = elim t.tag_value [ count n ↦ elim n [ whole k ↦ some k | _ ↦ none ] | _ ↦ none ]

unfoldable pub sar_concat : PduObject → Option Concat
sar_concat pdu =
    do_all (count_in (find (named "sar_msg_ref_num") pdu.tlvs))
      (count_in (find (named "sar_segment_seqnum") pdu.tlvs))
      (count_in (find (named "sar_total_segments") pdu.tlvs))
  where
    do_all : Option ℕ → Option ℕ → Option ℕ → Option Concat
    do_all (some reference) (some part) (some total) =
        some (record { part = part; reference = reference; spelling = sar; total = total })
    do_all _ _ _ = none

-- The outer `none` is a run out of fuel of the walk over the header.
unfoldable pub concat_of : PduObject → Option (Option Concat)
unfolding sar_concat
concat_of pdu = elim (message_octets pdu) [
  | none ↦ some (sar_concat pdu)
  | some body ↦
      if has_udh (number_in (find "esm_class" pdu.params))
      then (elim (concat_info body) [
        | none ↦ none
        | some none ↦ some (sar_concat pdu)
        | some (some info) ↦ some (
            some (record {
              part = info.part;
              reference = info.reference;
              spelling = udh;
              total = info.total;
            }))
      ])
      else some (sar_concat pdu)
]

unfoldable pub decode_segments : List PduObject → List ℕ
decode_segments [] = []
decode_segments (pdu ∷ pdus) = elim (message_octets pdu) [
  | none ↦ decode_segments pdus
  | some part ↦
      (decode_message part (number_in (find "data_coding" pdu.params))
        (number_in (find "esm_class" pdu.params))).0
      ++ decode_segments pdus
]
