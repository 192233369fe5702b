-- ===== src/Defs/Tlvs/Tests.antt =====
-- Runs of the optional parameters of src/defs/tlvs.ts, and the theorems about them at concrete ones.
use smpp_js.Prelude.{ℕ, ◌++◌, ◌≡◌, refl, none, some, List, [], ◌∷◌, flatten, find, arith}
use smpp_js.Prelude.Results.{Result, ok, err}
use smpp_js.Wire.{whole, number, bytes}
use smpp_js.Wire.Ints.{max_of, write_be}
use smpp_js.Retained.{TagKey, key_eq, named, numeral, octets, octets_each, count, Tlv}
use smpp_js.Defs.Tlvs.{tlvs_by_id}
use smpp_js.Defs.Tlvs.Codec.{
  TlvError, TlvInput, tag_input, keyed_tag_id, key_it, named_by_the_table, write_tlvs, parse_tlvs,
  Occurrence,
}
use smpp_js.Defs.Tlvs.Values.{integer, raw}
use smpp_js.Defs.Tlvs.Stream.{done, then_value, occurrence}
use smpp_js.Defs.Tlvs.Sent.{Sent, nothing, one as one_input, several, tlv_of}
use smpp_js.Defs.Tlvs.Found.{IsBack, tlvs_read-IsBack}
use smpp_js.Defs.Tlvs.Kinds.{Reads, parse_tlvs-Reads}

other_spelling :
    keyed_tag_id (named "alert_on_msg_delivery") ≡ err (key_it "alert_on_message_delivery")
unfolding keyed_tag_id
other_spelling = refl

numbered : keyed_tag_id (numeral 0x0424) ≡ err (named_by_the_table "message_payload")
unfolding keyed_tag_id
numbered = refl

-- A tag that the table does not name, a reference, and two numbers to call back.
abbrev inputs : List (TagKey × TlvInput)
inputs =
    (numeral 0x1400, tag_input none (octets (7 ∷ [])))
    ∷ (named "sar_msg_ref_num", tag_input none (count (whole 300)))
    ∷ (
      named "callback_num",
      tag_input (some (whole 0x0381)) (octets_each ((1 ∷ 2 ∷ []) ∷ (3 ∷ []) ∷ [])),
    )
    ∷ []

abbrev chunks : List (List ℕ)
chunks =
    (20 ∷ 0 ∷ 0 ∷ 1 ∷ 7 ∷ [])
    ∷ (2 ∷ 12 ∷ 0 ∷ 2 ∷ 1 ∷ 44 ∷ [])
    ∷ (3 ∷ 129 ∷ 0 ∷ 2 ∷ 1 ∷ 2 ∷ [])
    ∷ (3 ∷ 129 ∷ 0 ∷ 1 ∷ 3 ∷ [])
    ∷ []

abbrev ones : List (TagKey × Tlv)
ones =
    (numeral 0x1400, tlv_of 0x1400 (octets (7 ∷ [])))
    ∷ (named "sar_msg_ref_num", tlv_of 0x020C (count (whole 300)))
    ∷ []

abbrev lists : List (TagKey × Tlv)
lists = (named "callback_num", tlv_of 0x0381 (octets_each ((1 ∷ 2 ∷ []) ∷ (3 ∷ []) ∷ []))) ∷ []

abbrev read : List Occurrence
read =
    occurrence 0x1400 (bytes (7 ∷ []))
    ∷ occurrence 0x020C (number (whole 300))
    ∷ occurrence 0x0381 (bytes (1 ∷ 2 ∷ []))
    ∷ occurrence 0x0381 (bytes (3 ∷ []))
    ∷ []

inputs-Sent : Sent inputs read chunks ones lists
unfolding tlvs_by_id keyed_tag_id write_be max_of
inputs-Sent = one_input refl refl refl (raw (omega arith)) (
    one_input refl refl refl (integer (omega arith)) (
      several refl refl refl refl refl
        (then_value (raw (omega arith)) (then_value (raw (omega arith)) done)) nothing))

tlvs_read-IsBack_example :
    (write_tlvs inputs ≡ ok chunks)
    × ((tlvs : List (TagKey × Tlv)) × (parse_tlvs ((9 ∷ 9 ∷ []) ++ flatten chunks) 2
          ≡ some (ok (24, tlvs)))
        × ((key : TagKey) → IsBack key (find key inputs) (find key tlvs)))
unfolding flatten
tlvs_read-IsBack_example =
    tlvs_read-IsBack inputs read chunks ones lists (9 ∷ 9 ∷ []) inputs-Sent
      (refl, (refl, (refl, tt)))

-- A TLV that is cut short.
parse_tlvs-Reads_example :
    (out : Result TlvError (ℕ × List (TagKey × Tlv))) × (parse_tlvs (2 ∷ 12 ∷ 0 ∷ 2 ∷ 1 ∷ []) 0
      ≡ some out)
    × Reads (2 ∷ 12 ∷ 0 ∷ 2 ∷ 1 ∷ []) 0 out
parse_tlvs-Reads_example = parse_tlvs-Reads (2 ∷ 12 ∷ 0 ∷ 2 ∷ 1 ∷ []) 0
