-- ===== src/Received/Tests.antt =====
-- Runs of src/concat.ts, and the theorem about received segments at a concrete message.
use smpp_js.Prelude.{ℕ, ◌≡◌, refl, some, List, [], ◌∷◌, map, replicate, string_eq}
use smpp_js.Wire.{whole, number, bytes}
use smpp_js.Encodings.{ucs2, encode}
use smpp_js.Constants.{has_udh}
use smpp_js.Message.{split_message}
use smpp_js.Retained.{named, count, PduObject, message_octets}
use smpp_js.Reassembly.{sar}
use smpp_js.Received.{concat_of}

-- A message of two segments.
abbrev sent : List ℕ
sent = replicate 71 0x416

abbrev carrying : List ℕ → PduObject
carrying segment = record {
  cmd_id = 5;
  cmd_length = 200;
  cmd_name = "deliver_sm";
  cmd_status = some "ESME_ROK";
  cmd_status_id = 0;
  params =
      ("esm_class", number (whole 0x40))
      ∷ ("data_coding", number (whole 8))
      ∷ ("short_message", bytes segment)
      ∷ [];
  seq_nr = 1;
  short_message_octets = some segment;
  tlvs = [];
}

unfoldable received : List PduObject
unfolding split_message encode
received = map carrying (split_message sent (some ucs2) 300)

-- The TLVs number a PDU that has no header.
by_tlvs :
    concat_of (record {
      cmd_id = 5;
      cmd_length = 60;
      cmd_name = "deliver_sm";
      cmd_status = some "ESME_ROK";
      cmd_status_id = 0;
      params = [];
      seq_nr = 1;
      short_message_octets = some (b'x' ∷ []);
      tlvs =
          (
            named "sar_msg_ref_num",
            record {
              tag_id = 0x020C;
              tag_name = some "sar_msg_ref_num";
              tag_value = count (whole 7);
            },
          )
          ∷ (
            named "sar_total_segments",
            record {
              tag_id = 0x020E;
              tag_name = some "sar_total_segments";
              tag_value = count (whole 2);
            },
          )
          ∷ (
            named "sar_segment_seqnum",
            record {
              tag_id = 0x020F;
              tag_name = some "sar_segment_seqnum";
              tag_value = count (whole 1);
            },
          )
          ∷ [];
    })
    ≡ some (some (record { part = 1; reference = 7; spelling = sar; total = 2 }))
unfolding concat_of message_octets has_udh
by_tlvs = refl
