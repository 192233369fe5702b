-- ===== src/Pdu/WholeTests.antt =====
-- The theorems about whole PDUs of src/pdu.ts at concrete ones.
use smpp_js.Prelude.{
  ℕ, ◌+◌, ◌≡◌, refl, Option, none, some, List, [], ◌∷◌, flatten, length, String, find, string_eq,
  arith,
}
use smpp_js.Prelude.Results.{ok}
use smpp_js.Wire.{whole, number, text, bytes}
use smpp_js.Wire.Texts.{cstring}
use smpp_js.Wire.Encodes.{cstring-Encodes}
use smpp_js.Defs.Commands.{CommandSpec, specs, resp_name_for}
use smpp_js.Defs.Errors.{errors}
use smpp_js.Retained.{named, octets, words, PduObject}
use smpp_js.Defs.Tlvs.{tlvs_by_id}
use smpp_js.Defs.Tlvs.Codec.{tag_input, keyed_tag_id}
use smpp_js.Defs.Tlvs.Values.{raw}
use smpp_js.Defs.Tlvs.Stream.{occurrence, spelled}
use smpp_js.Defs.Tlvs.Sent.{nothing, one as one_input, tlv_of}
use smpp_js.Prelude.Digits.{all_of}
use smpp_js.Wire.Ints.{write_be}
use smpp_js.Encodings.{encode, detect, data_coding_by_encoding}
use smpp_js.Message.{encode_body}
use smpp_js.Pdu.{Params, resp_bit, sm_length, value_for, with_header}
use smpp_js.Pdu.Params.{done, field}
use smpp_js.Pdu.Build.{Inputs, resolve_body, obj_to_pdu}
use smpp_js.Pdu.Parse.{
  object_of, pdu_to_obj, pdu_return, PduRefusedError, RefusalCause, in_tlvs, unknown_command,
  left_over, refusal_status, refusal_answer,
}
use smpp_js.Pdu.Whole.{Carries, header_for, pdu_round_trip}
use smpp_js.Pdu.Responses.{failure_response}
use smpp_js.Pdu.Faults.{Comes, pdu_to_obj-Comes}

-- A response with the id of a message, and a text in its payload.
abbrev given : Params
given = ("message_id", text (b'7' ∷ [])) ∷ []

abbrev payload : Inputs
payload = (named "message_payload", tag_input none (words (b'h' ∷ b'i' ∷ []))) ∷ []

abbrev response : CommandSpec
response = record { id = 0x8000_0004; params = ("message_id", cstring) ∷ [] }

unfoldable carried_response : Carries "submit_sm_resp" given payload
unfolding specs resolve_body value_for tlvs_by_id keyed_tag_id encode_body data_coding_by_encoding
    encode detect all_of sm_length flatten write_be
carried_response = record {
  definition = response;
  known = refl;
  resolved = ("message_id", text (b'7' ∷ [])) ∷ ("data_coding", number (whole 0)) ∷ [];
  sent_tlvs = (named "message_payload", tag_input none (octets (b'h' ∷ b'i' ∷ []))) ∷ [];
  resolves = refl;
  chunks = (b'7' ∷ 0 ∷ []) ∷ [];
  read = given;
  fields = field (cstring-Encodes (b'7' ∷ []) (some 0) refl refl) done;
  occurrences = occurrence 0x0424 (bytes (b'h' ∷ b'i' ∷ [])) ∷ [];
  tlv_chunks = spelled 0x0424 (b'h' ∷ b'i' ∷ []) ∷ [];
  ones = (named "message_payload", tlv_of 0x0424 (octets (b'h' ∷ b'i' ∷ []))) ∷ [];
  lists = [];
  sent = one_input refl refl refl (raw (omega arith)) nothing;
  distinct = (refl, tt);
  fits = omega arith;
}

pdu_round_trip_example :
    (obj_to_pdu (record {
      cmd_name = "submit_sm_resp";
      cmd_status = none;
      params = given;
      seq_nr = some (whole 9);
      tlvs = payload;
    })
      ≡ ok (with_header 0x8000_0004 0 9 (b'7' ∷ 0 ∷ 4 ∷ 0x24 ∷ 0 ∷ 2 ∷ b'h' ∷ b'i' ∷ [])))
    × (pdu_to_obj (with_header 0x8000_0004 0 9 (b'7' ∷ 0 ∷ 4 ∷ 0x24 ∷ 0 ∷ 2 ∷ b'h' ∷ b'i' ∷ []))
        ≡ ok (
            object_of
              (header_for "submit_sm_resp" 0x8000_0004 0 9 24)
              "submit_sm_resp"
              given
              ((named "message_payload", tlv_of 0x0424 (octets (b'h' ∷ b'i' ∷ []))) ∷ [])))
unfolding carried_response flatten write_be with_header
pdu_round_trip_example =
    pdu_round_trip "submit_sm_resp" 9 given payload (omega arith) carried_response

abbrev request : PduObject
request = record {
  cmd_id = 4;
  cmd_length = 40;
  cmd_name = "submit_sm";
  cmd_status = some "ESME_ROK";
  cmd_status_id = 0;
  params = [];
  seq_nr = 77;
  short_message_octets = none;
  tlvs = [];
}

-- The spec that the table has of a command.
abbrev spec_of : String → CommandSpec
spec_of name = elim (find name specs) [ none ↦ record { id = 0; params = [] } | some spec ↦ spec ]

failure_response_example :
    (answer : List ℕ) × (obj : PduObject) × (pdu_return request "ESME_RTHROTTLED" given payload
      ≡ ok answer)
    × (length answer ≡ 16)
    × (pdu_to_obj answer ≡ ok obj)
    × (obj.cmd_name ≡ "submit_sm_resp")
    × (obj.cmd_id ≡ (spec_of "submit_sm").id + resp_bit)
    × (obj.cmd_status ≡ some "ESME_RTHROTTLED")
    × (obj.seq_nr ≡ 77)
    × (obj.params ≡ [])
    × (obj.tlvs ≡ [])
unfolding specs errors resp_name_for
failure_response_example =
    failure_response request (spec_of "submit_sm") "submit_sm_resp" "ESME_RTHROTTLED" 0x58 given
      payload refl refl refl (λ h. omega (arith, h)) (omega arith)

-- A PDU of a command that there is none of.
pdu_to_obj-Comes_example :
    Comes
      (0 ∷ 0 ∷ 0 ∷ 16 ∷ 0 ∷ 0 ∷ 1 ∷ 9 ∷ 0 ∷ 0 ∷ 0 ∷ 0 ∷ 0 ∷ 0 ∷ 0 ∷ 3 ∷ [])
      (pdu_to_obj (0 ∷ 0 ∷ 0 ∷ 16 ∷ 0 ∷ 0 ∷ 1 ∷ 9 ∷ 0 ∷ 0 ∷ 0 ∷ 0 ∷ 0 ∷ 0 ∷ 0 ∷ 3 ∷ []))
pdu_to_obj-Comes_example =
    pdu_to_obj-Comes (0 ∷ 0 ∷ 0 ∷ 16 ∷ 0 ∷ 0 ∷ 1 ∷ 9 ∷ 0 ∷ 0 ∷ 0 ∷ 0 ∷ 0 ∷ 0 ∷ 0 ∷ 3 ∷ [])

abbrev refusing : Option String → RefusalCause → PduRefusedError
refusing name cause = record {
  header = record { cmd_id = 9; cmd_length = 16; cmd_name = name; cmd_status_id = 0; seq_nr = 4 };
  cause = cause;
}

-- A refused request is answered by its own response, and what has no response by a nack.
refusals_answered :
    (refusal_answer (refusing (some "bind_transceiver") (in_tlvs (left_over 2)))
      ≡ ("bind_transceiver_resp", "ESME_RINVTLVSTREAM"))
    × (refusal_answer (refusing none unknown_command) ≡ ("generic_nack", "ESME_RINVCMDID"))
unfolding refusal_answer refusal_status resp_name_for specs
refusals_answered = (refl, refl)
