-- ===== src/Pdu/Parse.antt =====
-- Reading a PDU, as src/pdu.ts does, and answering one.
use smpp_js.Prelude.{
  ℕ, ◌+◌, ◌-◌, Bool, false, not, ◌&&◌, Option, none, some, List, [], ◌∷◌, String, string_eq, find,
  put, length, take, get_elem?, ◌==◌, if◌then◌else◌,
}
use smpp_js.Prelude.Results.{Result, ok, err, ◌>>=◌, map_err}
use smpp_js.Constants.{has_udh}
use smpp_js.Wire.{whole, ParamValue, bytes, number, text}
use smpp_js.Defs.Commands.{Param, CommandSpec, specs, resp_name_for}
use smpp_js.Defs.Errors.{error_name_by_id}
use smpp_js.Retained.{TagKey, Tlv, PduObject}
use smpp_js.Defs.Tlvs.Codec.{TlvError, parse_tlvs}
use smpp_js.Message.{decode_message}
use smpp_js.Pdu.{
  Params, ParamError, ReadParams, read_params, PduHeader, header_of, CheckError, check_framing,
}
use smpp_js.Pdu.Build.{BuildError, Inputs, build_pdu}

-- An error of the optional parameters; `out_of_fuel` is the run out of fuel of their loop.
pub data OptionalError : Type 0 where
  of_tlvs : TlvError → OptionalError
  left_over : ℕ → OptionalError
  out_of_fuel : OptionalError

-- The parameters that run to the end of the PDU exactly.
abbrev pub exactly :
    ℕ
    → Option (Result TlvError (ℕ × List (TagKey × Tlv)))
    → Result OptionalError (List (TagKey × Tlv))
exactly n none = err out_of_fuel
exactly n (some (err e)) = err (of_tlvs e)
exactly n (some (ok (offset, tlvs))) = if offset == n then ok tlvs else err (left_over (n - offset))

-- One NULL octet behind short_message is skipped where that makes the rest readable.
unfoldable pub read_optional_params : List ℕ → ℕ → Bool → Result OptionalError (List (TagKey × Tlv))
read_optional_params pdu start after_short_message =
    let plain = exactly (length pdu) (parse_tlvs pdu start) in
    let padded = exactly (length pdu) (parse_tlvs pdu (start + 1)) in
    elim plain [
      | ok tlvs ↦ ok tlvs
      | err e ↦
          if after_short_message && (elim (get_elem? pdu start) [ some c ↦ c == 0 | none ↦ false ])
          then (elim padded [ ok tlvs ↦ ok tlvs | err _ ↦ err e ])
          else err e
    ]

-- `PduRefusedError`, with the part that could not be read.
pub data RefusalCause : Type 0 where
  unknown_command : RefusalCause
  in_body : ParamError → RefusalCause
  in_tlvs : OptionalError → RefusalCause

pub record PduRefusedError : Type 0 where
  pub header : PduHeader
  pub cause : RefusalCause

-- The commands' parameters, and none of a name that there is no command of.
abbrev params_of : Option CommandSpec → List Param
params_of none = []
params_of (some d) = d.params

abbrev pub table_of : String → List Param
table_of cmd_name = params_of (find cmd_name specs)

abbrev pub is_short_message : Option String → Bool
is_short_message none = false
is_short_message (some name) = string_eq.beq name "short_message"

-- `paramNumber(…, 0)` of what was read.
abbrev number_in : Option ParamValue → ℕ
number_in (some (number (whole n))) = n
number_in _ = 0

abbrev octets_in : Option ParamValue → Option (List ℕ)
octets_in (some (bytes b)) = some b
octets_in _ = none

-- The text in place of the octets, where they are no header's.
abbrev pub readable : Params → Params
readable params = elim (octets_in (find "short_message" params)) [
  | none ↦ params
  | some b ↦
      if has_udh (number_in (find "esm_class" params))
      then params
      else put "short_message" (text (decode_message b (number_in (find "data_coding" params)) 0).0)
          params
]

abbrev pub nothing_read : ReadParams
nothing_read = record { last_param = none; offset = 16; params = [] }

-- The mandatory parameters of a PDU cut to its declared length.
unfoldable pub read_body : PduHeader → String → List ℕ → Result ParamError ReadParams
unfolding specs read_params
read_body header cmd_name declared =
    if not (header.cmd_status_id == 0) && (header.cmd_length == 16)
    then ok nothing_read
    else read_params (table_of cmd_name) declared nothing_read

abbrev pub object_of : PduHeader → String → Params → List (TagKey × Tlv) → PduObject
object_of header cmd_name params tlvs = record {
  cmd_id = header.cmd_id;
  cmd_length = header.cmd_length;
  cmd_name = cmd_name;
  cmd_status = error_name_by_id header.cmd_status_id;
  cmd_status_id = header.cmd_status_id;
  params = readable params;
  seq_nr = header.seq_nr;
  short_message_octets = octets_in (find "short_message" params);
  tlvs = tlvs;
}

-- `parsePdu` behind its header.
unfoldable pub parse_headed : PduHeader → List ℕ → Result PduRefusedError PduObject
unfolding read_body read_optional_params
parse_headed header pdu =
    let declared = take header.cmd_length pdu in
    let refused : RefusalCause → PduRefusedError =
      λ cause. record { header = header; cause = cause } in
    elim header.cmd_name [
      | none ↦ err (refused unknown_command)
      | some cmd_name ↦ do
        read ← map_err (λ e. refused (in_body e)) (read_body header cmd_name declared)
        tlvs ←
            map_err (λ e. refused (in_tlvs e))
              (read_optional_params declared read.offset (is_short_message read.last_param))
        ok (object_of header cmd_name read.params tlvs)
    ]

unfoldable pub parse_pdu : List ℕ → Result PduRefusedError PduObject
unfolding parse_headed
parse_pdu pdu = parse_headed (header_of pdu) pdu

pub data PduError : Type 0 where
  unframed : CheckError → PduError
  refused : PduRefusedError → PduError

unfoldable pub pdu_to_obj : List ℕ → Result PduError PduObject
unfolding parse_pdu
pdu_to_obj pdu = elim (check_framing pdu) [
  | some e ↦ err (unframed e)
  | none ↦ map_err refused (parse_pdu pdu)
]

-- The loop of `echoParams`: what the response shares with the request, unless it is given.
unfoldable pub echo_params : List Param → Params → Params → Params
echo_params [] request given = given
echo_params ((name, _) ∷ ps) request given = elim (find name given) [
  | some _ ↦ echo_params ps request given
  | none ↦ elim (find name request) [
    | none ↦ echo_params ps request given
    | some v ↦ echo_params ps request (put name v given)
  ]
]

pub data ReturnError : Type 0 where
  no_response : String → ReturnError
  unread : PduError → ReturnError
  unbuilt : BuildError → ReturnError

unfoldable pub pdu_return : PduObject → String → Params → Inputs → Result ReturnError (List ℕ)
unfolding echo_params specs
pdu_return pdu status params tlvs = elim (resp_name_for (some pdu.cmd_name)) [
  | none ↦ err (no_response pdu.cmd_name)
  | some resp_name ↦ map_err unbuilt (
      build_pdu resp_name status (whole pdu.seq_nr)
        (echo_params (table_of resp_name) pdu.params params) tlvs)
]

-- The same of the octets of a PDU.
unfoldable pub pdu_return_octets : List ℕ → String → Params → Inputs → Result ReturnError (List ℕ)
unfolding pdu_to_obj pdu_return
pdu_return_octets pdu status params tlvs = do
  obj ← map_err unread (pdu_to_obj pdu)
  pdu_return obj status params tlvs

-- The status that a refusal is answered with, by the part that could not be read.
unfoldable pub refusal_status : RefusalCause → String
refusal_status unknown_command = "ESME_RINVCMDID"
refusal_status (in_body _) = "ESME_RINVCMDLEN"
refusal_status (in_tlvs _) = "ESME_RINVTLVSTREAM"

abbrev response_or_nack : Option String → String
response_or_nack none = "generic_nack"
response_or_nack (some resp) = resp

-- `refusalAnswer`: the command and the status that answer a refused PDU.
unfoldable pub refusal_answer : PduRefusedError → String × String
unfolding resp_name_for refusal_status
refusal_answer r = (response_or_nack (resp_name_for r.header.cmd_name), refusal_status r.cause)
