-- ===== src/Pdu/Build.antt =====
-- Writing a PDU, as src/pdu.ts does: the body that its data_coding describes, then the header. A
-- property that is `undefined` is one that the object does not have.
use smpp_js.Prelude.{
  ℕ, Bool, true, false, not, ◌&&◌, Option, none, some, List, [], ◌++◌, String, string_eq, flatten,
  find, put, length, ltb, leb, ◌==◌, if◌then◌else◌,
}
use smpp_js.Prelude.Results.{Result, ok, err, ◌>>=◌, map_err}
use smpp_js.Wire.{JsNumber, whole, ParamValue, bytes, number, text}
use smpp_js.Defs.Commands.{CommandSpec, specs}
use smpp_js.Defs.Errors.{errors}
use smpp_js.Retained.{TagKey, named, key_eq, octets, words}
use smpp_js.Defs.Tlvs.Codec.{TlvInput, tag_input, KeyedError, write_tlvs}
use smpp_js.Message.{BodyError, encode_body}
use smpp_js.Pdu.{max_wire_seq_nr, resp_bit, Params, ParamError, write_params, with_header}

pub data BuildError : Type 0 where
  invalid_cmd_name invalid_cmd_status : String → BuildError
  invalid_seq_nr : JsNumber → BuildError
  in_short_message in_message_payload : BodyError → BuildError
  of_param : ParamError → BuildError
  of_tlv : KeyedError → BuildError
  -- a data_coding that is a number but no whole one from 0, which the source reads by its low bits
  odd_data_coding : JsNumber → BuildError

pub data CodingSource : Type 0 where
  message_payload short_message : CodingSource

abbrev pub Inputs : Type 0
Inputs = List (TagKey × TlvInput)

-- `typeof params.data_coding === 'number' ? params.data_coding : undefined`
abbrev coding_in : Option ParamValue → Result BuildError (Option ℕ)
coding_in (some (number (whole n))) = ok (some n)
coding_in (some (number n)) = err (odd_data_coding n)
coding_in _ = ok none

unfoldable pub coding_of : Params → Result BuildError (Option ℕ)
coding_of params = coding_in (find "data_coding" params)

abbrev has : {A : Type 0} → Option A → Bool
has none = false
has (some _) = true

-- The short_message that the command's own table writes.
abbrev pub own_message : Params → CommandSpec → Option ParamValue
own_message params definition =
    if has (find "short_message" definition.params) then find "short_message" params else none

abbrev pub with_length : Params → ℕ → Params
with_length params n =
    if has (find "sm_length" params) then params else put "sm_length" (number (whole n)) params

unfoldable pub resolve_short_message :
    Params → CommandSpec → Result BuildError (Params × CodingSource)
unfolding coding_of
resolve_short_message params definition = elim (own_message params definition) [
  | some (bytes b) ↦
      ok
        (with_length params (length b), if ltb 0 (length b) then short_message else message_payload)
  | some (text t) ↦ do
    coding ← coding_of params
    encoded ← map_err in_short_message (encode_body t coding)
    let written =
        put "sm_length" (number (whole (length encoded.0)))
          (put "short_message" (bytes encoded.0) params)
    let coded = put "data_coding" (number (whole encoded.1)) written
    if length encoded.0 == 0 then ok (written, message_payload) else ok (coded, short_message)
  | _ ↦ ok (params, message_payload)
]

-- `tlvs?.message_payload?.tagValue`, where it is a text.
abbrev pub payload_text : Option TlvInput → Option (List ℕ)
payload_text (some (tag_input _ (words t))) = some t
payload_text _ = none

abbrev pub with_coding : CodingSource → ℕ → Params → Params
with_coding message_payload data_coding params =
    put "data_coding" (number (whole data_coding)) params
with_coding short_message data_coding params = params

unfoldable pub resolve_body : Params → Inputs → CommandSpec → Result BuildError (Params × Inputs)
unfolding resolve_short_message
resolve_body params tlvs definition = do
  resolved ← resolve_short_message params definition
  elim (payload_text (find (named "message_payload") tlvs)) [
    | none ↦ ok (resolved.0, tlvs)
    | some t ↦ do
      coding ← coding_of resolved.0
      encoded ← map_err in_message_payload (encode_body t coding)
      ok (
        with_coding resolved.1 encoded.1 resolved.0,
        put (named "message_payload") (tag_input none (octets encoded.0)) tlvs,
      )
  ]

-- The body, by the number of the status.
unfoldable pub build_body : CommandSpec → ℕ → Params → Inputs → Result BuildError (List ℕ)
unfolding resolve_body
build_body definition status params tlvs =
    let full = do
      body ← resolve_body params tlvs definition
      chunks ← map_err of_param (write_params definition.params body.0)
      optional ← map_err of_tlv (write_tlvs body.1)
      ok (flatten (chunks ++ optional))
    in if not (status == 0) && leb resp_bit definition.id then ok [] else full

-- `Number.isInteger(seqNr)` within the field.
abbrev pub seq_of : JsNumber → Option ℕ
seq_of (whole n) = if ltb max_wire_seq_nr n then none else some n
seq_of _ = none

unfoldable pub build_pdu : String → String → JsNumber → Params → Inputs → Result BuildError (List ℕ)
unfolding specs build_body with_header
build_pdu cmd_name cmd_status seq_nr params tlvs = elim (find cmd_name specs) [
  | none ↦ err (invalid_cmd_name cmd_name)
  | some definition ↦ elim (find cmd_status errors) [
    | none ↦ err (invalid_cmd_status cmd_status)
    | some status ↦ elim (seq_of seq_nr) [
      | none ↦ err (invalid_seq_nr seq_nr)
      | some seq ↦ do
        body ← build_body definition status params tlvs
        ok (with_header definition.id status seq body)
    ]
  ]
]

pub record PduObjectInput : Type 0 where
  pub cmd_name : String
  pub cmd_status : Option String
  pub params : Params
  pub seq_nr : Option JsNumber
  pub tlvs : Inputs

abbrev status_or : Option String → String
status_or none = "ESME_ROK"
status_or (some s) = s

abbrev seq_or : Option JsNumber → JsNumber
seq_or none = whole 1
seq_or (some n) = n

unfoldable pub obj_to_pdu : PduObjectInput → Result BuildError (List ℕ)
unfolding build_pdu
obj_to_pdu obj =
    build_pdu obj.cmd_name (status_or obj.cmd_status) (seq_or obj.seq_nr) obj.params obj.tlvs
