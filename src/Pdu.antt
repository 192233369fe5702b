-- ===== src/Pdu.antt =====
-- src/pdu.ts: the header of a PDU and its mandatory parameters.
pub mod Params
pub mod Header
pub mod Build
pub mod Parse
pub mod Responses
pub mod Whole
pub mod Faults
mod Tests
mod WholeTests
use smpp_js.Prelude.{
  ℕ, zero, suc, ◌+◌, ◌-◌, Bool, true, false, ◌||◌, Option, none, some, List, [], ◌∷◌, ◌++◌, String,
  string_eq, find, put, length, take, drop, replicate, ltb, if◌then◌else◌, map,
}
use smpp_js.Prelude.Results.{Result, ok, err, ◌>>=◌, map_err}
use smpp_js.Wire.{JsNumber, whole, ParamValue, number, WireError, WireType}
use smpp_js.Wire.Ints.{four, read_be, write_be}
use smpp_js.Defs.Commands.{Param, command_name_by_id}
use smpp_js.Framer.{FramingError, framing_refusal, read_uint32_be}

abbrev pub max_seq_nr : ℕ
max_seq_nr = 2147483646

abbrev pub max_wire_seq_nr : ℕ
max_wire_seq_nr = 0xFFFF_FFFF

abbrev pub resp_bit : ℕ
resp_bit = 0x8000_0000

-- The parameters of a PDU by name.
abbrev pub Params : Type 0
Params = List (String × ParamValue)

-- An error of reading or writing a parameter, with the parameter's name.
pub data ParamError : Type 0 where
  parameter : String → WireError → ParamError

-- `resolved[name] ?? type.default`
unfoldable pub value_for : Params → Param → ParamValue
value_for resolved (name, type) = elim (find name resolved) [ none ↦ type.default | some v ↦ v ]

-- The loop body of `writeParams`: a chunk of the size asked for, and the value written into it.
unfoldable pub write_param : Params → Param → Result ParamError (List ℕ)
unfolding value_for
write_param resolved (name, type) = do
  let value = value_for resolved (name, type)
  size ← map_err (parameter name) (type.size value)
  map_err (parameter name) (type.write value (replicate size 0) 0)

unfoldable pub write_params : List Param → Params → Result ParamError (List (List ℕ))
unfolding write_param
write_params [] resolved = ok []
write_params (p ∷ ps) resolved = do
  chunk ← write_param resolved p
  chunks ← write_params ps resolved
  ok (chunk ∷ chunks)

-- `paramNumber(params.sm_length, 0)`; what was read from the wire is a whole number.
abbrev length_in : Option ParamValue → ℕ
length_in (some (number (whole n))) = n
length_in _ = 0

unfoldable pub sm_length : Params → ℕ
sm_length params = length_in (find "sm_length" params)

pub record ReadParams : Type 0 where
  pub last_param : Option String
  pub offset : ℕ
  pub params : Params

-- The loop of `readParams`.
unfoldable pub read_params : List Param → List ℕ → ReadParams → Result ParamError ReadParams
unfolding sm_length
read_params [] pdu r = ok r
read_params ((name, type) ∷ ps) pdu r = do
  read ← map_err (parameter name) (type.read pdu r.offset (some (sm_length r.params)))
  read_params ps pdu (record {
    last_param = some name;
    offset = r.offset + read.0;
    params = put name read.1 r.params;
  })

pub record PduHeader : Type 0 where
  pub cmd_id : ℕ
  pub cmd_length : ℕ
  pub cmd_name : Option String
  pub cmd_status_id : ℕ
  pub seq_nr : ℕ

-- `readUInt32BE` at an offset of a buffer that holds a header.
read_uint32_at : List ℕ → ℕ → ℕ
unfolding read_be
read_uint32_at pdu offset = read_be four (drop offset pdu)

unfoldable pub header_of : List ℕ → PduHeader
unfolding read_uint32_at
header_of pdu =
    let cmd_id = read_uint32_at pdu 4 in
    record {
      cmd_id = cmd_id;
      cmd_length = read_uint32_at pdu 0;
      cmd_name = command_name_by_id cmd_id;
      cmd_status_id = read_uint32_at pdu 8;
      seq_nr = read_uint32_at pdu 12;
    }

-- The end of `buildPdu`: the header in front of a body.
unfoldable pub with_header : ℕ → ℕ → ℕ → List ℕ → List ℕ
unfolding write_be
with_header id status seq_nr body =
    (write_be four (length body + 16)
      ++ (write_be four id ++ (write_be four status ++ write_be four seq_nr)))
    ++ body

pub data CheckError : Type 0 where
  too_short : ℕ → CheckError
  unframable : FramingError → CheckError
  exceeds : ℕ → ℕ → CheckError

unfoldable pub check_framing : List ℕ → Option CheckError
unfolding read_uint32_at
check_framing pdu =
    let cmd_length = read_uint32_at pdu 0 in
    if ltb (length pdu) 16
    then some (too_short (length pdu))
    else elim (framing_refusal cmd_length) [
      | some e ↦ some (unframable e)
      | none ↦ if ltb (length pdu) cmd_length then some (exceeds cmd_length (length pdu)) else none
    ]
