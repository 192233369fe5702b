-- ===== src/Defs/Tlvs/Codec.antt =====
-- The codec of src/defs/tlvs.ts: how optional parameters are written, and read back keyed.
use smpp_js.Prelude.{
  ℕ, zero, suc, ◌+◌, Bool, true, false, not, Option, none, some, List, [], ◌∷◌, ◌++◌, String,
  string_eq, find, put, length, drop, replicate, ltb, leb, ◌==◌, if◌then◌else◌,
}
use smpp_js.Prelude.Results.{Result, ok, err, ◌>>=◌, map_err}
use smpp_js.Wire.{JsNumber, whole, ParamValue, bytes, number, text, WireError}
use smpp_js.Wire.Ints.{two, read_be, write_be}
use smpp_js.Retained.{
  TagKey, named, numeral, key_eq, TlvValue, octets, octets_each, count, counts, words, Tlv,
}
use smpp_js.Defs.Tlvs.{
  TlvType, int, cstring, string, buffer, wire_type, TlvDefinition, spec_of, alternates, tlvs_by_id,
}

pub data TlvError : Type 0 where
  -- an input that is not `{ tagValue }`, with what `tagValue` may be
  ill_shaped : TlvError
  key_it : String → TlvError
  unknown_tag_name : TlvError
  tag_id_out_of_range : TlvError
  named_by_the_table : String → TlvError
  tag_id_mismatch : ℕ → TlvError
  takes_one holds_no_values wrap_it holds_octets : TlvError
  overflows : ℕ → TlvError
  of_wire : WireError → TlvError
  runs_past_the_end : ℕ → TlvError
  misread : TlvError

-- `{ err: new Error('TLV "name": …') }`
pub data KeyedError : Type 0 where
  tlv : TagKey → TlvError → KeyedError

-- An input by what `isTlvInput` says of it, and its own `tagId` where it has one.
pub data TlvInput : Type 0 where
  misshapen : TlvInput
  tag_input : Option JsNumber → TlvValue → TlvInput

unfoldable pub keyed_tag_id : TagKey → Result TlvError ℕ
unfolding spec_of alternates tlvs_by_id
keyed_tag_id (named name) = elim (spec_of name) [
  | some d ↦ ok d.id
  | none ↦ elim (find name alternates) [
    | some alternate ↦ err (key_it alternate)
    | none ↦ err unknown_tag_name
  ]
]
keyed_tag_id (numeral tag_id) =
    if ltb 0xFFFF tag_id then err tag_id_out_of_range else elim (tlvs_by_id tag_id) [
      | some known ↦ err (named_by_the_table known.tag)
      | none ↦ ok tag_id
    ]

-- `input.tagId !== undefined && input.tagId !== keyed.tagId`
abbrev pub differs : Option JsNumber → ℕ → Bool
differs none tag_id = false
differs (some (whole n)) tag_id = not (n == tag_id)
differs (some _) tag_id = true

unfoldable pub entry_of : TagKey → TlvInput → Result TlvError (ℕ × TlvValue)
unfolding keyed_tag_id
entry_of key misshapen = err ill_shaped
entry_of key (tag_input own value) = do
  tag_id ← keyed_tag_id key
  if differs own tag_id then err (tag_id_mismatch tag_id) else ok (tag_id, value)

abbrev pub each : {A : Type 0} → (A → ParamValue) → List A → List ParamValue
each f [] = []
each f (a ∷ rest) = f a ∷ each f rest

abbrev pub values_of : TlvValue → List ParamValue
values_of (octets b) = bytes b ∷ []
values_of (count n) = number n ∷ []
values_of (words t) = text t ∷ []
values_of (octets_each bs) = each bytes bs
values_of (counts ns) = each number ns

-- `Array.isArray(value)`
abbrev pub is_array : TlvValue → Bool
is_array (octets_each _) = true
is_array (counts _) = true
is_array _ = false

unfoldable pub occurrences : TlvValue → Bool → Result TlvError (List ParamValue)
occurrences value false = if is_array value then err takes_one else ok (values_of value)
occurrences value true =
    if is_array value
    then (elim (values_of value) [ [] ↦ err holds_no_values | v ∷ vs ↦ ok (v ∷ vs) ])
    else err wrap_it

-- `type === tlvDefault && typeof value === 'number'`; `tlvDefault` is `tlv.buffer` itself.
abbrev pub is_number_for_octets : TlvType → ParamValue → Bool
is_number_for_octets buffer (number _) = true
is_number_for_octets _ _ = false

-- The header stands in front of the octets that the value is written into.
unfoldable pub write_tlv : ℕ → TlvType → ParamValue → Result TlvError (List ℕ)
unfolding wire_type write_be
write_tlv tag_id type value = if is_number_for_octets type value then err holds_octets else do
  size ← map_err of_wire ((wire_type type).size value)
  let chunk = (write_be two tag_id ++ write_be two size) ++ replicate size 0
  let written = map_err of_wire ((wire_type type).write value chunk 4)
  if ltb 0xFFFF size then err (overflows size) else written

abbrev pub type_or : Option TlvDefinition → TlvType
type_or none = buffer
type_or (some d) = d.type

abbrev pub is_multiple : Option TlvDefinition → Bool
is_multiple none = false
is_multiple (some d) = d.multiple

-- The inner loop of `writeTlvs`, and the outer one.
unfoldable pub write_values : ℕ → TlvType → List ParamValue → Result TlvError (List (List ℕ))
unfolding write_tlv
write_values tag_id type [] = ok []
write_values tag_id type (v ∷ vs) = do
  chunk ← write_tlv tag_id type v
  chunks ← write_values tag_id type vs
  ok (chunk ∷ chunks)

unfoldable pub write_input : TagKey → TlvInput → Result TlvError (List (List ℕ))
unfolding entry_of occurrences write_values
write_input key input = do
  entry ← entry_of key input
  let definition = tlvs_by_id entry.0
  values ← occurrences entry.1 (is_multiple definition)
  write_values entry.0 (type_or definition) values

-- The inputs are listed as `Object.entries` lists them: numerals first, from the lowest on, and then
-- names in their order.
unfoldable pub write_tlvs : List (TagKey × TlvInput) → Result KeyedError (List (List ℕ))
unfolding write_input
write_tlvs [] = ok []
write_tlvs ((key, input) ∷ inputs) = do
  chunks ← map_err (tlv key) (write_input key input)
  rest ← write_tlvs inputs
  ok (chunks ++ rest)

pub record Occurrence : Type 0 where
  pub definition : Option TlvDefinition
  pub tag_id : ℕ
  pub value : ParamValue

-- What is read, and how many octets it takes.
unfoldable pub read_tlv : List ℕ → ℕ → Result TlvError (ℕ × Occurrence)
unfolding wire_type read_be
read_tlv pdu offset =
    let tag_id = read_be two (drop offset pdu) in
    let tag_length = read_be two (drop (offset + 2) pdu) in
    let definition = tlvs_by_id tag_id in
    if ltb (length pdu) (offset + 4 + tag_length) then err (runs_past_the_end tag_id) else do
      read ←
          map_err of_wire ((wire_type (type_or definition)).read pdu (offset + 4) (some tag_length))
      ok (4 + tag_length, record { definition = definition; tag_id = tag_id; value = read.1 })

-- A value of the result before its type is known: one value, or the values of a tag that may repeat.
pub data Unchecked : Type 0 where
  one_value : ParamValue → Unchecked
  list_of : List ParamValue → Unchecked

pub record Entry : Type 0 where
  pub tag_id : ℕ
  pub tag_name : Option String
  pub tag_value : Unchecked

abbrev pub key_of : Option TlvDefinition → ℕ → TagKey
key_of none tag_id = numeral tag_id
key_of (some d) tag_id = named d.tag

abbrev pub name_of : Option TlvDefinition → Option String
name_of none = none
name_of (some d) = some d.tag

abbrev pub Repeated : Type 0
Repeated = List (TagKey × (ℕ × List ParamValue))

-- `repeated.get(key) ?? { tagId, values: [] }`
abbrev pub entry_or : ℕ → Option (ℕ × List ParamValue) → ℕ × List ParamValue
entry_or tag_id none = (tag_id, [])
entry_or tag_id (some e) = e

-- The first loop of `keyedTlvs`.
unfoldable pub gather :
    List Occurrence → Repeated → List (TagKey × Entry) → Repeated × List (TagKey × Entry)
gather [] repeated tlvs = (repeated, tlvs)
gather (o ∷ os) repeated tlvs =
    let key = key_of o.definition o.tag_id in
    let entry = entry_or o.tag_id (find key repeated) in
    elim (is_multiple o.definition) [
      | true ↦ gather os (put key (entry.0, entry.1 ++ (o.value ∷ [])) repeated) tlvs
      | false ↦ gather os repeated (
          put key
            (record {
              tag_id = o.tag_id;
              tag_name = name_of o.definition;
              tag_value = one_value o.value;
            })
            tlvs)
    ]

-- `tagName: key`
abbrev pub name_in : TagKey → Option String
name_in (named s) = some s
name_in (numeral _) = none

-- The second loop.
unfoldable pub listed : Repeated → List (TagKey × Entry) → List (TagKey × Entry)
listed [] tlvs = tlvs
listed ((key, (tag_id, values)) ∷ repeated) tlvs =
    listed repeated (
      put key (record { tag_id = tag_id; tag_name = name_in key; tag_value = list_of values }) tlvs)

abbrev pub tagged_each : Option TlvValue → ParamValue → Option TlvValue
tagged_each (some (octets_each bs)) (bytes b) = some (octets_each (b ∷ bs))
tagged_each (some (counts ns)) (number n) = some (counts (n ∷ ns))
tagged_each _ _ = none

-- The values of a list that are all of the kind of the type's default.
abbrev pub reads_each : TlvType → List ParamValue → Option TlvValue
reads_each buffer [] = some (octets_each [])
reads_each (int _) [] = some (counts [])
reads_each _ [] = none
reads_each type (v ∷ vs) = tagged_each (reads_each type vs) v

-- `readsAs`: the value as one of the table's type, or `none` where it does not fit.
unfoldable pub reads_as : TlvDefinition → Unchecked → Option TlvValue
reads_as d (list_of vs) = if d.multiple then reads_each d.type vs else none
reads_as d (one_value v) = if d.multiple then none else elim v [
  | bytes b ↦ elim d.type [ buffer ↦ some (octets b) | _ ↦ none ]
  | number n ↦ elim d.type [ int _ ↦ some (count n) | _ ↦ none ]
  | text t ↦ elim d.type [ cstring ↦ some (words t) | string ↦ some (words t) | _ ↦ none ]
  | _ ↦ none
]

abbrev pub with_value : ℕ → Option String → Option TlvValue → Option Tlv
with_value tag_id tag_name none = none
with_value tag_id tag_name (some v) =
    some (record { tag_id = tag_id; tag_name = tag_name; tag_value = v })

-- `isTlv` of an entry, which is a `Tlv` where it holds.
unfoldable pub is_tlv : TagKey → Entry → Option Tlv
unfolding reads_as spec_of
is_tlv (numeral _) e = elim e.tag_name [
  | some _ ↦ none
  | none ↦ elim e.tag_value [
    | one_value v ↦ elim v [ bytes b ↦ with_value e.tag_id none (some (octets b)) | _ ↦ none ]
    | _ ↦ none
  ]
]
is_tlv (named key) e = elim e.tag_name [
  | none ↦ none
  | some tag_name ↦
      if string_eq.beq tag_name key
      then (elim (spec_of key) [
        | none ↦ none
        | some d ↦ with_value e.tag_id (some tag_name) (reads_as d e.tag_value)
      ])
      else none
]

unfoldable pub is_tlvs : List (TagKey × Entry) → Option (List (TagKey × Tlv))
unfolding is_tlv
is_tlvs [] = some []
is_tlvs ((key, e) ∷ es) = elim (is_tlv key e) [
  | none ↦ none
  | some t ↦ elim (is_tlvs es) [ none ↦ none | some ts ↦ some ((key, t) ∷ ts) ]
]

-- The record is listed in the order in which its keys are put; what is read of it is found by key.
unfoldable pub keyed_tlvs : List Occurrence → Result TlvError (List (TagKey × Tlv))
unfolding gather listed is_tlvs
keyed_tlvs os =
    let found = gather os [] [] in
    elim (is_tlvs (listed found.0 found.1)) [ some tlvs ↦ ok tlvs | none ↦ err misread ]

-- The loop of `parseTlvs`, with the offset that it ends at; the outer `none` is a run out of fuel.
unfoldable pub parse_from : ℕ → List ℕ → ℕ → Option (Result TlvError (List Occurrence × ℕ))
unfolding read_tlv
parse_from zero pdu offset = none
parse_from (suc fuel) pdu offset = elim (leb (offset + 4) (length pdu)) [
  | false ↦ some (ok ([], offset))
  | true ↦ elim (read_tlv pdu offset) [
    | err e ↦ some (err e)
    | ok read ↦ elim (parse_from fuel pdu (offset + read.0)) [
      | none ↦ none
      | some (err e) ↦ some (err e)
      | some (ok rest) ↦ some (ok (read.1 ∷ rest.0, rest.1))
    ]
  ]
]

-- Each round moves on by four octets at least, so the length of the PDU is fuel enough.
unfoldable pub parse_tlvs : List ℕ → ℕ → Option (Result TlvError (ℕ × List (TagKey × Tlv)))
unfolding parse_from keyed_tlvs
parse_tlvs pdu start = elim (parse_from (suc (length pdu)) pdu start) [
  | none ↦ none
  | some (err e) ↦ some (err e)
  | some (ok (os, offset)) ↦ some (do tlvs ← keyed_tlvs os; ok (offset, tlvs))
]
