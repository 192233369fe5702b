-- ===== src/Retained.antt =====
-- src/retained-pdu.ts and src/message-body.ts, with the parsed PDU of src/pdu.ts: what is kept of a
-- PDU that outlives its chunk.
use smpp_js.Prelude.{
  ℕ, ◌+◌, ◌*◌, ◌≡◌, ◌↔◌, Bool, true, false, Eq, ◌==◌, arith, Option, none, some, List, [], ◌∷◌, map,
  String, string_eq, find, length,
}
use smpp_js.Prelude.Digits.{decimal}
use smpp_js.Wire.{
  JsNumber, whole, other_integer, fraction, non_finite, ParamValue, bytes, number, text,
}
use smpp_js.Pdu.{Params}

-- A key of the optional parameters: a canonical decimal numeral by its number, any other by its name.
pub data TagKey : Type 0 where
  named : String → TagKey
  numeral : ℕ → TagKey

abbrev pub key_beq : TagKey → TagKey → Bool
key_beq (named s) (named t) = string_eq.beq s t
key_beq (numeral m) (numeral n) = m == n
key_beq _ _ = false

pub key_beq_iff : (a b : TagKey) → (key_beq a b ≡ true) ↔ (a ≡ b)
key_beq_iff (named s) (named t) = ground (arith, string_eq.beq_iff s t)
key_beq_iff (named s) (numeral n) = ground arith
key_beq_iff (numeral m) (named t) = ground arith
key_beq_iff (numeral m) (numeral n) = ground arith

instance abbrev pub key_eq : Eq TagKey
key_eq = record { beq = key_beq; beq_iff = key_beq_iff }

-- A Buffer, several, a number, several, or a string.
pub data TlvValue : Type 0 where
  octets : List ℕ → TlvValue
  octets_each : List (List ℕ) → TlvValue
  count : JsNumber → TlvValue
  counts : List JsNumber → TlvValue
  words : List ℕ → TlvValue

pub record Tlv : Type 0 where
  pub tag_id : ℕ
  pub tag_name : Option String
  pub tag_value : TlvValue

pub record PduObject : Type 0 where
  pub cmd_id : ℕ
  pub cmd_length : ℕ
  pub cmd_name : String
  pub cmd_status : Option String
  pub cmd_status_id : ℕ
  pub params : Params
  pub seq_nr : ℕ
  pub short_message_octets : Option (List ℕ)
  pub tlvs : List (TagKey × Tlv)

abbrev pub sum : List ℕ → ℕ
sum [] = 0
sum (n ∷ ns) = n + sum ns

unfoldable pub tlv_octets : TlvValue → ℕ
tlv_octets (octets b) = length b
tlv_octets (words t) = length t
tlv_octets (count _) = 0
tlv_octets (octets_each bs) = sum (map length bs)
tlv_octets (counts _) = 0

-- `String(value)`
abbrev spelling_of : JsNumber → List ℕ
spelling_of (whole n) = decimal n
spelling_of (other_integer t) = t
spelling_of (fraction t) = t
spelling_of (non_finite t) = t

unfoldable pub param_text : Option ParamValue → List ℕ
param_text (some (text t)) = t
param_text (some (number n)) = spelling_of n
param_text (some (bytes b)) = b
param_text _ = []

-- A value copied is the same value; `short_message` and its octets come to share one copy.
unfoldable pub detach : PduObject → PduObject
detach pdu = elim (find "short_message" pdu.params) [
  | some (bytes b) ↦ record pdu { short_message_octets = some b }
  | _ ↦ pdu
]

unfoldable pub size_of : ParamValue → ℕ
size_of (bytes b) = length b
size_of (text t) = length t
size_of _ = 0

-- How many values a TLV lists.
abbrev pub listed : TlvValue → ℕ
listed (octets_each bs) = length bs
listed (counts ns) = length ns
listed _ = 0

unfoldable pub retained_octets : PduObject → ℕ
unfolding size_of tlv_octets
retained_octets pdu =
    1000
    + sum (map (λ p. size_of p.1) pdu.params)
    + sum (map (λ t. tlv_octets t.1.tag_value + (1 + listed t.1.tag_value) * 300) pdu.tlvs)

-- A TLV whose value is a Buffer, or else the octets of the mandatory field.
abbrev pub payload_or : Option Tlv → Option (List ℕ) → Option (List ℕ)
payload_or none short = short
payload_or (some tlv) short = elim tlv.tag_value [ octets b ↦ some b | _ ↦ short ]

unfoldable pub message_octets : PduObject → Option (List ℕ)
message_octets pdu = elim pdu.short_message_octets [
  | some (x ∷ xs) ↦ some (x ∷ xs)
  | _ ↦ payload_or (find (named "message_payload") pdu.tlvs) pdu.short_message_octets
]
