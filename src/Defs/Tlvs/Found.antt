-- ===== src/Defs/Tlvs/Found.antt =====
-- What `parseTlvs` of src/defs/tlvs.ts has under each key, once `writeTlvs` has written it.
use smpp_js.Prelude.{
  ℕ, ◌≡◌, refl, sym, subst, inl, inr, false, Bool-cases, Option, none, some, List, [], ◌∷◌, ◌++◌,
  flatten, length, find, Distinct, if◌then◌else◌, arith,
}
use smpp_js.Prelude.Results.{ok}
use smpp_js.Wire.{JsNumber}
use smpp_js.Retained.{TagKey, key_eq, TlvValue, Tlv}
use smpp_js.Defs.Tlvs.Codec.{TlvInput, tag_input, keyed_tag_id, write_tlvs, Occurrence, parse_tlvs}
use smpp_js.Defs.Tlvs.Sent.{as_value, Sent, nothing, one, several, tlv_of}
use smpp_js.Defs.Tlvs.RoundTrip.{tlvs_round_trip}

-- What is read under a key: the value of the input of that key, as the tag that the key stands for,
-- and nothing where there is no such input.
abbrev pub IsBack : TagKey → Option TlvInput → Option Tlv → Type 0
IsBack key none found = found ≡ none
IsBack key (some input) found =
    (own : Option JsNumber) × (value : TlvValue) × (tag_id : ℕ) × (input ≡ tag_input own value)
    × (keyed_tag_id key ≡ ok tag_id)
    × (found ≡ some (tlv_of tag_id value))

find_middle :
    (key k : TagKey) (t : Tlv) (ones lists : List (TagKey × Tlv))
    → find k ones ≡ none
    → find key (ones ++ ((k, t) ∷ lists))
      ≡ (if key_eq.beq k key then some t else find key (ones ++ lists))
find_middle key k t [] lists h = refl
find_middle key k t ((j, u) ∷ ones) lists h = ground (
  arith,
  key_eq.beq_iff k key,
  key_eq.beq_iff j key,
  key_eq.beq_iff j k,
  find_middle key k t ones lists,
)

absent_cons :
    {V : Type 0} (key k : TagKey) (x : V) (m : List (TagKey × V))
    → find key ((k, x) ∷ m) ≡ none
    → (key_eq.beq k key ≡ false) × (find key m ≡ none)
absent_cons key k x m h = ground arith

-- A key that is not sent is none of those of one value.
ones_absent :
    {inputs : List (TagKey × TlvInput)} {os : List Occurrence} {chunks : List (List ℕ)}
    {ones lists : List (TagKey × Tlv)} (key : TagKey)
    → Sent inputs os chunks ones lists
    → find key inputs ≡ none
    → find key ones ≡ none
ones_absent key nothing h = refl
ones_absent key (one {key = k} {own = own} {v = v} {inputs = rest} _ _ _ _ s) h =
    let (other, absent) = absent_cons key k (tag_input own (as_value v)) rest h in
    rw other (ones_absent key s absent)
ones_absent key (several {key = k} {own = own} {value = v} {inputs = rest} _ _ _ _ _ _ s) h =
    ones_absent key s (absent_cons key k (tag_input own v) rest h).1

IsBack-Sent :
    {inputs : List (TagKey × TlvInput)} {os : List Occurrence} {chunks : List (List ℕ)}
    {ones lists : List (TagKey × Tlv)} (key : TagKey)
    → Sent inputs os chunks ones lists
    → Distinct inputs
    → IsBack key (find key inputs) (find key (ones ++ lists))
IsBack-Sent key nothing d = refl
IsBack-Sent key (one {key = k} {tag_id = tag_id} tag _ _ _ s) (n, d) =
    elim (Bool-cases (key_eq.beq k key)) [
      | inl same ↦ rw same (
        _,
        _,
        _,
        refl,
        subst (λ j. keyed_tag_id j ≡ ok tag_id) ((key_eq.beq_iff k key).0 same) tag,
        refl,
      )
      | inr other ↦ rw other (IsBack-Sent key s d)
    ]
IsBack-Sent key
      (several {key = k} {tag_id = tag_id} {value = v} {ones = ones} {lists = lists} tag _ _ _ _ _
        s)
      (n, d) =
    subst (IsBack key _) (sym (find_middle key k _ ones lists (ones_absent k s n)))
      (elim (Bool-cases (key_eq.beq k key)) [
        | inl same ↦ rw same (
          _,
          _,
          _,
          refl,
          subst (λ j. keyed_tag_id j ≡ ok tag_id) ((key_eq.beq_iff k key).0 same) tag,
          refl,
        )
        | inr other ↦ rw other (IsBack-Sent key s d)
      ])

-- Inputs with different keys, each of them the name that the table gives the tag or the number of a
-- tag without one, and each with values that the tag's type carries, are written. Read at the end of
-- any PDU, up to its end, they come back: under the key of each input there is its tag with the same
-- value or list of values, and under other keys there is nothing.
pub tlvs_read-IsBack :
    (inputs : List (TagKey × TlvInput)) (os : List Occurrence) (chunks : List (List ℕ))
    (ones lists : List (TagKey × Tlv)) (pre : List ℕ)
    → Sent inputs os chunks ones lists
    → Distinct inputs
    → (write_tlvs inputs ≡ ok chunks)
      × ((tlvs : List (TagKey × Tlv)) × (parse_tlvs (pre ++ flatten chunks) (length pre)
            ≡ some (ok (length (pre ++ flatten chunks), tlvs)))
          × ((key : TagKey) → IsBack key (find key inputs) (find key tlvs)))
tlvs_read-IsBack inputs os chunks ones lists pre s d =
    let (written, read) = tlvs_round_trip inputs os chunks ones lists pre s d in
    (written, (ones ++ lists, read, λ key. IsBack-Sent key s d))
