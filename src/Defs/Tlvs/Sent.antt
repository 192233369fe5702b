-- ===== src/Defs/Tlvs/Sent.antt =====
-- The inputs of `writeTlvs` in src/defs/tlvs.ts that the table carries, and what they write.
use smpp_js.Prelude.{
  ℕ, ◌≤◌, ◌≡◌, refl, sym, ap, ◌∙◌, subst, inl, inr, true, false, Bool-cases, Option-cases, Option,
  List, [], ◌∷◌, ◌++◌, find, string_eq, ltb, ltb→le,
}
use smpp_js.Prelude.Results.{Result, ok}
use smpp_js.Wire.{JsNumber, ParamValue, bytes, number, text}
use smpp_js.Retained.{TagKey, named, numeral, key_eq, TlvValue, octets, count, words, Tlv}
use smpp_js.Defs.Tlvs.{spec_of, alternates, tlvs_by_id}
use smpp_js.Defs.Tlvs.Codec.{
  TlvError, TlvInput, tag_input, keyed_tag_id, differs, values_of, is_array, type_or, is_multiple,
  Occurrence, key_of, name_of,
}
use smpp_js.Defs.Tlvs.Table.{spec_of-tlvs_by_id}
use smpp_js.Defs.Tlvs.Values.{Carries}
use smpp_js.Defs.Tlvs.Stream.{All, spelled, spelled_each, occurrence}
use smpp_js.Defs.Tlvs.Keyed.{occurrences_of}

-- One value of the wire as an input gives it and a result has it.
abbrev pub as_value : ParamValue → TlvValue
as_value (bytes b) = octets b
as_value (number n) = count n
as_value (text t) = words t
as_value _ = words []

abbrev pub tlv_of : ℕ → TlvValue → Tlv
tlv_of tag_id value = record {
  tag_id = tag_id;
  tag_name = name_of (tlvs_by_id tag_id);
  tag_value = value;
}

-- `Sent inputs os chunks ones lists`: each input names a tag by the key of the table, and carries one
-- value of the tag's type or, where the tag may repeat, some; they are read as `os`, the octets are
-- `chunks`, and the results are `ones` for the tags of one value and `lists` for the others.
pub data Sent
    : List (TagKey × TlvInput)
      → List Occurrence
      → List (List ℕ)
      → List (TagKey × Tlv)
      → List (TagKey × Tlv)
      → Type 0 where
  nothing : Sent [] [] [] [] []
  one :
      {key : TagKey} {own : Option JsNumber} {tag_id : ℕ} {v : ParamValue} {chunk : List ℕ}
      {inputs : List (TagKey × TlvInput)} {os : List Occurrence} {chunks : List (List ℕ)}
      {ones lists : List (TagKey × Tlv)}
      → keyed_tag_id key ≡ ok tag_id
      → differs own tag_id ≡ false
      → is_multiple (tlvs_by_id tag_id) ≡ false
      → Carries (type_or (tlvs_by_id tag_id)) v chunk
      → Sent inputs os chunks ones lists
      → Sent
          ((key, tag_input own (as_value v)) ∷ inputs)
          (occurrence tag_id v ∷ os)
          (spelled tag_id chunk ∷ chunks)
          ((key, tlv_of tag_id (as_value v)) ∷ ones)
          lists
  several :
      {key : TagKey} {own : Option JsNumber} {tag_id : ℕ} {value : TlvValue} {v : ParamValue}
      {vs : List ParamValue} {spelt : List (List ℕ)} {inputs : List (TagKey × TlvInput)}
      {os : List Occurrence} {chunks : List (List ℕ)} {ones lists : List (TagKey × Tlv)}
      → keyed_tag_id key ≡ ok tag_id
      → differs own tag_id ≡ false
      → is_multiple (tlvs_by_id tag_id) ≡ true
      → is_array value ≡ true
      → values_of value ≡ v ∷ vs
      → All (type_or (tlvs_by_id tag_id)) (v ∷ vs) spelt
      → Sent inputs os chunks ones lists
      → Sent
          ((key, tag_input own value) ∷ inputs)
          (occurrences_of tag_id (v ∷ vs) ++ os)
          (spelled_each tag_id spelt ++ chunks)
          ones
          ((key, tlv_of tag_id value) ∷ lists)

ok_inj : {m n : ℕ} → Path (Result TlvError ℕ) (ok m) (ok n) → m ≡ n
ok_inj h = cc

-- A key that is taken stands for a tag of two octets, and is the key that the tag is read back under.
pub key-keyed_tag_id :
    (key : TagKey) (tag_id : ℕ)
    → keyed_tag_id key ≡ ok tag_id
    → (tag_id ≤ 0xFFFF) × (key_of (tlvs_by_id tag_id) tag_id ≡ key)
unfolding keyed_tag_id
key-keyed_tag_id (named name) tag_id h = elim (Option-cases (spec_of name)) [
  | inl unknown ↦ absurd (elim (Option-cases (find name alternates)) [
    | inl no_other ↦ cc (unknown, no_other, h)
    | inr (other, found) ↦ cc (unknown, found, h)
  ])
  | inr (d, found) ↦
      let (t, back, small) = spec_of-tlvs_by_id name d found in
      let same = ok_inj (sym (rw (found, keyed_tag_id) refl) ∙ h) in
      subst (λ i. (i ≤ 0xFFFF) × (key_of (tlvs_by_id i) i ≡ named name)) same
        (small, rw back (ap named t))
]
key-keyed_tag_id (numeral n) tag_id h = elim (Bool-cases (ltb 0xFFFF n)) [
  | inl large ↦ cc (large, h)
  | inr small ↦ elim (Option-cases (tlvs_by_id n)) [
    | inr (d, found) ↦ cc (small, found, h)
    | inl free ↦
        subst (λ i. (i ≤ 0xFFFF) × (key_of (tlvs_by_id i) i ≡ numeral n))
          (ok_inj (sym (rw (small, free, keyed_tag_id) refl) ∙ h))
          (ltb→le 0xFFFF n small, rw free refl)
  ]
]
