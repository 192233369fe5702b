-- ===== src/Defs/Tlvs/Kinds.antt =====
-- `parseTlvs` of src/defs/tlvs.ts on any octets: it ends, and reads every tag as the table's type.
use smpp_js.Prelude.{
  ℕ, zero, suc, ◌+◌, ◌≤◌, ◌<◌, ◌≡◌, ◌≢◌, refl, sym, ap, ◌∙◌, subst, inl, inr, Bool, true, false,
  ◌&&◌, leb, Bool-cases, Option-cases, Option, none, some, List, [], ◌∷◌, ◌++◌, String, length,
  find, put, string_eq, beq_refl, arith,
}
use smpp_js.Prelude.Results.{Result, ok, err}
use smpp_js.Wire.{JsNumber, ParamValue, bytes, number, text, addresses, smes}
use smpp_js.Wire.Ints.{Width, int_read, tlv_int_read, tlv_int}
use smpp_js.Wire.Texts.{tlv_cstring_read, tlv_cstring, tlv_string_read, tlv_string, buffer_read}
use smpp_js.Retained.{
  TagKey, named, key_eq, TlvValue, octets, octets_each, count, counts, words, Tlv,
}
use smpp_js.Defs.Tlvs.{
  TlvType, int, cstring, string, buffer, wire_type, TlvDefinition, spec_of, tlvs_by_id,
}
use smpp_js.Defs.Tlvs.Codec.{
  TlvError, misread, type_or, is_multiple, Occurrence, read_tlv, one_value, list_of, Entry, key_of,
  name_of, name_in, entry_or, Repeated, gather, listed, reads_each, reads_as, is_tlv, is_tlvs,
  keyed_tlvs, parse_from, parse_tlvs,
}
use smpp_js.Defs.Tlvs.Table.{tlvs_by_id-spec_of, lists_well, can_repeat}
use smpp_js.Defs.Tlvs.Stream.{Result-cases, Ends, parse_from-Ends}
use smpp_js.Encodings.Lossless.{both}

-- A value of the kind that a type reads.
abbrev is_of : TlvType → ParamValue → Bool
is_of (int _) (number _) = true
is_of cstring (text _) = true
is_of string (text _) = true
is_of buffer (bytes _) = true
is_of _ _ = false

read_is_of :
    (type : TlvType) (buf : List ℕ) (offset : ℕ) (given : Option ℕ) (r : ℕ × ParamValue)
    → (wire_type type).read buf offset given ≡ ok r
    → is_of type r.1 ≡ true
unfolding wire_type tlv_int tlv_cstring tlv_string tlv_int_read int_read tlv_cstring_read
    tlv_string_read buffer_read
read_is_of (int w) buf offset none r h = ground arith
read_is_of (int w) buf offset (some n) r h = ground arith
read_is_of cstring buf offset given r h = ground arith
read_is_of string buf offset given r h = ground arith
read_is_of buffer buf offset given r h = ground arith

module _ {V : Type 0} (P : TagKey → V → Type 0) where
  abbrev Each : List (TagKey × V) → Type 0
  Each [] = Unit
  Each ((k, v) ∷ m) = P k v × Each m

  put-Each : (k : TagKey) (v : V) (m : List (TagKey × V)) → P k v → Each m → Each (put k v m)
  put-Each k v [] p a = (p, tt)
  put-Each k v ((j, w) ∷ m) p (q, a) = elim (Bool-cases (key_eq.beq j k)) [
    | inl same ↦ rw same (subst (λ i. P i v) (sym ((key_eq.beq_iff j k).0 same)) p, a)
    | inr other ↦ rw other (q, put-Each k v m p a)
  ]

  find-Each : (k : TagKey) (v : V) (m : List (TagKey × V)) → find k m ≡ some v → Each m → P k v
  find-Each k v [] h a = cc
  find-Each k v ((j, w) ∷ m) h (q, a) = elim (Bool-cases (key_eq.beq j k)) [
    | inl same ↦
        subst (λ i. P i v) ((key_eq.beq_iff j k).0 same)
          (subst (P j) (some_inj (sym (rw same refl) ∙ h)) q)
    | inr other ↦ find-Each k v m (sym (rw other refl) ∙ h) a
  ]
    where
      some_inj : {a b : V} → some a ≡ some b → a ≡ b
      some_inj e = cc

-- An occurrence that `readTlv` gives, an entry that is a `Tlv`, and values that can be listed.
abbrev IsRead : Occurrence → Type 0
IsRead o = (o.definition ≡ tlvs_by_id o.tag_id) × (is_of (type_or o.definition) o.value ≡ true)

abbrev IsTlv : TagKey → Entry → Type 0
IsTlv k e = (t : Tlv) × (is_tlv k e ≡ some t)

abbrev all_are : TlvType → List ParamValue → Bool
all_are type [] = true
all_are type (v ∷ vs) = is_of type v && all_are type vs

abbrev IsListed : TagKey → ℕ × List ParamValue → Type 0
IsListed k (_, vs) =
    (d : TlvDefinition) × (k ≡ named d.tag)
    × (spec_of d.tag ≡ some d)
    × (d.multiple ≡ true)
    × (can_repeat d.type ≡ true)
    × (all_are d.type vs ≡ true)

list_counts :
    (w : Width) (vs : List ParamValue)
    → all_are (int w) vs ≡ true
    → (ns : List JsNumber) × (reads_each (int w) vs ≡ some (counts ns))
list_counts w [] h = ([], refl)
list_counts w (number n ∷ vs) h = let (ns, e) = list_counts w vs h in (n ∷ ns, rw e refl)
list_counts w (bytes _ ∷ vs) h = cc
list_counts w (text _ ∷ vs) h = cc
list_counts w (addresses _ ∷ vs) h = cc
list_counts w (smes _ ∷ vs) h = cc

list_octets :
    (vs : List ParamValue)
    → all_are buffer vs ≡ true
    → (bs : List (List ℕ)) × (reads_each buffer vs ≡ some (octets_each bs))
list_octets [] h = ([], refl)
list_octets (bytes b ∷ vs) h = let (bs, e) = list_octets vs h in (b ∷ bs, rw e refl)
list_octets (number _ ∷ vs) h = cc
list_octets (text _ ∷ vs) h = cc
list_octets (addresses _ ∷ vs) h = cc
list_octets (smes _ ∷ vs) h = cc

list_read :
    (type : TlvType) (vs : List ParamValue)
    → can_repeat type ≡ true
    → all_are type vs ≡ true
    → (value : TlvValue) × (reads_each type vs ≡ some value)
list_read (int w) vs c h = let (ns, e) = list_counts w vs h in (counts ns, e)
list_read buffer vs c h = let (bs, e) = list_octets vs h in (octets_each bs, e)
list_read cstring vs c h = cc
list_read string vs c h = cc

-- One value of the kind of a type, as a result has it.
single_value :
    (d : TlvDefinition) (type : TlvType) (v : ParamValue)
    → d.type ≡ type
    → d.multiple ≡ false
    → is_of type v ≡ true
    → (value : TlvValue) × (reads_as d (one_value v) ≡ some value)
unfolding reads_as
single_value d (int w) (number n) e m h = (count n, rw (m, e) refl)
single_value d cstring (text t) e m h = (words t, rw (m, e) refl)
single_value d string (text t) e m h = (words t, rw (m, e) refl)
single_value d buffer (bytes b) e m h = (octets b, rw (m, e) refl)
single_value d (int w) (bytes _) e m h = cc
single_value d (int w) (text _) e m h = cc
single_value d (int w) (addresses _) e m h = cc
single_value d (int w) (smes _) e m h = cc
single_value d cstring (bytes _) e m h = cc
single_value d cstring (number _) e m h = cc
single_value d cstring (addresses _) e m h = cc
single_value d cstring (smes _) e m h = cc
single_value d string (bytes _) e m h = cc
single_value d string (number _) e m h = cc
single_value d string (addresses _) e m h = cc
single_value d string (smes _) e m h = cc
single_value d buffer (text _) e m h = cc
single_value d buffer (number _) e m h = cc
single_value d buffer (addresses _) e m h = cc
single_value d buffer (smes _) e m h = cc

-- The entry that one occurrence makes is a `Tlv`.
single_IsTlv :
    (o : Option TlvDefinition) (i : ℕ) (v : ParamValue)
    → ((d : TlvDefinition) → o ≡ some d → spec_of d.tag ≡ some d)
    → is_multiple o ≡ false
    → is_of (type_or o) v ≡ true
    → IsTlv (key_of o i) (record { tag_id = i; tag_name = name_of o; tag_value = one_value v })
unfolding is_tlv
single_IsTlv none i (bytes b) known m h = (_, refl)
single_IsTlv none i (number _) known m h = cc
single_IsTlv none i (text _) known m h = cc
single_IsTlv none i (addresses _) known m h = cc
single_IsTlv none i (smes _) known m h = cc
single_IsTlv (some d) i v known m h =
    let (value, e) = single_value d d.type v refl m h in
    let same : string_eq.beq d.tag d.tag ≡ true = beq_refl d.tag in
    (
      record { tag_id = i; tag_name = some d.tag; tag_value = value },
      rw same (rw (known d refl) (rw e refl)),
    )

-- And so is the list of what has been gathered of a tag.
list_IsTlv :
    (k : TagKey) (i : ℕ) (vs : List ParamValue)
    → IsListed k (i, vs)
    → IsTlv k (record { tag_id = i; tag_name = name_in k; tag_value = list_of vs })
unfolding is_tlv reads_as
list_IsTlv k i vs (d, named_so, known, m, c, h) =
    let (value, e) = list_read d.type vs c h in
    let same : string_eq.beq d.tag d.tag ≡ true = beq_refl d.tag in
    subst (λ j. IsTlv j (record { tag_id = i; tag_name = name_in j; tag_value = list_of vs }))
      (sym named_so)
      (
        record { tag_id = i; tag_name = some d.tag; tag_value = value },
        rw same (rw known (rw m (rw e refl))),
      )

known_spec :
    (o : Occurrence)
    → IsRead o
    → (d : TlvDefinition) → o.definition ≡ some d
    → (spec_of d.tag ≡ some d) × (lists_well d ≡ true)
known_spec o (e, _) d h =
    let (_, known, well) = tlvs_by_id-spec_of o.tag_id d (sym e ∙ h) in (known, well)

all_are-append :
    (type : TlvType) (vs : List ParamValue) (v : ParamValue)
    → all_are type vs ≡ true
    → is_of type v ≡ true
    → all_are type (vs ++ (v ∷ [])) ≡ true
all_are-append type [] v h k = rw k refl
all_are-append type (w ∷ vs) v h k =
    let (a, rest) = both (is_of type w) (all_are type vs) h in
    rw a (all_are-append type vs v rest k)

named_inj : {s t : String} → named s ≡ named t → s ≡ t
named_inj h = cc

found_inj : {d d' : TlvDefinition} → some d ≡ some d' → d ≡ d'
found_inj h = cc

same_definition :
    (d d' : TlvDefinition)
    → named d.tag ≡ named d'.tag
    → spec_of d.tag ≡ some d
    → spec_of d'.tag ≡ some d'
    → d ≡ d'
same_definition d d' h a b = found_inj (sym a ∙ ap spec_of (named_inj h) ∙ b)

-- What is gathered of a tag once a value more has come.
grown :
    (o : Occurrence) (found : Option (ℕ × List ParamValue))
    → IsRead o
    → is_multiple o.definition ≡ true
    → ((e : ℕ × List ParamValue) → found ≡ some e → IsListed (key_of o.definition o.tag_id) e)
    → let e = entry_or o.tag_id found in
      IsListed (key_of o.definition o.tag_id) (e.0, e.1 ++ (o.value ∷ []))
grown o found (same, kind) m had = elim (Option-cases o.definition) [
  | inl unknown ↦ cc (ap is_multiple (sym unknown) ∙ m)
  | inr (d, it) ↦
      let (known, well) = known_spec o (same, kind) d it in
      let many : d.multiple ≡ true = ap is_multiple (sym it) ∙ m in
      let can : can_repeat d.type ≡ true = sym (rw many refl) ∙ well in
      let fits : is_of d.type o.value ≡ true =
        subst (λ x. is_of (type_or x) o.value ≡ true) it kind in
      let key = ap (λ x. key_of x o.tag_id) it in
      elim (Option-cases found) [
        | inl first_one ↦ rw first_one (d, key, known, many, can, rw fits refl)
        | inr (e, old) ↦
            let (d', key', known', many', can', all) = had e old in
            let d_same : d ≡ d' = same_definition d d' (sym key ∙ key') known known' in
            rw old (
              d,
              key,
              known,
              many,
              can,
              all_are-append d.type e.1 o.value
                  (subst (λ x. all_are x.type e.1 ≡ true) (sym d_same) all) fits,
            )
      ]
]

abbrev AreRead : List Occurrence → Type 0
AreRead [] = Unit
AreRead (o ∷ os) = IsRead o × AreRead os

gather-Each :
    (os : List Occurrence) (repeated : Repeated) (tlvs : List (TagKey × Entry))
    → AreRead os
    → Each IsListed repeated
    → Each IsTlv tlvs
    → Each IsListed (gather os repeated tlvs).0 × Each IsTlv (gather os repeated tlvs).1
unfolding gather
gather-Each [] repeated tlvs rs a b = (a, b)
gather-Each (o ∷ os) repeated tlvs (r, rs) a b = elim (Bool-cases (is_multiple o.definition)) [
  | inl many ↦
      let key = key_of o.definition o.tag_id in
      let e = entry_or o.tag_id (find key repeated) in
      rw (many, gather)
        (gather-Each os (put key (e.0, e.1 ++ (o.value ∷ [])) repeated) tlvs rs
          (put-Each IsListed key (e.0, e.1 ++ (o.value ∷ [])) repeated
            (grown o (find key repeated) r many (λ x h. find-Each IsListed key x repeated h a)) a)
          b)
  | inr lone ↦
      let key = key_of o.definition o.tag_id in
      let e : Entry = record {
        tag_id = o.tag_id;
        tag_name = name_of o.definition;
        tag_value = one_value o.value;
      } in
      rw (lone, gather)
        (gather-Each os repeated (put key e tlvs) rs a (
          put-Each IsTlv key e tlvs
            (single_IsTlv o.definition o.tag_id o.value (λ d h. (known_spec o r d h).0) lone r.1)
            b))
]

listed-Each :
    (repeated : Repeated) (tlvs : List (TagKey × Entry))
    → Each IsListed repeated
    → Each IsTlv tlvs
    → Each IsTlv (listed repeated tlvs)
unfolding listed
listed-Each [] tlvs a b = b
listed-Each ((k, (i, vs)) ∷ repeated) tlvs (l, a) b =
    listed-Each repeated _ a (put-Each IsTlv k _ tlvs (list_IsTlv k i vs l) b)

is_tlvs-Each :
    (es : List (TagKey × Entry))
    → Each IsTlv es
    → (ts : List (TagKey × Tlv)) × (is_tlvs es ≡ some ts)
unfolding is_tlvs
is_tlvs-Each [] a = ([], refl)
is_tlvs-Each ((k, e) ∷ es) ((t, h), a) =
    let (ts, rest) = is_tlvs-Each es a in ((k, t) ∷ ts, rw (h, is_tlvs) (rw rest refl))

keyed_tlvs-ok :
    (os : List Occurrence) → AreRead os → (ts : List (TagKey × Tlv)) × (keyed_tlvs os ≡ ok ts)
unfolding keyed_tlvs
keyed_tlvs-ok os r =
    let (a, b) = gather-Each os [] [] r tt tt in
    let (ts, e) =
      is_tlvs-Each (listed (gather os [] []).0 (gather os [] []).1)
        (listed-Each (gather os [] []).0 (gather os [] []).1 a b) in
    (ts, rw (e, keyed_tlvs) refl)

read_tlv-IsRead :
    (pdu : List ℕ) (offset : ℕ) (read : ℕ × Occurrence)
    → read_tlv pdu offset ≡ ok read
    → IsRead read.1
unfolding read_tlv
read_tlv-IsRead pdu offset read h = grind (arith, read_is_of)

read_tlv_refused :
    (pdu : List ℕ) (offset : ℕ) (e : TlvError) → read_tlv pdu offset ≡ err e → e ≢ misread
unfolding read_tlv
read_tlv_refused pdu offset e h same = ground arith

-- What the loop of `parseTlvs` comes to.
abbrev Came : Result TlvError (List Occurrence × ℕ) → Type 0
Came (err e) = e ≢ misread
Came (ok (os, _)) = AreRead os

abbrev Round : Type 0
Round = Option (Result TlvError (List Occurrence × ℕ))

came_inj : {r s : Result TlvError (List Occurrence × ℕ)} → Path Round (some r) (some s) → r ≡ s
came_inj h = cc

data ThreeWays (r : Round) : Type 0 where
  ran_out : r ≡ none → ThreeWays r
  failed : (e : TlvError) → r ≡ some (err e) → ThreeWays r
  came : (os : List Occurrence) (last : ℕ) → r ≡ some (ok (os, last)) → ThreeWays r

three_ways : (r : Round) → ThreeWays r
three_ways none = ran_out refl
three_ways (some (err e)) = failed e refl
three_ways (some (ok (os, last))) = came os last refl

parse_from-Came :
    (fuel : ℕ) (pdu : List ℕ) (offset : ℕ) (r : Result TlvError (List Occurrence × ℕ))
    → parse_from fuel pdu offset ≡ some r
    → Came r
unfolding parse_from
parse_from-Came zero pdu offset r h = cc
parse_from-Came (suc fuel) pdu offset r h = elim (Bool-cases (leb (offset + 4) (length pdu))) [
  | inr short ↦
      let now : parse_from (suc fuel) pdu offset ≡ some (ok ([], offset)) =
        rw (short, parse_from) refl in
      subst Came (came_inj (sym now ∙ h)) tt
  | inl more ↦ elim (Result-cases (read_tlv pdu offset)) [
    | inl (e, refused) ↦
        let now : parse_from (suc fuel) pdu offset ≡ some (err e) =
          rw (more, parse_from) (rw refused refl) in
        subst Came (came_inj (sym now ∙ h)) (read_tlv_refused pdu offset e refused)
    | inr (read, found) ↦ elim (three_ways (parse_from fuel pdu (offset + read.0))) [
      | ran_out e ↦
          let now : parse_from (suc fuel) pdu offset ≡ none =
            rw (more, parse_from) (rw found (rw e refl)) in
          absurd (cc (sym now ∙ h))
      | failed f e ↦
          let now : parse_from (suc fuel) pdu offset ≡ some (err f) =
            rw (more, parse_from) (rw found (rw e refl)) in
          subst Came (came_inj (sym now ∙ h)) (parse_from-Came fuel pdu (offset + read.0) (err f) e)
      | came rest n e ↦
          let now : parse_from (suc fuel) pdu offset ≡ some (ok (read.1 ∷ rest, n)) =
            rw (more, parse_from) (rw found (rw e refl)) in
          subst Came (came_inj (sym now ∙ h)) (
            read_tlv-IsRead pdu offset read found,
            parse_from-Came fuel pdu (offset + read.0) (ok (rest, n)) e,
          )
    ]
  ]
]

-- What reading the optional parameters from an offset on comes to: a refusal that is not the one
-- that a tag did not read as its type, or the parameters with the offset where they end, which is
-- not before the first, is at most three octets before the end of the PDU, and is not past that
-- unless the first was.
abbrev pub Reads : List ℕ → ℕ → Result TlvError (ℕ × List (TagKey × Tlv)) → Type 0
Reads pdu start (err e) = e ≢ misread
Reads pdu start (ok (offset, _)) =
    (start ≤ offset) × (length pdu < offset + 4) × (start ≤ length pdu → offset ≤ length pdu)

Reads-after :
    (pdu : List ℕ) (start : ℕ) (r : Result TlvError (List Occurrence × ℕ))
    → parse_from (suc (length pdu)) pdu start ≡ some r
    → Ends pdu start r
    → Came r
    → (out : Result TlvError (ℕ × List (TagKey × Tlv))) × (parse_tlvs pdu start ≡ some out)
      × Reads pdu start out
unfolding parse_tlvs
Reads-after pdu start (err e) h ends came_so = (err e, rw (h, parse_tlvs) refl, came_so)
Reads-after pdu start (ok (os, last)) h ends came_so =
    let (ts, keyed) = keyed_tlvs-ok os came_so in
    (ok (last, ts), rw (h, parse_tlvs) (rw keyed refl), ends)

-- Reading the optional parameters of any octets from any offset on ends, and what it comes to is
-- never the error that a tag did not read as the type of the table. Where it succeeds it has moved
-- on from the start, to at most three octets before the end, and not past the end of the octets
-- where the start was not past it.
pub parse_tlvs-Reads :
    (pdu : List ℕ) (start : ℕ)
    → (out : Result TlvError (ℕ × List (TagKey × Tlv))) × (parse_tlvs pdu start ≡ some out)
      × Reads pdu start out
parse_tlvs-Reads pdu start =
    let (r, h, ends) = parse_from-Ends (suc (length pdu)) pdu start (omega arith) (omega arith) in
    Reads-after pdu start r h ends (parse_from-Came (suc (length pdu)) pdu start r h)
