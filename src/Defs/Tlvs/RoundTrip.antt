-- ===== src/Defs/Tlvs/RoundTrip.antt =====
-- What `writeTlvs` of src/defs/tlvs.ts writes, `parseTlvs` reads back.
use smpp_js.Prelude.{
  ℕ, suc, String, ◌≤◌, ◌≡◌, refl, sym, ap, ◌∙◌, true, false, Option, none, some, List, [], ◌∷◌,
  ◌++◌, append_assoc, append-nil, flatten, length, length-append, find, Distinct, string_eq,
  beq_refl, arith,
}
use smpp_js.Prelude.Results.{ok}
use smpp_js.Wire.{JsNumber, ParamValue, bytes, number, text}
use smpp_js.Retained.{
  TagKey, named, key_eq, TlvValue, octets, octets_each, count, counts, words, Tlv,
}
use smpp_js.Wire.Ints.{Width}
use smpp_js.Defs.Tlvs.{TlvType, int, cstring, string, buffer, TlvDefinition, spec_of, tlvs_by_id}
use smpp_js.Defs.Tlvs.Codec.{
  TlvInput, entry_of, each, values_of, is_array, occurrences, type_or, is_multiple, write_values,
  write_input, write_tlvs, Occurrence, Unchecked, one_value, list_of, Entry, key_of, name_of,
  name_in, Repeated, gather, listed, reads_each, reads_as, is_tlv, is_tlvs, keyed_tlvs, parse_from,
  parse_tlvs,
}
use smpp_js.Defs.Tlvs.Table.{tlvs_by_id-spec_of}
use smpp_js.Defs.Tlvs.Values.{Carries, integer, terminated, plain, raw}
use smpp_js.Defs.Tlvs.Stream.{
  All, done, then_value, spelled, spelled_each, write_tlv-Carries, write_values-All, Written, ended,
  next, length-spelled, parse_from-Written,
}
use smpp_js.Defs.Tlvs.Keyed.{put_absent, find_other, occurrences_of, gather_several, gather_one}
use smpp_js.Defs.Tlvs.Sent.{as_value, Sent, nothing, one, several, key-keyed_tag_id}

-- An input that is carried is taken as its values.
taken_one :
    {type : TlvType} {v : ParamValue} {chunk : List ℕ}
    → Carries type v chunk
    → occurrences (as_value v) false ≡ ok (v ∷ [])
unfolding occurrences
taken_one (integer h) = refl
taken_one (terminated l z h) = refl
taken_one (plain l h) = refl
taken_one (raw h) = refl

taken_several :
    (value : TlvValue) (v : ParamValue) (vs : List ParamValue)
    → is_array value ≡ true
    → values_of value ≡ v ∷ vs
    → occurrences value true ≡ ok (v ∷ vs)
unfolding occurrences
taken_several value v vs a h = rw (a, occurrences) (rw h refl)

pub write_tlvs-Sent :
    {inputs : List (TagKey × TlvInput)} {os : List Occurrence} {chunks : List (List ℕ)}
    {ones lists : List (TagKey × Tlv)}
    → Sent inputs os chunks ones lists
    → write_tlvs inputs ≡ ok chunks
unfolding write_tlvs write_input entry_of write_values
write_tlvs-Sent nothing = refl
write_tlvs-Sent (one {tag_id} k d m c s) =
    rw k (
      rw d
        (rw m (rw (taken_one c) (rw (write_tlv-Carries tag_id c) (rw (write_tlvs-Sent s) refl)))))
write_tlvs-Sent (several {tag_id} {value} {v} {vs} k d m a h all s) = rw k (
    rw d (
      rw m (
        rw (taken_several value v vs a h)
          (rw (write_values-All tag_id all) (rw (write_tlvs-Sent s) refl)))))

Written-append :
    (tag_id : ℕ) {vs : List ParamValue} {spelt : List (List ℕ)} {os : List Occurrence}
    {chunks : List (List ℕ)}
    → tag_id ≤ 0xFFFF
    → All (type_or (tlvs_by_id tag_id)) vs spelt
    → Written os chunks
    → Written (occurrences_of tag_id vs ++ os) (spelled_each tag_id spelt ++ chunks)
Written-append tag_id small done w = w
Written-append tag_id small (then_value c all) w = next small c (Written-append tag_id small all w)

Sent-Written :
    {inputs : List (TagKey × TlvInput)} {os : List Occurrence} {chunks : List (List ℕ)}
    {ones lists : List (TagKey × Tlv)}
    → Sent inputs os chunks ones lists
    → Written os chunks
Sent-Written nothing = ended
Sent-Written (one {key} {tag_id = i} k d m c s) =
    next (key-keyed_tag_id key i k).0 c (Sent-Written s)
Sent-Written (several {key} {tag_id = i} k d m a h all s) =
    Written-append i (key-keyed_tag_id key i k).0 all (Sent-Written s)

-- The keys of a list that another list does not have.
abbrev Fresh : {A B : Type 0} → List (TagKey × A) → List (TagKey × B) → Type 0
Fresh m [] = Unit
Fresh m ((k, _) ∷ rest) = (find k m ≡ none) × Fresh m rest

ne_of_absent :
    {B : Type 0} (j k : TagKey) (b : B) (m : List (TagKey × B))
    → find k ((j, b) ∷ m) ≡ none
    → (key_eq.beq k j ≡ false) × (key_eq.beq j k ≡ false) × (find k m ≡ none)
ne_of_absent j k b m h = ground (arith, key_eq.beq_iff j k, key_eq.beq_iff k j)

module _ {A B : Type 0} where
  Fresh-add :
      (m : List (TagKey × A)) (k : TagKey) (a : A) (rest : List (TagKey × B))
      → Fresh m rest
      → find k rest ≡ none
      → Fresh (m ++ ((k, a) ∷ [])) rest
  Fresh-add m k a [] f h = tt
  Fresh-add m k a ((j, b) ∷ rest) (n, f) h =
      let (ne, _, h') = ne_of_absent j k b rest h in
      (find_other j k a m n ne, Fresh-add m k a rest f h')

  Fresh-cons :
      (m : List (TagKey × A)) (k : TagKey) (a : A) (rest : List (TagKey × B))
      → Fresh m rest
      → find k rest ≡ none
      → Fresh ((k, a) ∷ m) rest
  Fresh-cons m k a [] f h = tt
  Fresh-cons m k a ((j, b) ∷ rest) (n, f) h =
      let (ne, _, h') = ne_of_absent j k b rest h in (rw ne n, Fresh-cons m k a rest f h')

nothing_had : (A : Type 0) {B : Type 0} (rest : List (TagKey × B)) → Fresh {A = A} [] rest
nothing_had A [] = tt
nothing_had A ((k, _) ∷ rest) = (refl, nothing_had A rest)

-- A result as it is before its type is known.
abbrev unread : TlvValue → Unchecked
unread (octets b) = one_value (bytes b)
unread (count n) = one_value (number n)
unread (words t) = one_value (text t)
unread (octets_each bs) = list_of (each bytes bs)
unread (counts ns) = list_of (each number ns)

abbrev entry_for : Tlv → Entry
entry_for t = record { tag_id = t.tag_id; tag_name = t.tag_name; tag_value = unread t.tag_value }

abbrev entries : List (TagKey × Tlv) → List (TagKey × Entry)
entries [] = []
entries ((k, t) ∷ ts) = (k, entry_for t) ∷ entries ts

abbrev gathered : List (TagKey × Tlv) → Repeated
gathered [] = []
gathered ((k, t) ∷ ts) = (k, (t.tag_id, values_of t.tag_value)) ∷ gathered ts

unread_one :
    {type : TlvType} {v : ParamValue} {chunk : List ℕ}
    → Carries type v chunk
    → unread (as_value v) ≡ one_value v
unread_one (integer h) = refl
unread_one (terminated l z h) = refl
unread_one (plain l h) = refl
unread_one (raw h) = refl

-- The first loop on what was sent, with keys that it has not met.
gather-Sent :
    {inputs : List (TagKey × TlvInput)} {os : List Occurrence} {chunks : List (List ℕ)}
    {ones lists : List (TagKey × Tlv)} (repeated : Repeated) (tlvs : List (TagKey × Entry))
    → Sent inputs os chunks ones lists
    → Distinct inputs
    → Fresh repeated inputs
    → Fresh tlvs inputs
    → gather os repeated tlvs ≡ (repeated ++ gathered lists, tlvs ++ entries ones)
unfolding gather
gather-Sent repeated tlvs nothing dist f g =
    ap (λ r. (r, tlvs)) (sym (append-nil repeated))
    ∙ ap (λ t. (repeated ++ [], t)) (sym (append-nil tlvs))
gather-Sent repeated tlvs (one {key} {tag_id = i} {v} {inputs} {os = rest} {ones} {lists} k d m c s)
      (n, dist) (_, f) (h, g) =
    let e : Entry = record {
      tag_id = i;
      tag_name = name_of (tlvs_by_id i);
      tag_value = one_value v;
    } in
    gather_one i key v rest repeated tlvs m (key-keyed_tag_id key i k).1 h
    ∙ gather-Sent repeated (tlvs ++ ((key, e) ∷ [])) s dist f (Fresh-add tlvs key e inputs g n)
    ∙ ap (λ x. (repeated ++ gathered lists, x))
        (append_assoc tlvs ((key, e) ∷ []) (entries ones)
          ∙ ap
              (λ u.
                tlvs
                ++ ((key, record { tag_id = i; tag_name = name_of (tlvs_by_id i); tag_value = u })
                    ∷ entries ones))
              (sym (unread_one c)))
gather-Sent repeated tlvs
      (several {key} {tag_id = i} {value} {v} {vs} {inputs} {os = rest} {ones} {lists} k d m a e all
        s)
      (n, dist) (h, f) (_, g) =
    gather_several i key v vs rest repeated tlvs m (key-keyed_tag_id key i k).1 h
    ∙ gather-Sent (repeated ++ ((key, (i, v ∷ vs)) ∷ [])) tlvs s dist
        (Fresh-add repeated key (i, v ∷ vs) inputs f n) g
    ∙ ap (λ x. (x, tlvs ++ entries ones))
        (append_assoc repeated ((key, (i, v ∷ vs)) ∷ []) (gathered lists)
          ∙ ap (λ ws. repeated ++ ((key, (i, ws)) ∷ gathered lists)) (sym e))

-- A key that no input has is none of the results either.
absent-Sent :
    {inputs : List (TagKey × TlvInput)} {os : List Occurrence} {chunks : List (List ℕ)}
    {ones lists : List (TagKey × Tlv)} (j : TagKey)
    → Sent inputs os chunks ones lists
    → find j inputs ≡ none
    → (find j (entries ones) ≡ none) × (find j lists ≡ none)
absent-Sent j nothing h = (refl, refl)
absent-Sent j (one {key} {inputs} k d m c s) h =
    let (_, ne, h') = ne_of_absent key j _ inputs h in
    let (a, b) = absent-Sent j s h' in (rw ne a, b)
absent-Sent j (several {key} {inputs} k d m a e all s) h =
    let (_, ne, h') = ne_of_absent key j _ inputs h in
    let (x, y) = absent-Sent j s h' in (x, rw ne y)

apart :
    {inputs : List (TagKey × TlvInput)} {os : List Occurrence} {chunks : List (List ℕ)}
    {ones lists : List (TagKey × Tlv)}
    → Sent inputs os chunks ones lists
    → Distinct inputs
    → Distinct lists × Fresh (entries ones) lists
apart nothing dist = (tt, tt)
apart (one {key} {ones} {lists} k d m c s) (n, dist) =
    let (rest, fresh) = apart s dist in
    (rest, Fresh-cons (entries ones) key _ lists fresh (absent-Sent key s n).1)
apart (several {key} {lists} k d m a e all s) (n, dist) =
    let (rest, fresh) = apart s dist in let (x, y) = absent-Sent key s n in ((y, rest), (x, fresh))

-- Results of tags that may repeat.
abbrev AreLists : List (TagKey × Tlv) → Type 0
AreLists [] = Unit
AreLists ((k, t) ∷ ts) =
    (t.tag_name ≡ name_in k) × (unread t.tag_value ≡ list_of (values_of t.tag_value)) × AreLists ts

name_of-key_of :
    (o : Option TlvDefinition) (i : ℕ) → is_multiple o ≡ true → name_of o ≡ name_in (key_of o i)
name_of-key_of none i m = cc
name_of-key_of (some d) i m = refl

unread_list : (value : TlvValue) → is_array value ≡ true → unread value ≡ list_of (values_of value)
unread_list (octets b) a = cc
unread_list (count n) a = cc
unread_list (words t) a = cc
unread_list (octets_each bs) a = refl
unread_list (counts ns) a = refl

lists-AreLists :
    {inputs : List (TagKey × TlvInput)} {os : List Occurrence} {chunks : List (List ℕ)}
    {ones lists : List (TagKey × Tlv)}
    → Sent inputs os chunks ones lists
    → AreLists lists
lists-AreLists nothing = tt
lists-AreLists (one k d m c s) = lists-AreLists s
lists-AreLists (several {key} {tag_id = i} {value} k d m a e all s) = (
  name_of-key_of (tlvs_by_id i) i m ∙ ap name_in (key-keyed_tag_id key i k).1,
  unread_list value a,
  lists-AreLists s,
)

entry_eq :
    (t : Tlv) (name : Option String) (u : Unchecked)
    → t.tag_name ≡ name
    → unread t.tag_value ≡ u
    → record { tag_id = t.tag_id; tag_name = name; tag_value = u } ≡ entry_for t
entry_eq t name u n h =
    ap (λ x. record { tag_id = t.tag_id; tag_name = x; tag_value = u }) (sym n)
    ∙ ap (λ x. record { tag_id = t.tag_id; tag_name = t.tag_name; tag_value = x }) (sym h)

listed-Fresh :
    (lists : List (TagKey × Tlv)) (tlvs : List (TagKey × Entry))
    → AreLists lists
    → Distinct lists
    → Fresh tlvs lists
    → listed (gathered lists) tlvs ≡ tlvs ++ entries lists
unfolding listed
listed-Fresh [] tlvs a dist f = sym (append-nil tlvs)
listed-Fresh ((k, t) ∷ lists) tlvs (n, u, a) (absent, dist) (h, f) =
    let e : Entry = record {
      tag_id = t.tag_id;
      tag_name = name_in k;
      tag_value = list_of (values_of t.tag_value);
    } in
    ap (listed (gathered lists)) (put_absent k e tlvs h)
    ∙ listed-Fresh lists (tlvs ++ ((k, e) ∷ [])) a dist (Fresh-add tlvs k e lists f absent)
    ∙ append_assoc tlvs ((k, e) ∷ []) (entries lists)
    ∙ ap (λ x. tlvs ++ ((k, x) ∷ entries lists))
        (entry_eq t (name_in k) (list_of (values_of t.tag_value)) n u)

-- What is read as the table's type.
abbrev AllRead : List (TagKey × Tlv) → Type 0
AllRead [] = Unit
AllRead ((k, t) ∷ ts) = (is_tlv k (entry_for t) ≡ some t) × AllRead ts

read_value :
    (d : TlvDefinition) {v : ParamValue} {chunk : List ℕ} {type : TlvType}
    → d.multiple ≡ false
    → d.type ≡ type
    → Carries type v chunk
    → reads_as d (one_value v) ≡ some (as_value v)
unfolding reads_as
read_value d m same (integer h) = rw (m, same) refl
read_value d m same (terminated l z h) = rw (m, same) refl
read_value d m same (plain l h) = rw (m, same) refl
read_value d m same (raw h) = rw (m, same) refl

is_tlv_one :
    (o : Option TlvDefinition) (i : ℕ) (v : ParamValue) (chunk : List ℕ)
    → ((d : TlvDefinition) → o ≡ some d → spec_of d.tag ≡ some d)
    → is_multiple o ≡ false
    → Carries (type_or o) v chunk
    → is_tlv (key_of o i) (record { tag_id = i; tag_name = name_of o; tag_value = one_value v })
      ≡ some (record { tag_id = i; tag_name = name_of o; tag_value = as_value v })
unfolding is_tlv
is_tlv_one none i v chunk known m (raw h) = refl
is_tlv_one (some d) i v chunk known m c =
    rw (string_eq_refl d.tag) (rw (known d refl) (rw (read_value d m refl c) refl))
  where
    string_eq_refl : (t : String) → string_eq.beq t t ≡ true
    string_eq_refl t = beq_refl t

all_octets : (bs : List (List ℕ)) → reads_each buffer (each bytes bs) ≡ some (octets_each bs)
all_octets [] = refl
all_octets (b ∷ bs) = rw (all_octets bs) refl

all_counts :
    (w : Width) (ns : List JsNumber) → reads_each (int w) (each number ns) ≡ some (counts ns)
all_counts w [] = refl
all_counts w (n ∷ ns) = rw (all_counts w ns) refl

read_values :
    (type : TlvType) (value : TlvValue) (v : ParamValue) (vs : List ParamValue)
    {spelt : List (List ℕ)}
    → is_array value ≡ true
    → values_of value ≡ v ∷ vs
    → All type (v ∷ vs) spelt
    → reads_each type (values_of value) ≡ some value
read_values type (octets b) v vs a e all = cc
read_values type (count n) v vs a e all = cc
read_values type (words t) v vs a e all = cc
read_values (int w) (octets_each []) v vs a e all = cc
read_values cstring (octets_each []) v vs a e all = cc
read_values string (octets_each []) v vs a e all = cc
read_values buffer (octets_each bs) v vs a e all = all_octets bs
read_values (int w) (counts ns) v vs a e all = all_counts w ns
read_values type (octets_each (b ∷ bs)) v vs a e (then_value (integer h) all) = cc
read_values type (octets_each (b ∷ bs)) v vs a e (then_value (terminated l z h) all) = cc
read_values type (octets_each (b ∷ bs)) v vs a e (then_value (plain l h) all) = cc
read_values type (counts []) v vs a e all = cc
read_values type (counts (n ∷ ns)) v vs a e (then_value (raw h) all) = cc
read_values type (counts (n ∷ ns)) v vs a e (then_value (terminated l z h) all) = cc
read_values type (counts (n ∷ ns)) v vs a e (then_value (plain l h) all) = cc

is_tlv_list :
    (o : Option TlvDefinition) (i : ℕ) (value : TlvValue) (v : ParamValue) (vs : List ParamValue)
    {spelt : List (List ℕ)}
    → ((d : TlvDefinition) → o ≡ some d → spec_of d.tag ≡ some d)
    → is_multiple o ≡ true
    → is_array value ≡ true
    → values_of value ≡ v ∷ vs
    → All (type_or o) (v ∷ vs) spelt
    → is_tlv (key_of o i) (record { tag_id = i; tag_name = name_of o; tag_value = unread value })
      ≡ some (record { tag_id = i; tag_name = name_of o; tag_value = value })
unfolding is_tlv reads_as
is_tlv_list none i value v vs known m a e all = cc
is_tlv_list (some d) i value v vs known m a e all =
    ap (λ u. is_tlv (named d.tag) (record { tag_id = i; tag_name = some d.tag; tag_value = u }))
      (unread_list value a)
    ∙ rw (string_eq_refl d.tag)
        (rw (known d refl) (rw m (rw (read_values d.type value v vs a e all) refl)))
  where
    string_eq_refl : (t : String) → string_eq.beq t t ≡ true
    string_eq_refl t = beq_refl t

known_by : (i : ℕ) (d : TlvDefinition) → tlvs_by_id i ≡ some d → spec_of d.tag ≡ some d
known_by i d h = (tlvs_by_id-spec_of i d h).1

ones-AllRead :
    {inputs : List (TagKey × TlvInput)} {os : List Occurrence} {chunks : List (List ℕ)}
    {ones lists : List (TagKey × Tlv)}
    → Sent inputs os chunks ones lists
    → AllRead ones × AllRead lists
ones-AllRead nothing = (tt, tt)
ones-AllRead (one {key} {tag_id = i} {v} {chunk} k d m c s) =
    let (xs, ys) = ones-AllRead s in
    (
      (
        ap
              (λ u.
                is_tlv key
                  (record { tag_id = i; tag_name = name_of (tlvs_by_id i); tag_value = u }))
              (unread_one c)
            ∙ ap
                (λ j. is_tlv j (record {
                  tag_id = i;
                  tag_name = name_of (tlvs_by_id i);
                  tag_value = one_value v;
                }))
                (sym (key-keyed_tag_id key i k).1)
            ∙ is_tlv_one (tlvs_by_id i) i v chunk (known_by i) m c,
        xs,
      ),
      ys,
    )
ones-AllRead (several {key} {tag_id = i} {value} {v} {vs} k d m a e all s) =
    let (xs, ys) = ones-AllRead s in
    (
      xs,
      (
        ap
              (λ j. is_tlv j (record {
                tag_id = i;
                tag_name = name_of (tlvs_by_id i);
                tag_value = unread value;
              }))
              (sym (key-keyed_tag_id key i k).1)
            ∙ is_tlv_list (tlvs_by_id i) i value v vs (known_by i) m a e all,
        ys,
      ),
    )

is_tlvs-entries :
    (ts us : List (TagKey × Tlv))
    → AllRead ts
    → AllRead us
    → is_tlvs (entries ts ++ entries us) ≡ some (ts ++ us)
unfolding is_tlvs
is_tlvs-entries [] [] a b = refl
is_tlvs-entries [] ((k, t) ∷ us) a (h, b) = rw (h, is_tlvs) (rw (is_tlvs-entries [] us tt b) refl)
is_tlvs-entries ((k, t) ∷ ts) us (h, a) b = rw (h, is_tlvs) (rw (is_tlvs-entries ts us a b) refl)

keyed_tlvs-Sent :
    {inputs : List (TagKey × TlvInput)} {os : List Occurrence} {chunks : List (List ℕ)}
    {ones lists : List (TagKey × Tlv)}
    → Sent inputs os chunks ones lists
    → Distinct inputs
    → keyed_tlvs os ≡ ok (ones ++ lists)
unfolding keyed_tlvs
keyed_tlvs-Sent {inputs} {os} {ones} {lists} s dist =
    let (xs, ys) = ones-AllRead s in
    let (far, fresh) = apart s dist in
    rw
      (
        gather-Sent [] [] s dist (nothing_had (ℕ × List ParamValue) inputs)
            (nothing_had Entry inputs),
        keyed_tlvs,
      )
      (rw (listed-Fresh lists (entries ones) (lists-AreLists s) far fresh)
        (rw (is_tlvs-entries ones lists xs ys) refl))

rounds :
    {os : List Occurrence} {chunks : List (List ℕ)}
    → Written os chunks
    → length os ≤ length (flatten chunks)
unfolding flatten
rounds ended = omega arith
rounds (next {tag_id} {chunk} {os} {chunks} small c w) = omega (
  arith,
  rounds w,
  length-append (spelled tag_id chunk) (flatten chunks),
  length-spelled tag_id chunk,
)

-- Inputs with different keys, each of them the name that the table gives the tag or the number of a
-- tag without one, and each with values that the tag's type carries, are written; read at the end of
-- any PDU they come back with the same values: first the tags of one value, then those that may
-- repeat, both in the order in which they are listed. The reading ends at the end of the PDU.
pub tlvs_round_trip :
    (inputs : List (TagKey × TlvInput)) (os : List Occurrence) (chunks : List (List ℕ))
    (ones lists : List (TagKey × Tlv)) (pre : List ℕ)
    → Sent inputs os chunks ones lists
    → Distinct inputs
    → (write_tlvs inputs ≡ ok chunks)
      × (parse_tlvs (pre ++ flatten chunks) (length pre)
          ≡ some (ok (length (pre ++ flatten chunks), ones ++ lists)))
unfolding parse_tlvs
tlvs_round_trip inputs os chunks ones lists pre s dist =
    let pdu = pre ++ flatten chunks in
    let w = Sent-Written s in
    let whole = ap (◌++◌ pre) (append-nil (flatten chunks)) in
    let there =
      ap (λ z. parse_from (suc (length pdu)) z (length pre)) (sym whole)
      ∙ parse_from-Written (suc (length pdu)) pre [] (omega arith)
          (omega (arith, rounds w, length-append pre (flatten chunks))) w in
    (
      write_tlvs-Sent s,
      rw (there, parse_tlvs)
          (rw (keyed_tlvs-Sent s dist)
            (ap (λ n. some (ok (n, ones ++ lists))) (sym (length-append pre (flatten chunks))))),
    )
