-- ===== src/Defs/Tlvs/Stream.antt =====
-- A stream of optional parameters: the loop of `parseTlvs` ends, and reads what `writeTlvs` wrote.
use smpp_js.Prelude.{
  ℕ, zero, suc, ◌+◌, ◌≤◌, ◌<◌, ◌≡◌, ◌⊎◌, refl, sym, ap, ◌∙◌, inl, inr, true, false, Bool-cases,
  Option, none, some, List, [], ◌∷◌, ◌++◌, append_assoc, flatten, length, drop, length-append,
  drop-append, ltb, leb, arith,
}
use smpp_js.Prelude.Results.{Result, ok, err, map_err}
use smpp_js.Wire.{ParamValue}
use smpp_js.Wire.Ints.{two, read_be, write_be}
use smpp_js.Defs.Tlvs.{TlvType, wire_type, tlvs_by_id}
use smpp_js.Defs.Tlvs.Codec.{
  TlvError, of_wire, is_number_for_octets, write_tlv, write_values, type_or, Occurrence, read_tlv,
  parse_from,
}
use smpp_js.Defs.Tlvs.Values.{
  Carries, integer, terminated, plain, raw, Carries-short, Carries-size, Carries-write,
  Carries-read,
}

-- The octets of one optional parameter.
abbrev pub spelled : ℕ → List ℕ → List ℕ
spelled tag_id chunk = (write_be two tag_id ++ write_be two (length chunk)) ++ chunk

no_digits :
    {type : TlvType} {v : ParamValue} {chunk : List ℕ}
    → Carries type v chunk
    → is_number_for_octets type v ≡ false
no_digits (integer h) = refl
no_digits (terminated l z h) = refl
no_digits (plain l h) = refl
no_digits (raw h) = refl

short_enough : (n : ℕ) → n ≤ 0xFFFF → ltb 0xFFFF n ≡ false
short_enough n h = ground arith

two_octets : (n : ℕ) → length (write_be two n) ≡ 2
unfolding write_be
two_octets n = refl

four_octets : (m n : ℕ) → length (write_be two m ++ write_be two n) ≡ 4
unfolding write_be
four_octets m n = refl

pub write_tlv-Carries :
    {type : TlvType} {v : ParamValue} {chunk : List ℕ} (tag_id : ℕ)
    → Carries type v chunk
    → write_tlv tag_id type v ≡ ok (spelled tag_id chunk)
unfolding write_tlv
write_tlv-Carries {type} {v} {chunk} tag_id c =
    rw (no_digits c, write_tlv)
      (rw (Carries-size c) (
        rw (short_enough (length chunk) (Carries-short c)) (
          ap (map_err of_wire)
            (Carries-write (write_be two tag_id ++ write_be two (length chunk)) c))))

-- The values of one tag with their octets.
pub data All (type : TlvType) : List ParamValue → List (List ℕ) → Type 0 where
  done : All type [] []
  then_value :
      {v : ParamValue} {vs : List ParamValue} {chunk : List ℕ} {chunks : List (List ℕ)}
      → Carries type v chunk
      → All type vs chunks
      → All type (v ∷ vs) (chunk ∷ chunks)

abbrev pub spelled_each : ℕ → List (List ℕ) → List (List ℕ)
spelled_each tag_id [] = []
spelled_each tag_id (c ∷ cs) = spelled tag_id c ∷ spelled_each tag_id cs

pub write_values-All :
    {type : TlvType} {vs : List ParamValue} {chunks : List (List ℕ)} (tag_id : ℕ)
    → All type vs chunks
    → write_values tag_id type vs ≡ ok (spelled_each tag_id chunks)
unfolding write_values
write_values-All tag_id done = refl
write_values-All tag_id (then_value c a) =
    rw (write_tlv-Carries tag_id c) (rw (write_values-All tag_id a) refl)

tag_read : (n : ℕ) (rest : List ℕ) → n ≤ 0xFFFF → read_be two (write_be two n ++ rest) ≡ n
unfolding read_be write_be
tag_read n rest h = omega arith

-- What stands where, in a PDU with one parameter between other octets.
regroup :
    (pre tag size chunk post : List ℕ)
    → pre ++ (((tag ++ size) ++ chunk) ++ post) ≡ pre ++ (tag ++ (size ++ (chunk ++ post)))
regroup pre tag size chunk post =
    ap (◌++◌ pre) (append_assoc (tag ++ size) chunk post ∙ append_assoc tag size (chunk ++ post))

behind :
    (pre tag rest : List ℕ) → length tag ≡ 2 → drop (length pre + 2) (pre ++ (tag ++ rest)) ≡ rest
behind pre tag rest h =
    ap (λ n. drop n (pre ++ (tag ++ rest)))
      (ap (◌+◌ (length pre)) (sym h) ∙ sym (length-append pre tag))
    ∙ ap (drop (length (pre ++ tag))) (sym (append_assoc pre tag rest))
    ∙ drop-append (pre ++ tag) rest

reaches :
    (pre head chunk post : List ℕ)
    → length head ≡ 4
    → ltb (length (pre ++ ((head ++ chunk) ++ post))) (length pre + 4 + length chunk) ≡ false
reaches pre head chunk post h = ground (
  arith,
  length-append pre ((head ++ chunk) ++ post),
  length-append (head ++ chunk) post,
  length-append head chunk,
)

value_read :
    {type : TlvType} {v : ParamValue} {chunk : List ℕ} (pre head post : List ℕ)
    → length head ≡ 4
    → Carries type v chunk
    → (wire_type type).read
        (pre ++ ((head ++ chunk) ++ post))
        (length pre + 4)
        (some (length chunk))
      ≡ ok (length chunk, v)
value_read {type} {v} {chunk} pre head post h c =
    ap (λ n. (wire_type type).read (pre ++ ((head ++ chunk) ++ post)) n (some (length chunk)))
      (ap (◌+◌ (length pre)) (sym h) ∙ sym (length-append pre head))
    ∙ ap (λ z. (wire_type type).read z (length (pre ++ head)) (some (length chunk)))
        (ap (◌++◌ pre) (append_assoc head chunk post) ∙ sym (append_assoc pre head (chunk ++ post)))
    ∙ Carries-read (pre ++ head) post c

-- The occurrence that a value of a tag makes.
abbrev pub occurrence : ℕ → ParamValue → Occurrence
occurrence tag_id v = record { definition = tlvs_by_id tag_id; tag_id = tag_id; value = v }

read_tlv-spelled :
    {v : ParamValue} {chunk : List ℕ} (pre post : List ℕ) (tag_id : ℕ)
    → tag_id ≤ 0xFFFF
    → Carries (type_or (tlvs_by_id tag_id)) v chunk
    → read_tlv (pre ++ (spelled tag_id chunk ++ post)) (length pre)
      ≡ ok (4 + length chunk, occurrence tag_id v)
unfolding read_tlv
read_tlv-spelled {v} {chunk} pre post tag_id small c =
    let pdu = pre ++ (spelled tag_id chunk ++ post) in
    let tag = write_be two tag_id in
    let size = write_be two (length chunk) in
    let head = four_octets tag_id (length chunk) in
    let grouped = regroup pre tag size chunk post in
    let of_tag = two_octets tag_id in
    let id =
      ap (λ z. read_be two (drop (length pre) z)) grouped
      ∙ ap (read_be two) (drop-append pre (tag ++ (size ++ (chunk ++ post))))
      ∙ tag_read tag_id (size ++ (chunk ++ post)) small in
    let octets =
      ap (λ z. read_be two (drop (length pre + 2) z)) grouped
      ∙ ap (read_be two) (behind pre tag (size ++ (chunk ++ post)) of_tag)
      ∙ tag_read (length chunk) (chunk ++ post) (Carries-short c) in
    rw (id, octets, reaches pre (tag ++ size) chunk post head)
      (rw (value_read pre (tag ++ size) post head c) refl)

-- A stream of parameters: what is read of it, and the octets of each.
pub data Written : List Occurrence → List (List ℕ) → Type 0 where
  ended : Written [] []
  next :
      {tag_id : ℕ} {v : ParamValue} {chunk : List ℕ} {os : List Occurrence} {chunks : List (List ℕ)}
      → tag_id ≤ 0xFFFF
      → Carries (type_or (tlvs_by_id tag_id)) v chunk
      → Written os chunks
      → Written (occurrence tag_id v ∷ os) (spelled tag_id chunk ∷ chunks)

pub length-spelled :
    (tag_id : ℕ) (chunk : List ℕ) → length (spelled tag_id chunk) ≡ 4 + length chunk
unfolding write_be
length-spelled tag_id chunk = omega arith

goes_on :
    (pre s rest : List ℕ) → 4 ≤ length s → leb (length pre + 4) (length (pre ++ (s ++ rest))) ≡ true
goes_on pre s rest h = ground (arith, length-append pre (s ++ rest), length-append s rest)

stops : (pre post : List ℕ) → length post < 4 → leb (length pre + 4) (length (pre ++ post)) ≡ false
stops pre post h = ground (arith, length-append pre post)

-- The loop over such a stream, with less than four octets behind it.
pub parse_from-Written :
    (fuel : ℕ) {os : List Occurrence} {chunks : List (List ℕ)} (pre post : List ℕ)
    → length post < 4
    → length os < fuel
    → Written os chunks
    → parse_from fuel (pre ++ (flatten chunks ++ post)) (length pre)
      ≡ some (ok (os, length pre + length (flatten chunks)))
unfolding parse_from flatten
parse_from-Written zero pre post few h w = absurd (omega (arith, h))
parse_from-Written (suc fuel) pre post few h ended =
    rw (stops pre post few, parse_from) (ap (λ n. some (ok ([], n))) (omega arith))
parse_from-Written (suc fuel) pre post few h (next {tag_id} {v} {chunk} {os} {chunks} small c w) =
    let s = spelled tag_id chunk in
    let grouped = ap (◌++◌ pre) (append_assoc s (flatten chunks) post) in
    let ih = parse_from-Written fuel (pre ++ s) post few (omega (arith, h)) w in
    let there =
      ap (λ z. parse_from fuel z (length pre + (4 + length chunk)))
        (grouped ∙ sym (append_assoc pre s (flatten chunks ++ post)))
      ∙ ap (λ n. parse_from fuel ((pre ++ s) ++ (flatten chunks ++ post)) n)
          (omega (arith, length-append pre s, length-spelled tag_id chunk))
      ∙ ih in
    rw
      (
        ap (λ z. leb (length pre + 4) (length z)) grouped
            ∙ goes_on pre s (flatten chunks ++ post) (omega (arith, length-spelled tag_id chunk)),
        parse_from,
      )
      (rw
        (ap (λ z. read_tlv z (length pre)) grouped
          ∙ read_tlv-spelled pre (flatten chunks ++ post) tag_id small c)
        (rw there (
          ap (λ n. some (ok (occurrence tag_id v ∷ os, n)))
            (omega (
              arith,
              length-append pre s,
              length-append s (flatten chunks),
              length-spelled tag_id chunk,
            )))))

-- A parameter that was read takes four octets and those it declares, all of them there.
read_tlv-octets :
    (pdu : List ℕ) (offset : ℕ) (read : ℕ × Occurrence)
    → read_tlv pdu offset ≡ ok read
    → (4 ≤ read.0) × (offset + read.0 ≤ length pdu)
unfolding read_tlv
read_tlv-octets pdu offset read h = ground arith

-- Where the loop ends.
abbrev pub Ends : List ℕ → ℕ → Result TlvError (List Occurrence × ℕ) → Type 0
Ends pdu start (err e) = Unit
Ends pdu start (ok (os, offset)) =
    (start ≤ offset) × (length pdu < offset + 4) × (start ≤ length pdu → offset ≤ length pdu)

pub Result-cases :
    {E A : Type 0} (x : Result E A) → ((e : E) × (x ≡ err e)) ⊎ ((a : A) × (x ≡ ok a))
Result-cases (err e) = inl (e, refl)
Result-cases (ok a) = inr (a, refl)

-- A round of the loop, by what the rest of it came to.
abbrev rest_of :
    Occurrence
    → Option (Result TlvError (List Occurrence × ℕ))
    → Option (Result TlvError (List Occurrence × ℕ))
rest_of o none = none
rest_of o (some (err e)) = some (err e)
rest_of o (some (ok (os, offset))) = some (ok (o ∷ os, offset))

Ends-rest :
    (pdu : List ℕ) (offset n : ℕ) (o : Occurrence) (r : Result TlvError (List Occurrence × ℕ))
    → 4 ≤ n
    → offset + n ≤ length pdu
    → Ends pdu (offset + n) r
    → (r' : Result TlvError (List Occurrence × ℕ)) × (rest_of o (some r) ≡ some r')
      × Ends pdu offset r'
Ends-rest pdu offset n o (err e) h k ends = (err e, refl, tt)
Ends-rest pdu offset n o (ok (os, last)) h k (a, b, c) =
    (ok (o ∷ os, last), refl, (omega (arith, a, h), b, λ w. c k))

pub parse_from-Ends :
    (fuel : ℕ) (pdu : List ℕ) (offset : ℕ)
    → 1 ≤ fuel
    → length pdu < offset + fuel
    → (r : Result TlvError (List Occurrence × ℕ)) × (parse_from fuel pdu offset ≡ some r)
      × Ends pdu offset r
unfolding parse_from
parse_from-Ends zero pdu offset one_round h = absurd (omega (arith, one_round))
parse_from-Ends (suc fuel) pdu offset one_round h =
    elim (Bool-cases (leb (offset + 4) (length pdu))) [
      | inr short ↦
          rw (short, parse_from) (ok ([], offset), refl, (omega arith, not_leb short, λ w. w))
      | inl more ↦ elim (Result-cases (read_tlv pdu offset)) [
        | inl (e, failed) ↦ rw (more, parse_from) (rw failed (err e, refl, tt))
        | inr (read, found) ↦
            let (least, most) = read_tlv-octets pdu offset read found in
            let (r, came, ends) =
              parse_from-Ends fuel pdu (offset + read.0) (omega (arith, h, least, most))
                (omega (arith, h, least)) in
            let (r', eq, ends') = Ends-rest pdu offset read.0 read.1 r least most ends in
            rw (more, parse_from) (rw found (rw came (r', eq_of r read.1 r' eq, ends')))
      ]
    ]
  where
    not_leb : {a b : ℕ} → leb a b ≡ false → b < a
    not_leb h = ground arith

    eq_of :
        (r : Result TlvError (List Occurrence × ℕ)) (o : Occurrence)
        (r' : Result TlvError (List Occurrence × ℕ))
        → rest_of o (some r) ≡ some r'
        → (elim r [ err e ↦ some (err e) | ok rest ↦ some (ok (o ∷ rest.0, rest.1)) ]) ≡ some r'
    eq_of (err e) o r' h = h
    eq_of (ok (os, n)) o r' h = h
