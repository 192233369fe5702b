-- ===== src/Pdu/Faults.antt =====
-- What `pduToObj` of src/pdu.ts comes to on any octets.
use smpp_js.Prelude.{
  ℕ, ◌-◌, ◌≤◌, ◌<◌, ◌≡◌, ◌≢◌, ◌⊎◌, refl, sym, ap, ◌∙◌, subst, inl, inr, Bool, true, false,
  Option-cases, Option, none, some, List, String, length, take, ◌==◌, if◌then◌else◌, arith,
}
use smpp_js.Prelude.Results.{Result, ok, err, map_err}
use smpp_js.Framer.{max_pdu_length, framing_refusal}
use smpp_js.Retained.{TagKey, Tlv, PduObject}
use smpp_js.Defs.Tlvs.Codec.{TlvError, misread, parse_tlvs}
use smpp_js.Defs.Tlvs.Stream.{Result-cases}
use smpp_js.Defs.Tlvs.Kinds.{Reads, parse_tlvs-Reads}
use smpp_js.Pdu.{PduHeader, header_of, CheckError, check_framing}
use smpp_js.Pdu.Parse.{
  OptionalError, of_tlvs, left_over, out_of_fuel, exactly, read_optional_params, RefusalCause,
  unknown_command, in_body, in_tlvs, PduRefusedError, read_body, is_short_message, object_of,
  parse_headed, parse_pdu, PduError, unframed, refused, pdu_to_obj,
}

-- An error of the octets, not of the codec.
abbrev pub IsOwn : OptionalError → Type 0
IsOwn (of_tlvs e) = e ≢ misread
IsOwn (left_over n) = Unit
IsOwn out_of_fuel = ⊥

exactly-IsOwn :
    (pdu : List ℕ) (start : ℕ) (e : OptionalError)
    → exactly (length pdu) (parse_tlvs pdu start) ≡ err e
    → IsOwn e
exactly-IsOwn pdu start e h =
    let (out, came, reads) = parse_tlvs-Reads pdu start in
    at out reads (ap (exactly (length pdu)) (sym came) ∙ h)
  where
    err_inj :
        {a b : OptionalError}
        → Path (Result OptionalError (List (TagKey × Tlv))) (err a) (err b)
        → a ≡ b
    err_inj h = cc

    left :
        (b : Bool) (n : ℕ) (tlvs : List (TagKey × Tlv))
        → Path
            (Result OptionalError (List (TagKey × Tlv)))
            (if b then ok tlvs else err (left_over n))
            (err e)
        → IsOwn e
    left true n tlvs h = cc
    left false n tlvs h = subst IsOwn (err_inj h) tt

    at :
        (out : Result TlvError (ℕ × List (TagKey × Tlv)))
        → Reads pdu start out
        → exactly (length pdu) (some out) ≡ err e
        → IsOwn e
    at (err f) reads h = subst IsOwn (err_inj h) reads
    at (ok (offset, tlvs)) reads h = left (offset == length pdu) (length pdu - offset) tlvs h

read_optional_params-IsOwn :
    (pdu : List ℕ) (start : ℕ) (after : Bool) (e : OptionalError)
    → read_optional_params pdu start after ≡ err e
    → IsOwn e
unfolding read_optional_params
read_optional_params-IsOwn pdu start after e h = grind (arith, exactly-IsOwn)

-- A length that a header may have: that of the header at least, as much as the framer allows at
-- most, and no more than there is.
abbrev pub IsFramed : List ℕ → Type 0
IsFramed pdu =
    let n = (header_of pdu).cmd_length in (16 ≤ n) × (n ≤ max_pdu_length) × (n ≤ length pdu)

-- Where the octets cannot be framed, no length of them fits.
abbrev pub Unframable : List ℕ → Type 0
Unframable pdu =
    let n = (header_of pdu).cmd_length in
    (length pdu < 16) ⊎ ((n < 16) ⊎ ((max_pdu_length < n) ⊎ (length pdu < n)))

framed : (pdu : List ℕ) → check_framing pdu ≡ none → IsFramed pdu
unfolding check_framing header_of framing_refusal
framed pdu h = ground arith

unframable : (pdu : List ℕ) (e : CheckError) → check_framing pdu ≡ some e → Unframable pdu
unfolding check_framing header_of framing_refusal
unframable pdu e h = ground arith

-- The part that a refusal blames.
abbrev pub Causes : PduHeader → RefusalCause → Type 0
Causes header unknown_command = header.cmd_name ≡ none
Causes header (in_body _) = header.cmd_name ≢ none
Causes header (in_tlvs e) = (header.cmd_name ≢ none) × IsOwn e

-- What `parsePdu` comes to under a header: a refusal that names the part it could not read, or the
-- object of the header.
abbrev pub Parsed : PduHeader → Result PduRefusedError PduObject → Type 0
Parsed header (err e) = (e.header ≡ header) × Causes header e.cause
Parsed header (ok obj) =
    (header.cmd_name ≡ some obj.cmd_name)
    × (obj.cmd_id ≡ header.cmd_id)
    × (obj.cmd_length ≡ header.cmd_length)
    × (obj.cmd_status_id ≡ header.cmd_status_id)
    × (obj.seq_nr ≡ header.seq_nr)

not_none : {o : Option String} {s : String} → o ≡ some s → o ≢ none
not_none h k = cc (sym h ∙ k)

parse_headed-Parsed : (header : PduHeader) (pdu : List ℕ) → Parsed header (parse_headed header pdu)
unfolding parse_headed
parse_headed-Parsed header pdu = elim (Option-cases header.cmd_name) [
  | inl unknown ↦
      let now : parse_headed header pdu
          ≡ err (record { header = header; cause = unknown_command }) =
        simp (unknown, parse_headed) refl in
      subst (Parsed header) (sym now) (refl, unknown)
  | inr (cmd_name, known) ↦
      let declared = take header.cmd_length pdu in
      elim (Result-cases (read_body header cmd_name declared)) [
        | inl (e, failed) ↦
            let now : parse_headed header pdu
                ≡ err (record { header = header; cause = in_body e }) =
              simp (known, parse_headed) (rw failed refl) in
            subst (Parsed header) (sym now) (refl, not_none known)
        | inr (read, came) ↦
            elim (Result-cases
              (read_optional_params declared read.offset (is_short_message read.last_param))) [
                | inl (e, failed) ↦
                    let now : parse_headed header pdu
                        ≡ err (record { header = header; cause = in_tlvs e }) =
                      simp (known, parse_headed) (rw came (rw failed refl)) in
                    subst (Parsed header) (sym now) (
                      refl,
                      (not_none known, read_optional_params-IsOwn declared read.offset _ e failed),
                    )
                | inr (tlvs, found) ↦
                    let now : parse_headed header pdu
                        ≡ ok (object_of header cmd_name read.params tlvs) =
                      simp (known, parse_headed) (rw came (rw found refl)) in
                    subst (Parsed header) (sym now) (known, refl, refl, refl, refl)
              ]
      ]
]

abbrev pub Comes : List ℕ → Result PduError PduObject → Type 0
Comes pdu (err (unframed e)) = Unframable pdu
Comes pdu (err (refused e)) = IsFramed pdu × Parsed (header_of pdu) (err e)
Comes pdu (ok obj) = IsFramed pdu × Parsed (header_of pdu) (ok obj)

comes :
    (pdu : List ℕ) (r : Result PduRefusedError PduObject)
    → IsFramed pdu
    → Parsed (header_of pdu) r
    → Comes pdu (map_err refused r)
comes pdu (err e) f p = (f, p)
comes pdu (ok obj) f p = (f, p)

-- On any octets `pduToObj` comes to one of these: an error of the framing, where there are fewer than
-- 16 octets or their length does not fit; a refusal with the header that was read, which blames the
-- command where the table has none of that id, and otherwise the body or the TLVs, never because a
-- loop was cut short or a tag did not read as the type of the table; or an object with the header's
-- command, length, status and sequence number.
pub pdu_to_obj-Comes : (pdu : List ℕ) → Comes pdu (pdu_to_obj pdu)
unfolding pdu_to_obj parse_pdu
pdu_to_obj-Comes pdu = elim (Option-cases (check_framing pdu)) [
  | inr (e, bad) ↦ rw (bad, pdu_to_obj) (unframable pdu e bad)
  | inl good ↦
      rw (good, pdu_to_obj)
        (comes pdu (parse_headed (header_of pdu) pdu) (framed pdu good)
          (parse_headed-Parsed (header_of pdu) pdu))
]
