-- ===== src/Pdu/Whole.antt =====
-- A whole PDU of src/pdu.ts: `pduToObj` reads what `objToPdu` wrote.
use smpp_js.Prelude.{
  ℕ, ◌+◌, ◌^◌, ◌≤◌, ◌<◌, ◌≡◌, refl, sym, ap, ◌∙◌, Bool, true, false, none, some, List, [], ◌∷◌,
  ◌++◌, append_assoc, flatten, String, string_eq, find, Distinct, every, every-find, length,
  take_all, length-append, ltb, arith,
}
use smpp_js.Prelude.Results.{ok, map_err}
use smpp_js.Wire.{whole}
use smpp_js.Wire.Ints.{four, write_be}
use smpp_js.Defs.Commands.{CommandSpec, specs}
use smpp_js.Defs.Commands.Pairing.{command_name_by_id-specs}
use smpp_js.Defs.Errors.{errors}
use smpp_js.Retained.{TagKey, key_eq, Tlv}
use smpp_js.Defs.Tlvs.Codec.{Occurrence, parse_tlvs}
use smpp_js.Defs.Tlvs.Sent.{Sent}
use smpp_js.Defs.Tlvs.RoundTrip.{tlvs_round_trip}
use smpp_js.Framer.{max_pdu_length}
use smpp_js.Pdu.{
  max_wire_seq_nr, Params, read_params, PduHeader, header_of, with_header, check_framing,
}
use smpp_js.Pdu.Header.{Built, Fits, header_of-pdu_of}
use smpp_js.Pdu.Params.{Fields, standing, last_of, params_round_trip}
use smpp_js.Pdu.Build.{Inputs, resolve_body, build_body, build_pdu, obj_to_pdu}
use smpp_js.Pdu.Parse.{
  exactly, read_optional_params, read_body, nothing_read, table_of, object_of, parse_headed,
  parse_pdu, refused, pdu_to_obj,
}

id_small : String → CommandSpec → Bool
id_small name spec = ltb spec.id (2 ^ 32)

ids_small : every id_small specs ≡ true
unfolding id_small specs
ids_small = refl

ltb_lt : (a b : ℕ) → ltb a b ≡ true → a < b
ltb_lt a b h = ground arith

-- The id of a command fits its field.
pub id-specs : (name : String) (spec : CommandSpec) → find name specs ≡ some spec → spec.id < 2 ^ 32
unfolding id_small
id-specs name spec h = ltb_lt spec.id (2 ^ 32) (every-find id_small specs name spec ids_small h)

-- The header that a PDU of a command is read with.
abbrev pub header_for : String → ℕ → ℕ → ℕ → ℕ → PduHeader
header_for cmd_name id status seq n = record {
  cmd_id = id;
  cmd_length = n;
  cmd_name = some cmd_name;
  cmd_status_id = status;
  seq_nr = seq;
}

header_eq :
    (h k : PduHeader)
    → h.cmd_id ≡ k.cmd_id
    → h.cmd_length ≡ k.cmd_length
    → h.cmd_status_id ≡ k.cmd_status_id
    → h.seq_nr ≡ k.seq_nr
    → h.cmd_name ≡ k.cmd_name
    → h ≡ k
header_eq h k a b c d e = cc (a, b, c, d, e)

abbrev built : ℕ → ℕ → ℕ → List ℕ → Built
built id status seq body = record { id = id; status = status; seq_nr = seq; body = body }

pub header_of-with_header :
    (cmd_name : String) (definition : CommandSpec) (status seq : ℕ) (body : List ℕ)
    → find cmd_name specs ≡ some definition
    → status < 2 ^ 32
    → seq < 2 ^ 32
    → length body + 16 ≤ max_pdu_length
    → let pdu = with_header definition.id status seq body in
      (header_of pdu ≡ header_for cmd_name definition.id status seq (length pdu))
      × (length pdu ≡ length body + 16)
      × (check_framing pdu ≡ none)
header_of-with_header cmd_name definition status seq body known st sq fits =
    let f : Fits (built definition.id status seq body) = record {
      id_fits = id-specs cmd_name definition known;
      status_fits = st;
      seq_fits = sq;
      length_fits = fits;
    } in
    let ((a, b, c, d, e), l, ok_so) = header_of-pdu_of (built definition.id status seq body) f in
    (
      header_eq (header_of (with_header definition.id status seq body))
          (header_for cmd_name definition.id status seq
            (length (with_header definition.id status seq body)))
          a (b ∙ sym l) c d (e ∙ command_name_by_id-specs cmd_name definition known),
      l,
      ok_so,
    )

-- The octets of a header.
abbrev head : ℕ → ℕ → ℕ → ℕ → List ℕ
head id status seq n =
    write_be four n ++ (write_be four id ++ (write_be four status ++ write_be four seq))

length-head : (id status seq n : ℕ) → length (head id status seq n) ≡ 16
unfolding write_be
length-head id status seq n = refl

pub flatten-append_all : (xs ys : List (List ℕ)) → flatten (xs ++ ys) ≡ flatten xs ++ flatten ys
unfolding flatten
flatten-append_all [] ys = refl
flatten-append_all (x ∷ xs) ys =
    ap (◌++◌ x) (flatten-append_all xs ys) ∙ sym (append_assoc x (flatten xs) (flatten ys))

exactly_all :
    (n m : ℕ) (tlvs : List (TagKey × Tlv)) → m ≡ n → exactly n (some (ok (m, tlvs))) ≡ ok tlvs
exactly_all n m tlvs h = ground (arith, h)

-- Parameters and TLVs that a command carries: once the body is resolved, each parameter of the
-- command's table writes its value so that it is read back, the TLVs are inputs with different keys
-- that the table carries, and the PDU is not longer than the framer allows.
pub record Carries (cmd_name : String) (params : Params) (tlvs : Inputs) : Type 0 where
  pub definition : CommandSpec
  pub known : find cmd_name specs ≡ some definition
  pub resolved : Params
  pub sent_tlvs : Inputs
  pub resolves : resolve_body params tlvs definition ≡ ok (resolved, sent_tlvs)
  pub chunks : List (List ℕ)
  pub read : Params
  pub fields : Fields resolved definition.params [] chunks read
  pub occurrences : List Occurrence
  pub tlv_chunks : List (List ℕ)
  pub ones : List (TagKey × Tlv)
  pub lists : List (TagKey × Tlv)
  pub sent : Sent sent_tlvs occurrences tlv_chunks ones lists
  pub distinct : Distinct sent_tlvs
  pub fits : length (flatten (chunks ++ tlv_chunks)) + 16 ≤ max_pdu_length

module _ {cmd_name : String} {params : Params} {tlvs : Inputs}
    (c : Carries cmd_name params tlvs) where
  abbrev pub body_of : List ℕ
  body_of = flatten (c.chunks ++ c.tlv_chunks)

  build_body-Carries : build_body c.definition 0 params tlvs ≡ ok body_of
  unfolding build_body
  build_body-Carries =
      let written =
        (params_round_trip c.resolved c.definition.params [] c.read c.chunks [] [] none
          c.fields).0 in
      let optional =
        (tlvs_round_trip c.sent_tlvs c.occurrences c.tlv_chunks c.ones c.lists [] c.sent
          c.distinct).0 in
      rw (c.resolves, build_body) (rw written (rw optional refl))

  -- The mandatory parameters of such a PDU, and the TLVs behind them.
  body_read :
      (pre : List ℕ)
      → length pre ≡ 16
      → read_params c.definition.params (pre ++ body_of) nothing_read
        ≡ ok (standing (last_of c.definition.params none) (length (pre ++ flatten c.chunks)) c.read)
  body_read pre h =
      ap (λ z. read_params c.definition.params (pre ++ z) nothing_read)
        (flatten-append_all c.chunks c.tlv_chunks)
      ∙ ap
          (λ n.
            read_params c.definition.params (pre ++ (flatten c.chunks ++ flatten c.tlv_chunks))
              (standing none n []))
          (sym h)
      ∙ (params_round_trip c.resolved c.definition.params [] c.read c.chunks pre
          (flatten c.tlv_chunks) none c.fields).1
      ∙ ap (λ n. ok (standing (last_of c.definition.params none) n c.read))
          (sym (length-append pre (flatten c.chunks)))

  tlvs_read :
      (pre : List ℕ)
      → exactly
          (length (pre ++ body_of))
          (parse_tlvs (pre ++ body_of) (length (pre ++ flatten c.chunks)))
        ≡ ok (c.ones ++ c.lists)
  tlvs_read pre =
      let grouped : pre ++ body_of ≡ (pre ++ flatten c.chunks) ++ flatten c.tlv_chunks =
        ap (◌++◌ pre) (flatten-append_all c.chunks c.tlv_chunks)
        ∙ sym (append_assoc pre (flatten c.chunks) (flatten c.tlv_chunks)) in
      ap (λ z. exactly (length z) (parse_tlvs z (length (pre ++ flatten c.chunks)))) grouped
      ∙ ap (exactly (length ((pre ++ flatten c.chunks) ++ flatten c.tlv_chunks)))
          (tlvs_round_trip c.sent_tlvs c.occurrences c.tlv_chunks c.ones c.lists
            (pre ++ flatten c.chunks) c.sent c.distinct).1
      ∙ exactly_all _ _ (c.ones ++ c.lists) refl

  optional_read :
      (pre : List ℕ) (after : Bool)
      → read_optional_params (pre ++ body_of) (length (pre ++ flatten c.chunks)) after
        ≡ ok (c.ones ++ c.lists)
  unfolding read_optional_params
  optional_read pre after = rw (tlvs_read pre, read_optional_params) refl

  table_known : table_of cmd_name ≡ c.definition.params
  table_known = rw c.known refl

  body_taken :
      (header : PduHeader) (pre : List ℕ)
      → length pre ≡ 16
      → header.cmd_status_id ≡ 0
      → read_body header cmd_name (pre ++ body_of)
        ≡ ok (standing (last_of c.definition.params none) (length (pre ++ flatten c.chunks)) c.read)
  unfolding read_body
  body_taken header pre h good =
      rw (good, read_body)
        (ap (λ ps. read_params ps (pre ++ body_of) nothing_read) table_known ∙ body_read pre h)

  pdu_read :
      (id seq : ℕ) (pre : List ℕ)
      → length pre ≡ 16
      → let header = header_for cmd_name id 0 seq (length (pre ++ body_of)) in
        header_of (pre ++ body_of) ≡ header
        → parse_pdu (pre ++ body_of) ≡ ok (object_of header cmd_name c.read (c.ones ++ c.lists))
  unfolding parse_pdu
  pdu_read id seq pre h e =
      let header = header_for cmd_name id 0 seq (length (pre ++ body_of)) in
      ap (λ x. parse_headed x (pre ++ body_of)) e
      ∙ rw (take_all (pre ++ body_of))
          (rw (body_taken header pre h refl) (rw (optional_read pre _) refl))

rok : find "ESME_ROK" errors ≡ some 0
unfolding errors
rok = refl

-- `objToPdu` writes the PDU of a command with parameters and TLVs that the command carries, and
-- `pduToObj` reads from it the parameters and TLVs that their round trips give, under a header of the
-- command, a status of success, the sequence number and the length of the whole PDU.
pub pdu_round_trip :
    (cmd_name : String) (seq : ℕ) (params : Params) (tlvs : Inputs)
    → seq ≤ max_wire_seq_nr
    → (c : Carries cmd_name params tlvs)
    → let pdu = with_header c.definition.id 0 seq (body_of c) in
      (obj_to_pdu (record {
        cmd_name = cmd_name;
        cmd_status = none;
        params = params;
        seq_nr = some (whole seq);
        tlvs = tlvs;
      })
        ≡ ok pdu)
      × (pdu_to_obj pdu
          ≡ ok (
              object_of
                (header_for cmd_name c.definition.id 0 seq (length pdu))
                cmd_name
                c.read
                (c.ones ++ c.lists)))
unfolding obj_to_pdu build_pdu pdu_to_obj
pdu_round_trip cmd_name seq params tlvs small c =
    let pdu = with_header c.definition.id 0 seq (body_of c) in
    let (h, l, framed) =
      header_of-with_header cmd_name c.definition 0 seq (body_of c) c.known (omega arith)
        (omega (arith, small)) c.fits in
    (
      rw (c.known, build_pdu) (rw rok (rw (in_field seq small) (rw (build_body-Carries c) refl))),
      rw (framed, pdu_to_obj)
          (ap (map_err refused) (
            pdu_read c c.definition.id seq (head c.definition.id 0 seq (length (body_of c) + 16))
              (length-head c.definition.id 0 seq (length (body_of c) + 16)) h)),
    )
  where
    in_field : (n : ℕ) → n ≤ max_wire_seq_nr → ltb max_wire_seq_nr n ≡ false
    in_field n h = ground arith
