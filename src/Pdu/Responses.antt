-- ===== src/Pdu/Responses.antt =====
-- The responses of `pduReturn` in src/pdu.ts that report a failure.
use Prim.Native.String
use smpp_js.Prelude.{
  ℕ, ◌+◌, ◌^◌, ◌≤◌, ◌<◌, ◌≡◌, ◌≢◌, refl, sym, ap, ◌∙◌, subst, inl, inr, Bool, true, false, not,
  ◌&&◌, Option-cases, Option, none, some, List, [], ◌++◌, append-nil, flatten, String, string_eq,
  find, every, every-find, length, take_all, ltb, leb, ◌==◌, if◌then◌else◌, arith,
}
use smpp_js.Prelude.Results.{ok, map_err}
use smpp_js.Wire.{whole}
use smpp_js.Defs.Commands.{CommandSpec, specs, is_command_name, resp_name_for}
use smpp_js.Defs.Commands.Pairing.{id_of, resp_name_for-id}
use smpp_js.Defs.Errors.{errors}
use smpp_js.Defs.Errors.Unique.{error_name_by_id-errors}
use smpp_js.Retained.{PduObject}
use smpp_js.Defs.Tlvs.Codec.{parse_tlvs}
use smpp_js.Defs.Tlvs.Sent.{nothing}
use smpp_js.Defs.Tlvs.RoundTrip.{tlvs_round_trip}
use smpp_js.Pdu.{max_wire_seq_nr, resp_bit, Params, with_header}
use smpp_js.Pdu.Build.{Inputs, build_body, build_pdu}
use smpp_js.Pdu.Parse.{
  exactly, read_optional_params, read_body, nothing_read, object_of, parse_headed, parse_pdu,
  refused, pdu_to_obj, pdu_return, unbuilt, echo_params, table_of,
}
use smpp_js.Pdu.Whole.{header_for, header_of-with_header}

code_small : String → ℕ → Bool
code_small name code = ltb code (2 ^ 32)

codes_small : every code_small errors ≡ true
unfolding code_small errors
codes_small = refl

ltb_lt : (a b : ℕ) → ltb a b ≡ true → a < b
ltb_lt a b h = ground arith

code-errors : (name : String) (code : ℕ) → find name errors ≡ some code → code < 2 ^ 32
unfolding code_small
code-errors name code h =
    ltb_lt code (2 ^ 32) (every-find code_small errors name code codes_small h)

is_known :
    (name : String)
    → is_command_name name ≡ true
    → (spec : CommandSpec) × (find name specs ≡ some spec)
unfolding is_command_name
is_known name h = elim (Option-cases (find name specs)) [
  | inl unknown ↦
      let now : is_command_name name ≡ false = rw (unknown, is_command_name) refl in
      absurd (cc (sym now ∙ h))
  | inr known ↦ known
]

named_known :
    (x resp : String)
    → (if is_command_name x then some x else none) ≡ some resp
    → is_command_name resp ≡ true
named_known x resp h = ground arith

response_named :
    (name : Option String) (resp : String)
    → resp_name_for name ≡ some resp
    → is_command_name resp ≡ true
unfolding resp_name_for
response_named none resp h = cc
response_named (some name) resp h = named_known (String.◌++◌ name "_resp") resp h

id_of_known :
    (name : String) (spec : CommandSpec) → find name specs ≡ some spec → id_of (some name) ≡ spec.id
id_of_known name spec h = rw (h, id_of) refl

-- The response of a command is a command, of the same id with the response bit.
pub response_known :
    (name resp : String) (spec : CommandSpec)
    → find name specs ≡ some spec
    → resp_name_for (some name) ≡ some resp
    → (answer : CommandSpec) × (find resp specs ≡ some answer) × (answer.id ≡ spec.id + resp_bit)
response_known name resp spec h r =
    let (answer, known) = is_known resp (response_named (some name) resp r) in
    (answer, known, sym (id_of_known resp answer known) ∙ (resp_name_for-id name resp spec h r).1)

no_body :
    (definition : CommandSpec) (status : ℕ) (params : Params) (tlvs : Inputs)
    → status ≢ 0
    → resp_bit ≤ definition.id
    → build_body definition status params tlvs ≡ ok []
unfolding build_body
no_body definition status params tlvs bad is_resp =
    rw (refuses status bad, answers definition.id is_resp, build_body) refl
  where
    refuses : (n : ℕ) → n ≢ 0 → (n == 0) ≡ false
    refuses n h = ground arith

    answers : (n : ℕ) → resp_bit ≤ n → leb resp_bit n ≡ true
    answers n h = ground arith

-- The PDU of such a response, as it is read back.
sixteen : (n code : ℕ) → code ≢ 0 → n ≡ 16 → (not (code == 0) && (n == 16)) ≡ true
sixteen n code bad h = ground arith

nothing_behind : (pdu : List ℕ) → length pdu ≡ 16 → parse_tlvs pdu 16 ≡ some (ok (16, []))
unfolding flatten
nothing_behind pdu h =
    ap (λ z. parse_tlvs z 16) (sym (append-nil pdu))
    ∙ ap (parse_tlvs (pdu ++ [])) (sym h)
    ∙ (tlvs_round_trip [] [] [] [] [] pdu nothing tt).1
    ∙ ap (λ n. some (ok (n, []))) (ap length (append-nil pdu) ∙ h)

nothing_optional :
    (pdu : List ℕ) (after : Bool) → length pdu ≡ 16 → read_optional_params pdu 16 after ≡ ok []
unfolding read_optional_params
nothing_optional pdu after h =
    let plain : exactly (length pdu) (parse_tlvs pdu 16) ≡ ok [] =
      rw (nothing_behind pdu h) (rw h refl) in
    rw (plain, read_optional_params) refl

headed_alone :
    (cmd_name : String) (id code seq : ℕ) (pdu : List ℕ)
    → code ≢ 0
    → length pdu ≡ 16
    → parse_headed (header_for cmd_name id code seq (length pdu)) pdu
      ≡ ok (object_of (header_for cmd_name id code seq (length pdu)) cmd_name [] [])
unfolding parse_headed read_body
headed_alone cmd_name id code seq pdu bad there =
    let header = header_for cmd_name id code seq (length pdu) in
    let body : read_body header cmd_name pdu ≡ ok nothing_read =
      rw (sixteen (length pdu) code bad there, read_body) refl in
    rw (take_all pdu) (rw body (rw (nothing_optional pdu _ there) refl))

in_field : (n : ℕ) → n ≤ max_wire_seq_nr → ltb max_wire_seq_nr n ≡ false
in_field n h = ground arith

built_alone :
    (resp status : String) (seq : ℕ) (definition : CommandSpec) (code : ℕ) (params : Params)
    (tlvs : Inputs)
    → find resp specs ≡ some definition
    → find status errors ≡ some code
    → code ≢ 0
    → seq ≤ max_wire_seq_nr
    → resp_bit ≤ definition.id
    → build_pdu resp status (whole seq) params tlvs ≡ ok (with_header definition.id code seq [])
unfolding build_pdu
built_alone resp status seq definition code params tlvs found named_so bad small is_resp =
    rw (found, build_pdu)
      (rw named_so
        (rw (in_field seq small) (rw (no_body definition code params tlvs bad is_resp) refl)))

-- A failure is reported by a response of 16 octets, whatever parameters and TLVs are given with it,
-- for every command that has a response and every status but success: it has the request's sequence
-- number and the request's command id with the response bit, and is read back as that status without
-- parameters or TLVs.
pub failure_response :
    (pdu : PduObject) (spec : CommandSpec) (resp status : String) (code : ℕ) (params : Params)
    (tlvs : Inputs)
    → find pdu.cmd_name specs ≡ some spec
    → resp_name_for (some pdu.cmd_name) ≡ some resp
    → find status errors ≡ some code
    → code ≢ 0
    → pdu.seq_nr ≤ max_wire_seq_nr
    → (answer : List ℕ) × (obj : PduObject) × (pdu_return pdu status params tlvs ≡ ok answer)
      × (length answer ≡ 16)
      × (pdu_to_obj answer ≡ ok obj)
      × (obj.cmd_name ≡ resp)
      × (obj.cmd_id ≡ spec.id + resp_bit)
      × (obj.cmd_status ≡ some status)
      × (obj.seq_nr ≡ pdu.seq_nr)
      × (obj.params ≡ [])
      × (obj.tlvs ≡ [])
unfolding pdu_return pdu_to_obj parse_pdu
failure_response pdu spec resp status code params tlvs known r named_so bad small =
    let (definition, found, id) = response_known pdu.cmd_name resp spec known r in
    let answer = with_header definition.id code pdu.seq_nr [] in
    let (h, l, framed) =
      header_of-with_header resp definition code pdu.seq_nr [] found
        (code-errors status code named_so) (omega (arith, small)) (omega arith) in
    let header = header_for resp definition.id code pdu.seq_nr (length answer) in
    (
      answer,
      object_of header resp [] [],
      rw (r, pdu_return)
          (ap (map_err unbuilt) (
            built_alone resp status pdu.seq_nr definition code
              (echo_params (table_of resp) pdu.params params) tlvs found named_so bad small
              (subst (λ n. resp_bit ≤ n) (sym id) (omega arith)))),
      l,
      rw (framed, pdu_to_obj)
          (ap (map_err refused) (
            ap (λ x. parse_headed x answer) h
            ∙ headed_alone resp definition.id code pdu.seq_nr answer bad l)),
      refl,
      id,
      error_name_by_id-errors status code named_so,
      refl,
      refl,
      refl,
    )
