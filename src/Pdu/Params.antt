-- ===== src/Pdu/Params.antt =====
-- The mandatory parameters of src/pdu.ts are read as they were written.
use smpp_js.Prelude.{
  ℕ, ◌+◌, ◌≡◌, refl, sym, ap, subst, ◌∙◌, Option, some, List, [], ◌∷◌, ◌++◌, append_assoc, flatten,
  String, string_eq, put, length, length-append, arith,
}
use smpp_js.Prelude.Results.{ok}
use smpp_js.Wire.{ParamValue, WireType}
use smpp_js.Wire.Encodes.{Encodes}
use smpp_js.Defs.Commands.{Param}
use smpp_js.Pdu.{Params, value_for, write_param, write_params, sm_length, ReadParams, read_params}

-- `Fields resolved ps so_far chunks params`: each parameter of `ps`, read after `so_far`, writes its
-- value of `resolved` so that it is read back; the chunks are those written, `params` those read.
pub data Fields (resolved : Params) : List Param → Params → List (List ℕ) → Params → Type 0 where
  done : {so_far : Params} → Fields resolved [] so_far [] so_far
  field :
      {name : String} {type : WireType} {ps : List Param} {so_far params : Params}
      {back : ParamValue} {chunk : List ℕ} {chunks : List (List ℕ)}
      → Encodes type (some (sm_length so_far)) (value_for resolved (name, type)) back chunk
      → Fields resolved ps (put name back so_far) chunks params
      → Fields resolved ((name, type) ∷ ps) so_far (chunk ∷ chunks) params

write_param_lem :
    (resolved : Params) (name : String) (type : WireType) (given : Option ℕ) (back : ParamValue)
    (chunk : List ℕ)
    → Encodes type given (value_for resolved (name, type)) back chunk
    → write_param resolved (name, type) ≡ ok chunk
unfolding write_param
write_param_lem resolved name type given back chunk e =
    rw (e.sized, write_param) (rw e.written refl)

pub write_params-Fields :
    {resolved : Params} {ps : List Param} {so_far params : Params} {chunks : List (List ℕ)}
    → Fields resolved ps so_far chunks params
    → write_params ps resolved ≡ ok chunks
unfolding write_params
write_params-Fields done = refl
write_params-Fields {resolved} (field {name} {type} {so_far = p} {back} {chunk} e fs) =
    rw (write_param_lem resolved name type (some (sm_length p)) back chunk e)
      (rw (write_params-Fields fs) refl)

abbrev pub last_of : List Param → Option String → Option String
last_of [] last = last
last_of ((name, _) ∷ ps) last = last_of ps (some name)

-- A reader that stands at an offset with the parameters before it.
abbrev pub standing : Option String → ℕ → Params → ReadParams
standing last offset params = record { last_param = last; offset = offset; params = params }

read_step :
    (name : String) (type : WireType) (ps : List Param) (pdu : List ℕ) (last : Option String)
    (offset n : ℕ) (so_far : Params) (back : ParamValue)
    → type.read pdu offset (some (sm_length so_far)) ≡ ok (n, back)
    → read_params ((name, type) ∷ ps) pdu (standing last offset so_far)
      ≡ read_params ps pdu (standing (some name) (offset + n) (put name back so_far))
unfolding read_params
read_step name type ps pdu last offset n so_far back e = rw (e, read_params) refl

-- The octets of a stream regrouped behind one more chunk.
regroup :
    (pre chunk rest post : List ℕ)
    → pre ++ ((chunk ++ rest) ++ post) ≡ (pre ++ chunk) ++ (rest ++ post)
regroup pre chunk rest post =
    ap (◌++◌ pre) (append_assoc chunk rest post) ∙ sym (append_assoc pre chunk (rest ++ post))

read_params-Fields :
    {resolved : Params} {ps : List Param} {so_far params : Params} {chunks : List (List ℕ)}
    → Fields resolved ps so_far chunks params
    → (pre post : List ℕ) (last : Option String)
    → read_params ps (pre ++ (flatten chunks ++ post)) (standing last (length pre) so_far)
      ≡ ok (standing (last_of ps last) (length pre + length (flatten chunks)) params)
unfolding read_params flatten
read_params-Fields {so_far} done pre post last = ap (λ n. ok (standing last n so_far)) (omega arith)
read_params-Fields {resolved} {params}
      (field {name} {type} {ps = ps} {so_far = p} {back} {chunk} {chunks = cs} e fs) pre post last =
    let whole_pdu = pre ++ ((chunk ++ flatten cs) ++ post) in
    let grouped = regroup pre chunk (flatten cs) post in
    let here =
      subst (λ z. type.read z (length pre) (some (sm_length p)) ≡ ok (length chunk, back))
        (ap (◌++◌ pre) (sym (append_assoc chunk (flatten cs) post)))
        (e.reads pre (flatten cs ++ post)) in
    let ih = read_params-Fields fs (pre ++ chunk) post (some name) in
    read_step name type ps whole_pdu last (length pre) (length chunk) p back here
    ∙ ap
        (λ z. read_params ps z (standing (some name) (length pre + length chunk) (put name back p)))
        grouped
    ∙ ap
        (λ n.
          read_params ps ((pre ++ chunk) ++ (flatten cs ++ post))
            (standing (some name) n (put name back p)))
        (sym (length-append pre chunk))
    ∙ ih
    ∙ ap (λ n. ok (standing (last_of ps (some name)) n params))
        (omega (arith, length-append pre chunk, length-append chunk (flatten cs)))

-- Where each parameter of a command writes its value so that it is read back, writing them gives
-- their chunks, and reading those at any place of any PDU gives the same parameters, the last
-- one's name, and the offset right behind them.
pub params_round_trip :
    (resolved : Params) (ps : List Param) (so_far params : Params) (chunks : List (List ℕ))
    (pre post : List ℕ) (last : Option String)
    → Fields resolved ps so_far chunks params
    → (write_params ps resolved ≡ ok chunks)
      × (read_params ps (pre ++ (flatten chunks ++ post)) (standing last (length pre) so_far)
          ≡ ok (standing (last_of ps last) (length pre + length (flatten chunks)) params))
params_round_trip resolved ps so_far params chunks pre post last f =
    (write_params-Fields f, read_params-Fields f pre post last)
