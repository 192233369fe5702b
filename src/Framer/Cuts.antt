-- ===== src/Framer/Cuts.antt =====
-- What framing a stream means, without chunks, and that the framer of src/pdu-framer.ts does it.
use smpp_js.Prelude.{
  ℕ, ◌≤◌, ◌<◌, ◌≡◌, refl, sym, ap, ◌∙◌, inl, inr, Bool-cases, none, some, List, [], ◌∷◌, ◌++◌,
  flatten, append-nil, append_assoc, length, take, drop, length-drop, take-append, take-append_le,
  drop-append_le, leb, arith,
}
use smpp_js.Framer.{
  FramingError, framing_refusal, read_uint32_be, PduFramer, buffer_concat, join_first, join,
  replace_first, take_pdu,
}

-- What stays behind when the cutting ends: a beginning of a PDU, or nothing that can be framed.
pub data Left : Type 0 where
  keeps : List ℕ → Left
  refuses : FramingError → Left

-- `Cuts bs ps o`: the stream `bs` is the PDUs `ps` and then `o`.
pub data Cuts : List ℕ → List (List ℕ) → Left → Type 0 where
  short : {bs : List ℕ} → length bs < 16 → Cuts bs [] (keeps bs)
  partial :
      {bs : List ℕ}
      → 16 ≤ length bs
      → framing_refusal (read_uint32_be bs) ≡ none
      → length bs < read_uint32_be bs
      → Cuts bs [] (keeps bs)
  refused :
      {bs : List ℕ} {e : FramingError}
      → 16 ≤ length bs
      → framing_refusal (read_uint32_be bs) ≡ some e
      → Cuts bs [] (refuses e)
  whole :
      {bs : List ℕ} {ps : List (List ℕ)} {o : Left}
      → 16 ≤ length bs
      → framing_refusal (read_uint32_be bs) ≡ none
      → read_uint32_be bs ≤ length bs
      → Cuts (drop (read_uint32_be bs) bs) ps o
      → Cuts bs (take (read_uint32_be bs) bs ∷ ps) o

abbrev pub octets : PduFramer → List ℕ
octets f = flatten f.chunks

-- The count of octets is kept in step with the chunks.
abbrev pub IsCounted : PduFramer → Type 0
IsCounted f = f.total_length ≡ length (octets f)

pub flatten-append : (xs ys : List (List ℕ)) → flatten (xs ++ ys) ≡ flatten xs ++ flatten ys
unfolding flatten
flatten-append [] ys = refl
flatten-append (x ∷ xs) ys = rw (flatten-append xs ys) (sym (append_assoc x _ _))

pub read_uint32_be-append :
    (xs ys : List ℕ) → 4 ≤ length xs → read_uint32_be (xs ++ ys) ≡ read_uint32_be xs
unfolding read_uint32_be
read_uint32_be-append (a ∷ b ∷ c ∷ d ∷ xs) ys h = refl
read_uint32_be-append (a ∷ b ∷ c ∷ []) ys h = absurd (omega arith)
read_uint32_be-append (a ∷ b ∷ []) ys h = absurd (omega arith)
read_uint32_be-append (a ∷ []) ys h = absurd (omega arith)
read_uint32_be-append [] ys h = absurd (omega arith)

buffer_concat_lem :
    (chunks : List (List ℕ)) (len : ℕ)
    → len ≡ length (flatten chunks)
    → buffer_concat chunks len ≡ flatten chunks
unfolding buffer_concat
buffer_concat_lem chunks len e = rw e (take-append (flatten chunks) _)

-- The first chunk and the chunks after a join that wanted `size` octets.
pub record Joins (size : ℕ) (bs : List ℕ) (r : List ℕ × List (List ℕ)) : Type 0 where
  pub tail : List (List ℕ)
  pub chunks_eq : r.1 ≡ r.0 ∷ tail
  pub octets_eq : r.0 ++ flatten tail ≡ bs
  pub enough : size ≤ length bs → size ≤ length r.0

join_first-Joins :
    (size : ℕ) (chunks : List (List ℕ)) (len : ℕ)
    → len ≡ length (flatten chunks)
    → Joins size (flatten chunks) (join_first size chunks len)
unfolding join_first flatten
join_first-Joins size [] len e =
    let b = buffer_concat_lem [] len e in
    record { tail = []; chunks_eq = refl; octets_eq = append-nil _ ∙ b; enough = λ h. rw b h }
join_first-Joins size (first ∷ rest) len e = elim (Bool-cases (leb size (length first))) [
  | inl fits ↦
      rw fits
        (record { tail = rest; chunks_eq = refl; octets_eq = refl; enough = λ _. ground arith })
  | inr low ↦
      let b = buffer_concat_lem (first ∷ rest) len e in
      rw low
        (record { tail = []; chunks_eq = refl; octets_eq = append-nil _ ∙ b; enough = λ h. rw b h })
]

-- A join keeps the octets and their count, and its first chunk begins them.
pub record Joined (size : ℕ) (f : PduFramer) (r : List ℕ × PduFramer) : Type 0 where
  pub rest : List (List ℕ)
  pub chunks_eq : r.1.chunks ≡ r.0 ∷ rest
  pub octets_eq : r.0 ++ flatten rest ≡ octets f
  pub length_eq : r.1.total_length ≡ f.total_length
  pub enough : size ≤ length (octets f) → size ≤ length r.0

pub join-Joined : (size : ℕ) (f : PduFramer) → IsCounted f → Joined size f (join size f)
unfolding join
join-Joined size f e =
    let j = join_first-Joins size f.chunks f.total_length e in
    record {
      rest = j.tail;
      chunks_eq = j.chunks_eq;
      octets_eq = j.octets_eq;
      length_eq = refl;
      enough = j.enough;
    }

replace_first_lem :
    (rest : List ℕ) (first : List ℕ) (chunks : List (List ℕ))
    → flatten (replace_first rest (first ∷ chunks)) ≡ rest ++ flatten chunks
unfolding replace_first flatten
replace_first_lem [] first chunks = refl
replace_first_lem (x ∷ xs) first chunks = refl

-- Taking a PDU that is held splits the octets after it.
pub record Takes (size : ℕ) (f : PduFramer) (r : List ℕ × PduFramer) : Type 0 where
  pub pdu_eq : r.0 ≡ take size (octets f)
  pub octets_eq : octets r.1 ≡ drop size (octets f)
  pub counted : IsCounted r.1

pub take_pdu-Takes :
    (size : ℕ) (f : PduFramer)
    → IsCounted f
    → size ≤ length (octets f)
    → Takes size f (take_pdu size f)
unfolding take_pdu
take_pdu-Takes size f e h =
    let j = join-Joined size f e in
    let source = (join size f).0 in
    let held : size ≤ length source = j.enough h in
    let pdu : take size source ≡ take size (octets f) =
      sym (take-append_le size source _ held) ∙ ap (take size) j.octets_eq in
    let left : octets (take_pdu size f).1 ≡ drop size (octets f) = rw j.chunks_eq (
      replace_first_lem (drop size source) source j.rest
      ∙ sym (drop-append_le size source _ held)
      ∙ ap (drop size) j.octets_eq) in
    record {
      pdu_eq = pdu;
      octets_eq = left;
      counted = omega (arith, ap length left, length-drop size (octets f), j.length_eq);
    }
