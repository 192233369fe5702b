-- ===== src/Framer/Stream.antt =====
-- The loop of `PduFramer.next` cuts the octets it holds, however they were chunked.
use smpp_js.Prelude.{
  ℕ, zero, suc, ◌+◌, ◌≤◌, ◌<◌, ◌≡◌, refl, sym, ap, subst, ◌∙◌, ◌⊎◌, inl, inr, true, Bool-cases,
  Option-cases, Option, none, some, List, [], ◌∷◌, ◌++◌, append-nil, append_assoc, flatten, length,
  take, drop, length-append, length-drop, ltb, ltb→lt, ltb→le, arith,
}
use smpp_js.Framer.{
  FramingError, max_pdu_length, framing_refusal, read_uint32_be, PduFramer, join, Framed, pdus, err,
  next_from, next, push,
}
use smpp_js.Framer.Cuts.{
  keeps, refuses, Cuts, short, partial, refused, whole, octets, IsCounted, join-Joined,
  take_pdu-Takes, read_uint32_be-append, flatten-append,
}

-- What a call of `next` owes for the octets `bs`, with the PDUs `found` before.
abbrev pub Frames : List ℕ → List (List ℕ) → Option (PduFramer × Framed) → Type 0
Frames bs found r =
    ((g : PduFramer) × (ps : List (List ℕ)) × (r ≡ some (g, pdus (found ++ ps)))
      × IsCounted g
      × Cuts bs ps (keeps (octets g)))
    ⊎ ((g : PduFramer) × (ps : List (List ℕ)) × (e : FramingError) × (r ≡ some (g, err e))
        × Cuts bs ps (refuses e))

ltb-suc : (n : ℕ) → ltb 0 (suc n) ≡ true
ltb-suc n = ground arith

push-length :
    (chunk : List ℕ) (f : PduFramer) → (push chunk f).total_length ≡ f.total_length + length chunk
unfolding push
push-length chunk f = ground arith

-- One PDU more in front: `p` is the octets that the length names, `rest` what follows them.
Frames-whole :
    (bs : List ℕ) (found : List (List ℕ)) {r : Option (PduFramer × Framed)} (p rest : List ℕ)
    → 16 ≤ length bs
    → framing_refusal (read_uint32_be bs) ≡ none
    → read_uint32_be bs ≤ length bs
    → p ≡ take (read_uint32_be bs) bs
    → rest ≡ drop (read_uint32_be bs) bs
    → Frames rest (found ++ (p ∷ [])) r
    → Frames bs found r
Frames-whole bs found p rest l good fits pe re (inl (g, ps, e, c, k)) = inl (
  g,
  take (read_uint32_be bs) bs ∷ ps,
  e ∙ ap (λ z. some (g, pdus z)) (append_assoc found _ ps ∙ ap (λ z. found ++ (z ∷ ps)) pe),
  c,
  whole l good fits (subst (λ z. Cuts z ps (keeps (octets g))) re k),
)
Frames-whole bs found p rest l good fits pe re (inr (g, ps, x, e, k)) =
    inr (g, _, x, e, whole l good fits (subst (λ z. Cuts z ps (refuses x)) re k))

pub framing_refusal-none : (n : ℕ) → framing_refusal n ≡ none → (16 ≤ n) × (n ≤ max_pdu_length)
unfolding framing_refusal
framing_refusal-none n h = ground arith

module _ (f : PduFramer) (c : IsCounted f) (l : 16 ≤ length (octets f)) where
  head_cmd_length : read_uint32_be (join 16 f).0 ≡ read_uint32_be (octets f)
  head_cmd_length =
      let j = join-Joined 16 f c in
      let held : 16 ≤ length (join 16 f).0 = j.enough l in
      sym (read_uint32_be-append (join 16 f).0 _ (omega arith)) ∙ ap read_uint32_be j.octets_eq

  joined_octets : octets (join 16 f).1 ≡ octets f
  unfolding flatten join
  joined_octets = let j = join-Joined 16 f c in rw j.chunks_eq j.octets_eq

  joined-IsCounted : IsCounted (join 16 f).1
  joined-IsCounted =
      let j = join-Joined 16 f c in omega (arith, ap length joined_octets, j.length_eq)

next_from-Frames :
    (fuel : ℕ) (f : PduFramer) (found : List (List ℕ))
    → IsCounted f
    → length (octets f) < fuel
    → Frames (octets f) found (next_from fuel f found)
unfolding next_from
next_from-Frames zero f found c h = elim h [ ]
next_from-Frames (suc fuel) f found c h = elim (Bool-cases (ltb f.total_length 16)) [
  | inl few ↦
      rw few
        (inl (f, [], ap (λ z. some (f, pdus z)) (sym (append-nil found)), c, short (ground arith)))
  | inr many ↦
      let l : 16 ≤ length (octets f) = ground arith in
      let n = read_uint32_be (join 16 f).0 in
      let n_eq = head_cmd_length f c l in
      let cj = joined-IsCounted f c l in
      let joined_eq = joined_octets f c l in
      rw many (elim (Option-cases (framing_refusal n)) [
        | inr (e, bad) ↦
            rw bad
              (inr ((join 16 f).1, [], e, refl, refused l (ap framing_refusal (sym n_eq) ∙ bad)))
        | inl good ↦
            let good' = ap framing_refusal (sym n_eq) ∙ good in
            elim (Bool-cases (ltb f.total_length n)) [
              | inl low ↦
                  rw (good, low)
                    (inl (
                      (join 16 f).1,
                      [],
                      ap (λ z. some ((join 16 f).1, pdus z)) (sym (append-nil found)),
                      cj,
                      subst (λ z. Cuts (octets f) [] (keeps z)) (sym joined_eq)
                          (partial l good' (omega (arith, n_eq, c, ltb→lt f.total_length n low))),
                    ))
              | inr high ↦
                  rw (good, high)
                    (let fits : n ≤ length (octets f) =
                        omega (arith, ltb→le f.total_length n high) in
                      let t = take_pdu-Takes n (join 16 f).1 cj (rw joined_eq fits) in
                      Frames-whole (octets f) found _ _ l good' (rw (← n_eq) fits)
                        (t.pdu_eq ∙ ap (take n) joined_eq ∙ ap (λ k. take k (octets f)) n_eq)
                        (t.octets_eq ∙ ap (drop n) joined_eq ∙ ap (λ k. drop k (octets f)) n_eq)
                        (next_from-Frames fuel _ _ t.counted (
                          omega (
                            arith,
                            ap length t.octets_eq,
                            ap length joined_eq,
                            length-drop n (octets (join 16 f).1),
                            framing_refusal-none n good,
                          ))))
            ]
      ])
]

next-Frames : (f : PduFramer) → IsCounted f → Frames (octets f) [] (next f)
unfolding next
next-Frames f c = next_from-Frames (suc f.total_length) f [] c (omega arith)

-- What `next` answers from `f`, with `g` the framer after it.
abbrev pub CutBy : PduFramer → PduFramer → Framed → Type 0
CutBy f g (pdus ps) = IsCounted g × Cuts (octets f) ps (keeps (octets g))
CutBy f g (err e) = (ps : List (List ℕ)) × Cuts (octets f) ps (refuses e)

Frames-CutBy :
    (f : PduFramer) (o : Option (PduFramer × Framed))
    → Frames (octets f) [] o
    → (g : PduFramer) × (r : Framed) × (o ≡ some (g, r)) × CutBy f g r
Frames-CutBy f o (inl (g, ps, e, c, k)) = (g, pdus ps, e, (c, k))
Frames-CutBy f o (inr (g, ps, x, e, k)) = (g, err x, e, (ps, k))

-- `next` always returns, and what it returns is the octets held and not their chunks: either the
-- complete PDUs at their front, with the octets behind them kept and counted, or the refusal of
-- the first command length that cannot be framed.
pub next-CutBy :
    (f : PduFramer)
    → IsCounted f
    → (g : PduFramer) × (r : Framed) × (next f ≡ some (g, r)) × CutBy f g r
next-CutBy f c = Frames-CutBy f (next f) (next-Frames f c)

push-octets : (chunk : List ℕ) (f : PduFramer) → octets (push chunk f) ≡ octets f ++ chunk
unfolding push flatten
push-octets [] f = sym (append-nil _)
push-octets (x ∷ xs) f =
    rw (ltb-suc (length xs))
      (flatten-append f.chunks _ ∙ ap (◌++◌ (flatten f.chunks)) (append-nil _))

-- A push adds its octets at the end, and the count follows.
pub push-IsCounted :
    (chunk : List ℕ) (f : PduFramer)
    → IsCounted f
    → IsCounted (push chunk f) × (octets (push chunk f) ≡ octets f ++ chunk)
push-IsCounted chunk f c = (
  omega
      (arith, ap length (push-octets chunk f), length-append (octets f) chunk, push-length chunk f),
  push-octets chunk f,
)
