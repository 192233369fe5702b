-- ===== src/Message/Split.antt =====
-- The parts that `splitMessage` cuts a text into.
use smpp_js.Prelude.{
  ℕ, suc, ◌+◌, ◌*◌, ◌&&◌, ◌≤◌, ◌≡◌, refl, sym, ap, ◌∙◌, subst, inl, inr, Bool-cases, List, [], ◌∷◌,
  ◌++◌, append_assoc, map, length, length-append, flatten, Option-cases, ltb, arith, ltb→lt, ltb→le,
}
use smpp_js.Encodings.{
  EncodingName, ascii, latin1, ucs2, base_of, escape, is_high, is_low, code_points, encode,
  big_endian,
}
use smpp_js.Message.{split_from}
use smpp_js.Message.Points.{Carried, Carried-append, Carried-split, encode-append, encode_gsm}

map-length : (f : ℕ → ℕ) (xs : List ℕ) → length (map f xs) ≡ length xs
map-length f [] = refl
map-length f (x ∷ xs) = ap suc (map-length f xs)

-- The code points of a text are of one or two units, and put together they are the text.
abbrev Short : List (List ℕ) → Type 0
Short [] = Unit
Short (c ∷ cs) = (length c ≤ 2) × Short cs

code_points-Short : (t : List ℕ) → Short (code_points t)
unfolding code_points
code_points-Short [] = tt
code_points-Short (c ∷ []) = (omega arith, tt)
code_points-Short (c ∷ d ∷ cs) = elim (Bool-cases (is_high c && is_low d)) [
  | inl pair ↦ rw pair (omega arith, code_points-Short cs)
  | inr one ↦ rw one (omega arith, code_points-Short (d ∷ cs))
]

pub flatten-code_points : (t : List ℕ) → flatten (code_points t) ≡ t
unfolding code_points flatten
flatten-code_points [] = refl
flatten-code_points (c ∷ []) = refl
flatten-code_points (c ∷ d ∷ cs) = elim (Bool-cases (is_high c && is_low d)) [
  | inl pair ↦ rw pair (ap (λ t. c ∷ d ∷ t) (flatten-code_points cs))
  | inr one ↦ rw one (ap (◌∷◌ c) (flatten-code_points (d ∷ cs)))
]

escape-length : (t : List ℕ) → length (escape t) ≤ 2 * length t
unfolding escape
escape-length [] = omega arith
escape-length (c ∷ t) = elim (Option-cases (base_of c)) [
  | inl plain ↦ rw plain (omega (arith, escape-length t))
  | inr (b, found) ↦ rw found (omega (arith, escape-length t))
]

big_endian-length : (t : List ℕ) → length (big_endian t) ≡ 2 * length t
unfolding big_endian
big_endian-length [] = refl
big_endian-length (c ∷ t) = omega (arith, big_endian-length t)

-- No alphabet needs more than two octets for a unit.
pub encode-length :
    (e : EncodingName) (t : List ℕ) → Carried e t → length (encode e t) ≤ 2 * length t
unfolding encode
encode-length ascii t v =
    subst (λ n. n ≤ 2 * length t) (sym (ap length (encode_gsm t v) ∙ map-length _ (escape t)))
      (escape-length t)
encode-length latin1 t v = subst (λ n. n ≤ 2 * length t) (sym (map-length _ t)) (omega arith)
encode-length ucs2 t v = omega (arith, big_endian-length t)

-- Pieces that the alphabet carries, in four octets at most.
abbrev pub Pieces : EncodingName → List (List ℕ) → Type 0
Pieces e [] = Unit
Pieces e (c ∷ cs) = Carried e c × (length (encode e c) ≤ 4) × Pieces e cs

pieces : (e : EncodingName) (cs : List (List ℕ)) → Short cs → Carried e (flatten cs) → Pieces e cs
unfolding flatten
pieces e [] s v = tt
pieces e (c ∷ cs) (n, s) v =
    let (front, back) = Carried-split e c (flatten cs) v in
    (front, omega (arith, n, encode-length e c front), pieces e cs s back)

pub code_points-Pieces : (e : EncodingName) (t : List ℕ) → Carried e t → Pieces e (code_points t)
code_points-Pieces e t v =
    pieces e (code_points t) (code_points-Short t)
      (subst (Carried e) (sym (flatten-code_points t)) v)

-- The parts are the text cut in pieces, whatever the budget.
pub split_from-flatten :
    (e : EncodingName) (budget : ℕ) (cs : List (List ℕ)) (current : List ℕ) (used : ℕ)
    → flatten (split_from e budget cs current used) ≡ current ++ flatten cs
unfolding split_from flatten
split_from-flatten e budget [] [] used = refl
split_from-flatten e budget [] (c ∷ cs) used = refl
split_from-flatten e budget (char ∷ chars) current used =
    elim (Bool-cases (ltb budget (used + length (encode e char)))) [
      | inl full ↦
          rw (full, split_from)
            (ap (◌++◌ current) (split_from-flatten e budget chars char (length (encode e char))))
      | inr room ↦
          rw (room, split_from)
            (split_from-flatten e budget chars (current ++ char) (used + length (encode e char))
              ∙ append_assoc current char (flatten chars))
    ]

-- Parts that are carried within the budget.
abbrev pub Fit : EncodingName → ℕ → List (List ℕ) → Type 0
Fit e budget [] = Unit
Fit e budget (p ∷ ps) = Carried e p × (length (encode e p) ≤ budget) × Fit e budget ps

-- The part begun, together with a code point that has room in it.
joined :
    (e : EncodingName) (current char : List ℕ) (budget : ℕ)
    → Carried e current
    → Carried e char
    → length (encode e current) + length (encode e char) ≤ budget
    → (length (encode e (current ++ char)) ≡ length (encode e current) + length (encode e char))
      × (length (encode e (current ++ char)) ≤ budget)
joined e current char budget v w room =
    let eq =
      ap length (encode-append e current char v w)
      ∙ length-append (encode e current) (encode e char) in
    (eq, subst (λ n. n ≤ budget) (sym eq) room)

pub split_from-Fit :
    (e : EncodingName) (budget : ℕ) (cs : List (List ℕ)) (current : List ℕ)
    → 4 ≤ budget
    → Pieces e cs
    → Carried e current
    → length (encode e current) ≤ budget
    → Fit e budget (split_from e budget cs current (length (encode e current)))
unfolding split_from
split_from-Fit e budget [] [] big ps v n = tt
split_from-Fit e budget [] (c ∷ cs) big ps v n = (v, n, tt)
split_from-Fit e budget (char ∷ chars) current big (w, m, ps) v n =
    elim (Bool-cases (ltb budget (length (encode e current) + length (encode e char)))) [
      | inl full ↦
          rw (full, split_from)
            (v, n, split_from-Fit e budget chars char big ps w (omega (arith, m, big)))
      | inr room ↦
          let fits = joined e current char budget v w (ltb→le _ _ room) in
          rw (room, split_from)
            (subst (λ used. Fit e budget (split_from e budget chars (current ++ char) used)) fits.0
              (split_from-Fit e budget chars (current ++ char) big ps
                (Carried-append e current char v w) fits.1))
    ]

-- The units that pieces need, each for itself.
abbrev pub cost : EncodingName → List (List ℕ) → ℕ
cost e [] = 0
cost e (c ∷ cs) = length (encode e c) + cost e cs

pub cost-flatten :
    (e : EncodingName) (cs : List (List ℕ))
    → Pieces e cs
    → Carried e (flatten cs)
    → length (encode e (flatten cs)) ≡ cost e cs
unfolding flatten encode
cost-flatten ascii [] ps v = refl
cost-flatten latin1 [] ps v = refl
cost-flatten ucs2 [] ps v = refl
cost-flatten e (c ∷ cs) (w, m, ps) v =
    let (front, back) = Carried-split e c (flatten cs) v in
    ap length (encode-append e c (flatten cs) front back)
    ∙ length-append (encode e c) (encode e (flatten cs))
    ∙ ap (◌+◌ (length (encode e c))) (cost-flatten e cs ps back)

-- A part is only ended when it uses all but three units of the budget.
pub split_from-count :
    (e : EncodingName) (budget : ℕ) (cs : List (List ℕ)) (current : List ℕ) (used : ℕ)
    → 134 ≤ budget
    → Pieces e cs
    → 131 * length (split_from e budget cs current used) ≤ used + cost e cs + 131
unfolding split_from
split_from-count e budget [] [] used big ps = omega arith
split_from-count e budget [] (c ∷ cs) used big ps = omega arith
split_from-count e budget (char ∷ chars) current used big (w, m, ps) =
    elim (Bool-cases (ltb budget (used + length (encode e char)))) [
      | inl full ↦
          rw (full, split_from)
            (omega (
              arith,
              m,
              big,
              ltb→lt _ _ full,
              split_from-count e budget chars char (length (encode e char)) big ps,
            ))
      | inr room ↦
          rw (room, split_from)
            (omega (
              arith,
              split_from-count e budget chars (current ++ char) (used + length (encode e char)) big
                  ps,
            ))
    ]
