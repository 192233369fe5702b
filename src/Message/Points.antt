-- ===== src/Message/Points.antt =====
-- What an alphabet carries, and how a text is put together from its code points.
use smpp_js.Prelude.{
  ℕ, ◌/◌, ◌%◌, ◌≡◌, refl, sym, ap, ◌∙◌, inl, inr, Bool-cases, List, [], ◌∷◌, ◌++◌, append_assoc,
  map,
}
use mathlib.Core.Path.{ap₂}
use smpp_js.Udh.Reads.{AreOctets}
use smpp_js.Encodings.{
  EncodingName, ascii, latin1, ucs2, char_code, base_of, escaped_char, escape, code_points, code_of,
  big_endian, encode, decode, detect, match,
}
use smpp_js.Encodings.Lossless.{
  IsText, IsGsm, IsBasic, is_some-cases, char_code-not_high, escape-IsBasic, ascii_lossless,
  latin1_lossless, ucs2_lossless, IsGsm-of_match,
}

-- The alphabet carries the text: GSM characters without a raw escape, octets, or anything.
abbrev pub Carried : EncodingName → List ℕ → Type 0
Carried ascii t = IsGsm t
Carried latin1 t = AreOctets t
Carried ucs2 t = Unit

pub lossless : (e : EncodingName) (t : List ℕ) → Carried e t → decode e (encode e t) ≡ t
lossless ascii t v = ascii_lossless t v
lossless latin1 t v = latin1_lossless t v
lossless ucs2 t v = ucs2_lossless t

pub detect-Carried : (t : List ℕ) → IsText t → Carried (detect t) t
unfolding detect match
detect-Carried t v = elim (Bool-cases (match ascii t)) [
  | inl all ↦ rw (all, detect) (IsGsm-of_match t v all)
  | inr some_other ↦ rw (some_other, detect) tt
]

pub Carried-append :
    (e : EncodingName) (xs ys : List ℕ) → Carried e xs → Carried e ys → Carried e (xs ++ ys)
Carried-append ascii [] ys v w = w
Carried-append ascii (x ∷ xs) ys (a, b, v) w = (a, b, Carried-append ascii xs ys v w)
Carried-append latin1 [] ys v w = w
Carried-append latin1 (x ∷ xs) ys (a, v) w = (a, Carried-append latin1 xs ys v w)
Carried-append ucs2 xs ys v w = tt

pub Carried-split :
    (e : EncodingName) (xs ys : List ℕ) → Carried e (xs ++ ys) → Carried e xs × Carried e ys
Carried-split ascii [] ys v = (tt, v)
Carried-split ascii (x ∷ xs) ys (a, b, v) =
    let (front, back) = Carried-split ascii xs ys v in ((a, b, front), back)
Carried-split latin1 [] ys v = (tt, v)
Carried-split latin1 (x ∷ xs) ys (a, v) =
    let (front, back) = Carried-split latin1 xs ys v in ((a, front), back)
Carried-split ucs2 xs ys v = (tt, tt)

points-singles :
    (t : List ℕ) → IsBasic t → map code_of (code_points t) ≡ map (λ c. code_of (c ∷ [])) t
unfolding code_points
points-singles [] v = refl
points-singles (c ∷ []) v = refl
points-singles (c ∷ d ∷ cs) (h, v) =
    let (k, e) = is_some-cases (char_code c) h in
    rw (char_code-not_high c k e) (ap (◌∷◌ (code_of (c ∷ []))) (points-singles (d ∷ cs) v))

escape-append : (xs ys : List ℕ) → escape (xs ++ ys) ≡ escape xs ++ escape ys
unfolding escape
escape-append [] ys = refl
escape-append (x ∷ xs) ys =
    ap (◌++◌ (escaped_char x (base_of x))) (escape-append xs ys)
    ∙ sym (append_assoc (escaped_char x (base_of x)) (escape xs) (escape ys))

map-append_all : (f : ℕ → ℕ) (xs ys : List ℕ) → map f (xs ++ ys) ≡ map f xs ++ map f ys
map-append_all f [] ys = refl
map-append_all f (x ∷ xs) ys = ap (◌∷◌ (f x)) (map-append_all f xs ys)

pub encode_gsm : (t : List ℕ) → IsGsm t → encode ascii t ≡ map (λ c. code_of (c ∷ [])) (escape t)
unfolding encode
encode_gsm t v = points-singles (escape t) (escape-IsBasic t v)

-- Texts that are carried are encoded piece by piece.
pub encode-append :
    (e : EncodingName) (xs ys : List ℕ)
    → Carried e xs
    → Carried e ys
    → encode e (xs ++ ys) ≡ encode e xs ++ encode e ys
unfolding encode big_endian
encode-append ascii xs ys v w =
    encode_gsm (xs ++ ys) (Carried-append ascii xs ys v w)
    ∙ ap (map (λ c. code_of (c ∷ []))) (escape-append xs ys)
    ∙ map-append_all (λ c. code_of (c ∷ [])) (escape xs) (escape ys)
    ∙ ap₂ ◌++◌ (sym (encode_gsm xs v)) (sym (encode_gsm ys w))
encode-append latin1 xs ys v w = map-append_all (λ c. c % 256) xs ys
encode-append ucs2 [] ys v w = refl
encode-append ucs2 (x ∷ xs) ys v w =
    ap (λ bs. (x / 256) ∷ (x % 256) ∷ bs) (encode-append ucs2 xs ys tt tt)
