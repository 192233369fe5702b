-- ===== src/Message/Bodies.antt =====
-- The bodies of `encodeBody`, and the texts that it refuses.
use smpp_js.Prelude.{
  ℕ, ◌+◌, ◌≡◌, ◌≢◌, ◌⊎◌, refl, sym, ap, ◌∙◌, subst, inl, inr, Bool-cases, Option, some, none, List,
  [], ◌∷◌, ◌++◌, length, length-append, flatten, text_eq, arith,
}
use smpp_js.Prelude.Results.{Result, ok, err}
use smpp_js.Constants.{has_udh}
use smpp_js.Encodings.{
  EncodingName, ascii, latin1, ucs2, code_points, encode, decode, detect, Unencodable,
  unencodable_from, unencodable, encoding_by_data_coding, data_coding_by_encoding,
}
use smpp_js.Encodings.Lossless.{IsText}
use smpp_js.Encodings.Alphabet.{ascii_back, latin1_back}
use smpp_js.Message.{BodyError, cannot_carry, encode_message, encode_body, decode_message}
use smpp_js.Message.Points.{Carried, Carried-append, lossless, detect-Carried}
use smpp_js.Message.Split.{flatten-code_points}
use smpp_js.Message.Segments.{data_coding_back}

back-Carried : (e : EncodingName) (t : List ℕ) → IsText t → decode e (encode e t) ≡ t → Carried e t
back-Carried ascii t v h = ascii_back t v h
back-Carried latin1 t v h = latin1_back t h
back-Carried ucs2 t v h = tt

IsText-split : (xs ys : List ℕ) → IsText (xs ++ ys) → IsText xs × IsText ys
IsText-split [] ys v = (tt, v)
IsText-split (x ∷ xs) ys (b, n, v) =
    let (front, back) = IsText-split xs ys v in ((b, n, front), back)

nothing_Carried : (e : EncodingName) → Carried e []
nothing_Carried ascii = tt
nothing_Carried latin1 = tt
nothing_Carried ucs2 = tt

-- Code points that the alphabet gives back, each for itself.
abbrev pub AllBack : EncodingName → List (List ℕ) → Type 0
AllBack e [] = Unit
AllBack e (c ∷ cs) = (decode e (encode e c) ≡ c) × AllBack e cs

-- The first of these code points that the alphabet does not give back, and where it begins from an
-- index on.
abbrev pub IsFirstLost : EncodingName → ℕ → List (List ℕ) → Unencodable → Type 0
IsFirstLost e index cs lost =
    (before : List (List ℕ)) × (after : List (List ℕ)) × (cs ≡ before ++ (lost.char ∷ after))
    × (lost.index ≡ index + length (flatten before))
    × AllBack e before
    × (decode e (encode e lost.char) ≢ lost.char)

-- What the search for a character that is lost says of the code points from an index on.
abbrev Searched : EncodingName → ℕ → List (List ℕ) → Option Unencodable → Type 0
Searched e index cs none = Carried e (flatten cs)
Searched e index cs (some lost) = IsFirstLost e index cs lost

Searched-later :
    (e : EncodingName) (index : ℕ) (char : List ℕ) (cs : List (List ℕ)) (o : Option Unencodable)
    → Carried e char
    → Searched e (index + length char) cs o
    → Searched e index (char ∷ cs) o
unfolding flatten
Searched-later e index char cs none v s = Carried-append e char (flatten cs) v s
Searched-later e index char cs (some lost) v (before, after, cut, at, w, gone) = (
  char ∷ before,
  after,
  ap (◌∷◌ char) cut,
  omega (arith, at, length-append char (flatten before)),
  (lossless e char v, w),
  gone,
)

searched :
    (e : EncodingName) (index : ℕ) (cs : List (List ℕ))
    → IsText (flatten cs)
    → Searched e index cs (unencodable_from e index cs)
unfolding unencodable_from flatten
searched e index [] v = nothing_Carried e
searched e index (char ∷ chars) v =
    let (front, back) = IsText-split char (flatten chars) v in
    elim (Bool-cases (text_eq.beq (decode e (encode e char)) char)) [
      | inl kept ↦
          rw (kept, unencodable_from)
            (Searched-later e index char chars (unencodable_from e (index + length char) chars)
              (back-Carried e char front ((text_eq.beq_iff _ _).0 kept))
              (searched e (index + length char) chars back))
      | inr lost ↦
          rw (lost, unencodable_from)
            (
              [],
              chars,
              refl,
              omega arith,
              tt,
              λ same. cc (sym lost ∙ (text_eq.beq_iff (decode e (encode e char)) char).1 same),
            )
    ]

unencodable-Searched :
    (e : EncodingName) (t : List ℕ) → IsText t → Searched e 0 (code_points t) (unencodable t e)
unfolding unencodable
unencodable-Searched e t v =
    searched e 0 (code_points t) (subst IsText (sym (flatten-code_points t)) v)

-- What `encodeBody` answers for a text: a body that reads back as the text, under the coding that was
-- asked for if one was; or, where one was, the first code point that its alphabet does not give back.
abbrev pub Answers : List ℕ → Option ℕ → Result BodyError (List ℕ × ℕ) → Type 0
Answers t asked (ok (body, data_coding)) =
    (decode_message body data_coding 0 ≡ (t, none)) × ((asked ≡ none) ⊎ (asked ≡ some data_coding))
Answers t asked (err (cannot_carry data_coding e lost)) =
    (asked ≡ some data_coding)
    × (e ≡ encoding_by_data_coding data_coding)
    × IsFirstLost e 0 (code_points t) lost

decoded :
    (e : EncodingName) (data_coding : ℕ) (t : List ℕ)
    → encoding_by_data_coding data_coding ≡ e
    → Carried e t
    → decode_message (encode e t) data_coding 0 ≡ (t, none)
unfolding decode_message has_udh
decoded e data_coding t same v =
    ap (λ d. (decode d (encode e t), none)) same ∙ ap (λ s. (s, none)) (lossless e t v)

answered :
    (data_coding : ℕ) (t : List ℕ) (o : Option Unencodable)
    → Searched (encoding_by_data_coding data_coding) 0 (code_points t) o
    → Answers t (some data_coding) (elim o [
      | some lost ↦ err (cannot_carry data_coding (encoding_by_data_coding data_coding) lost)
      | none ↦ ok (encode (encoding_by_data_coding data_coding) t, data_coding)
    ])
answered data_coding t none v = (
  decoded (encoding_by_data_coding data_coding) data_coding t refl
      (subst (Carried (encoding_by_data_coding data_coding)) (flatten-code_points t) v),
  inr refl,
)
answered data_coding t (some lost) v = (refl, refl, v)

-- For a text of 16-bit units without a raw escape, `encodeBody` either makes a body that reads back
-- as the text, under the coding asked for if one was, or refuses it because of the first code point
-- that the alphabet of that coding does not give back, though it gives back each one before it, and
-- tells the unit at which that begins; without a coding asked for it refuses nothing.
pub encode_body-Answers :
    (t : List ℕ) (asked : Option ℕ) → IsText t → Answers t asked (encode_body t asked)
unfolding encode_body encode_message
encode_body-Answers t none v = (
  decoded (detect t) (data_coding_by_encoding (detect t)) t (data_coding_back (detect t))
      (detect-Carried t v),
  inl refl,
)
encode_body-Answers t (some data_coding) v =
    answered data_coding t (unencodable t (encoding_by_data_coding data_coding))
      (unencodable-Searched (encoding_by_data_coding data_coding) t v)
