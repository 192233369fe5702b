-- ===== src/Encodings/Alphabet.antt =====
-- What octets decode to in the alphabets of src/defs/encodings.ts, and so what comes back from them.
use smpp_js.Prelude.{
  ℕ, zero, suc, ◌≡◌, refl, subst, inl, inr, Bool, true, false, ◌&&◌, ◌||◌, Bool-cases, Option-cases,
  some, List, [], ◌∷◌, map, get_elem?, nat_eq, ◌==◌, arith,
}
use smpp_js.Prelude.Digits.{all_of}
use smpp_js.Wire.{index_of}
use smpp_js.Udh.Reads.{AreOctets}
use smpp_js.Encodings.{
  ascii, latin1, gsm_chars, gsm_extended_pairs, char_code, base_of, extended_of, escape_char,
  char_at, unescape, encode, decode, is_some, is_gsm,
}
use smpp_js.Encodings.Lossless.{IsText, IsGsm, both, all_pairs-find}

index_of-held :
    (xs : List ℕ) (k c : ℕ) → get_elem? xs k ≡ some c → is_some (index_of (λ d. d == c) xs) ≡ true
index_of-held [] k c h = cc
index_of-held (x ∷ xs) zero c h = ground (arith, Option-cases (index_of (λ (d : ℕ). d == c) xs))
index_of-held (x ∷ xs) (suc k) c h =
    ground (arith, Option-cases (index_of (λ (d : ℕ). d == c) xs), index_of-held xs k c h)

or_true : (a b : Bool) → a ≡ true → (a || b) ≡ true
or_true true b h = refl
or_true false b h = cc

or_true_right : (a b : Bool) → b ≡ true → (a || b) ≡ true
or_true_right true b h = refl
or_true_right false b h = h

is_gsm_space : is_gsm b' ' ≡ true
unfolding is_gsm char_code
is_gsm_space = refl

is_gsm_of_get : (byte c : ℕ) → get_elem? gsm_chars byte ≡ some c → is_gsm c ≡ true
unfolding is_gsm char_code
is_gsm_of_get byte c h = or_true _ (is_some (base_of c)) (index_of-held gsm_chars byte c h)

is_gsm-char_at : (byte : ℕ) → is_gsm (char_at byte) ≡ true
unfolding char_at
is_gsm-char_at byte = elim (Option-cases (get_elem? gsm_chars byte)) [
  | inl beyond ↦ rw beyond is_gsm_space
  | inr (c, found) ↦ rw found (is_gsm_of_get byte c found)
]

is_gsm_extended : (d c : ℕ) → extended_of d ≡ some c → is_gsm c ≡ true
unfolding extended_of is_gsm base_of
is_gsm_extended d c h = or_true_right (is_some (char_code c)) _ (
    all_pairs-find (λ b x. is_some (base_of x)) (map (λ p. (p.1, p.0)) gsm_extended_pairs) d c refl
      h)

join : (a b : Bool) → a ≡ true → b ≡ true → (a && b) ≡ true
join true b h g = g
join false b h g = h

unescape_gsm : (t : List ℕ) → all_of is_gsm t ≡ true → all_of is_gsm (unescape t) ≡ true
unfolding unescape all_of
unescape_gsm [] h = refl
unescape_gsm (c ∷ []) h = h
unescape_gsm (c ∷ d ∷ cs) h =
    let (g, rest) = both (is_gsm c) (all_of is_gsm (d ∷ cs)) h in
    let (_, last) = both (is_gsm d) (all_of is_gsm cs) rest in
    elim (Bool-cases (c == escape_char)) [
      | inr plain ↦ rw plain (join (is_gsm c) _ g (unescape_gsm (d ∷ cs) rest))
      | inl raw ↦ elim (Option-cases (extended_of d)) [
        | inl plain ↦ rw (raw, plain) (join (is_gsm c) _ g (unescape_gsm (d ∷ cs) rest))
        | inr (x, found) ↦
            rw (raw, found) (join (is_gsm x) _ (is_gsm_extended d x found) (unescape_gsm cs last))
      ]
    ]

chars_gsm : (bs : List ℕ) → all_of is_gsm (map char_at bs) ≡ true
unfolding all_of
chars_gsm [] = refl
chars_gsm (b ∷ bs) = join (is_gsm (char_at b)) _ (is_gsm-char_at b) (chars_gsm bs)

-- Whatever octets decode in the GSM alphabet, they decode to characters of it.
pub decode_gsm : (bs : List ℕ) → all_of is_gsm (decode ascii bs) ≡ true
unfolding decode
decode_gsm bs = unescape_gsm (map char_at bs) (chars_gsm bs)

IsGsm-of_all : (t : List ℕ) → IsText t → all_of is_gsm t ≡ true → IsGsm t
unfolding all_of
IsGsm-of_all [] v h = tt
IsGsm-of_all (c ∷ t) (b, n, v) h =
    let (g, rest) = both (is_gsm c) (all_of is_gsm t) h in (g, n, IsGsm-of_all t v rest)

-- What comes back from the GSM alphabet is a text of it, and from Latin-1 one of octets.
pub ascii_back : (t : List ℕ) → IsText t → decode ascii (encode ascii t) ≡ t → IsGsm t
ascii_back t v h =
    IsGsm-of_all t v (subst (λ s. all_of is_gsm s ≡ true) h (decode_gsm (encode ascii t)))

heads : {a b : ℕ} {xs ys : List ℕ} → a ∷ xs ≡ b ∷ ys → (a ≡ b) × (xs ≡ ys)
heads h = (cc, cc)

pub latin1_back : (t : List ℕ) → decode latin1 (encode latin1 t) ≡ t → AreOctets t
unfolding decode encode
latin1_back [] h = tt
latin1_back (c ∷ t) h = let (e, rest) = heads h in (omega (arith, e), latin1_back t rest)
