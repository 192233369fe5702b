-- ===== src/Encodings/Lossless.antt =====
-- Which texts the alphabets of src/defs/encodings.ts carry and give back.
use smpp_js.Prelude.{
  ℕ, zero, suc, ◌^◌, ◌<◌, ◌≡◌, ◌≢◌, refl, sym, ap, ◌∙◌, inl, inr, Bool, true, false, not, ◌&&◌,
  ◌||◌, Bool-cases, Option-cases, Option, none, some, List, [], ◌∷◌, ◌++◌, map, get_elem?, find,
  nat_eq, ◌==◌, ==_iff, arith,
}
use smpp_js.Prelude.Digits.{all_of}
use mathlib.Core.Path.{ap₂}
use smpp_js.Wire.{index_of}
use smpp_js.Udh.Reads.{AreOctets}
use smpp_js.Encodings.{
  ascii, latin1, ucs2, gsm_chars, gsm_extended_pairs, char_code, base_of, extended_of, escape_char,
  or_else, char_at, escaped_char, escape, unescape, is_high, code_points, code_of, swapped,
  big_endian, encode, decode, is_some, is_gsm, match, detect,
}

-- A text of 16-bit units, and one without a raw escape.
abbrev pub IsText : List ℕ → Type 0
IsText [] = Unit
IsText (c ∷ cs) = (c < 2 ^ 16) × (c ≢ escape_char) × IsText cs

-- A text of GSM characters without a raw escape.
abbrev pub IsGsm : List ℕ → Type 0
IsGsm [] = Unit
IsGsm (c ∷ cs) = (is_gsm c ≡ true) × (c ≢ escape_char) × IsGsm cs

-- What an index found stands at, and what is true of every entry is true of it.
index_of-get :
    (c : ℕ) (xs : List ℕ) (k : ℕ) → index_of (λ d. d == c) xs ≡ some k → get_elem? xs k ≡ some c
index_of-get c [] k h = cc
index_of-get c (x ∷ xs) zero h = ground (arith, Option-cases (index_of (λ (d : ℕ). d == c) xs))
index_of-get c (x ∷ xs) (suc k) h =
    ground (arith, Option-cases (index_of (λ (d : ℕ). d == c) xs), index_of-get c xs k)

all_of_found :
    (p : ℕ → Bool) (c : ℕ) (xs : List ℕ) (k : ℕ)
    → all_of p xs ≡ true
    → index_of (λ d. d == c) xs ≡ some k
    → p c ≡ true
unfolding all_of
all_of_found p c [] k a h = cc
all_of_found p c (x ∷ xs) zero a h = ground (arith, Option-cases (index_of (λ (d : ℕ). d == c) xs))
all_of_found p c (x ∷ xs) (suc k) a h =
    ground (arith, Option-cases (index_of (λ (d : ℕ). d == c) xs), all_of_found p c xs k)

abbrev pub all_pairs : (ℕ → ℕ → Bool) → List (ℕ × ℕ) → Bool
all_pairs p [] = true
all_pairs p ((a, b) ∷ m) = p a b && all_pairs p m

pub all_pairs-find :
    (p : ℕ → ℕ → Bool) (m : List (ℕ × ℕ)) (k v : ℕ)
    → all_pairs p m ≡ true
    → find k m ≡ some v
    → p k v ≡ true
all_pairs-find p [] k v h e = cc
all_pairs-find p ((j, w) ∷ m) k v h e = ground (arith, nat_eq.beq_iff j k, all_pairs-find p m k v)

char_at-char_code : (c k : ℕ) → char_code c ≡ some k → char_at k ≡ c
unfolding char_code char_at
char_at-char_code c k h = ap (or_else 32) (index_of-get c gsm_chars k h)

abbrev is_found : Option ℕ → ℕ → Bool
is_found none n = false
is_found (some m) n = m == n

-- The base of an extended character is in the alphabet and leads back to it.
base_known :
    (c b : ℕ) → base_of c ≡ some b → (is_some (char_code b) && is_found (extended_of b) c) ≡ true
unfolding base_of extended_of char_code
base_known c b h =
    all_pairs-find (λ a x. is_some (char_code x) && is_found (extended_of x) a) gsm_extended_pairs c
      b refl h

false_of_not : (b : Bool) → not b ≡ true → b ≡ false
false_of_not true h = sym h
false_of_not false h = refl

is_found_eq : (o : Option ℕ) (n : ℕ) → is_found o n ≡ true → o ≡ some n
is_found_eq none n h = cc
is_found_eq (some m) n h = ap some ((==_iff m n).0 h)

pub both : (a b : Bool) → (a && b) ≡ true → (a ≡ true) × (b ≡ true)
both true b h = (refl, h)
both false b h = (h, cc)

-- No character of the alphabet is half of a surrogate pair, and neither is an extended one.
pub char_code-not_high : (c k : ℕ) → char_code c ≡ some k → is_high c ≡ false
unfolding char_code gsm_chars all_of
char_code-not_high c k h =
    false_of_not (is_high c) (all_of_found (λ d. not (is_high d)) c gsm_chars k refl h)

base_of-not_high : (c b : ℕ) → base_of c ≡ some b → is_high c ≡ false
unfolding base_of gsm_extended_pairs
base_of-not_high c b h =
    false_of_not (is_high c) (all_pairs-find (λ a x. not (is_high a)) gsm_extended_pairs c b refl h)

unescape_plain : (c : ℕ) (cs : List ℕ) → c ≢ escape_char → unescape (c ∷ cs) ≡ c ∷ unescape cs
unfolding unescape
unescape_plain c [] n = refl
unescape_plain c (d ∷ cs) n = ground arith

unescape_pair :
    (b c : ℕ) (cs : List ℕ)
    → extended_of b ≡ some c
    → unescape (escape_char ∷ b ∷ cs) ≡ c ∷ unescape cs
unfolding unescape
unescape_pair b c cs h = rw h refl

-- A character that is not extended is in the alphabet, and one that is brings its base.
escaped_lem :
    (c : ℕ) (cs : List ℕ)
    → is_gsm c ≡ true
    → c ≢ escape_char
    → unescape (escaped_char c (base_of c) ++ cs) ≡ c ∷ unescape cs
escaped_lem c cs g n = elim (Option-cases (base_of c)) [
  | inl plain ↦ rw plain (unescape_plain c cs n)
  | inr (b, found) ↦ rw found (
      unescape_pair b c cs (
        is_found_eq (extended_of b) c
          (both (is_some (char_code b)) (is_found (extended_of b) c) (base_known c b found)).1))
]

unescape-escape : (t : List ℕ) → IsGsm t → unescape (escape t) ≡ t
unfolding escape unescape
unescape-escape [] v = refl
unescape-escape (c ∷ t) (g, n, v) = escaped_lem c (escape t) g n ∙ ap (◌∷◌ c) (unescape-escape t v)

-- Characters of the alphabet itself, as an escaped text has.
abbrev pub IsBasic : List ℕ → Type 0
IsBasic [] = Unit
IsBasic (c ∷ cs) = (is_some (char_code c) ≡ true) × IsBasic cs

escape_known : is_some (char_code escape_char) ≡ true
unfolding char_code
escape_known = refl

one_of : (a b : Bool) → (a || b) ≡ true → b ≡ false → a ≡ true
one_of true b h n = refl
one_of false b h n = sym n ∙ h

plain_known : (c : ℕ) → is_gsm c ≡ true → base_of c ≡ none → is_some (char_code c) ≡ true
unfolding is_gsm
plain_known c g n = one_of (is_some (char_code c)) (is_some (base_of c)) g (ap is_some n)

escaped-IsBasic :
    (c : ℕ) (cs : List ℕ)
    → is_gsm c ≡ true
    → IsBasic cs
    → IsBasic (escaped_char c (base_of c) ++ cs)
escaped-IsBasic c cs g v = elim (Option-cases (base_of c)) [
  | inl plain ↦ rw plain (plain_known c g plain, v)
  | inr (b, found) ↦ rw found (
    escape_known,
    ((both (is_some (char_code b)) (is_found (extended_of b) c) (base_known c b found)).0, v),
  )
]

pub escape-IsBasic : (t : List ℕ) → IsGsm t → IsBasic (escape t)
unfolding escape
escape-IsBasic [] v = tt
escape-IsBasic (c ∷ t) (g, n, v) = escaped-IsBasic c (escape t) g (escape-IsBasic t v)

pub is_some-cases : (o : Option ℕ) → is_some o ≡ true → (k : ℕ) × (o ≡ some k)
is_some-cases none h = cc
is_some-cases (some k) h = (k, refl)

char_back : (c : ℕ) → is_some (char_code c) ≡ true → char_at (code_of (c ∷ [])) ≡ c
unfolding code_of
char_back c h = let (k, e) = is_some-cases (char_code c) h in rw e (char_at-char_code c k e)

points-IsBasic : (t : List ℕ) → IsBasic t → map char_at (map code_of (code_points t)) ≡ t
unfolding code_points
points-IsBasic [] v = refl
points-IsBasic (c ∷ []) (h, v) = ap (λ x. x ∷ []) (char_back c h)
points-IsBasic (c ∷ d ∷ cs) (h, v) =
    let (k, e) = is_some-cases (char_code c) h in
    rw (char_code-not_high c k e) (ap₂ ◌∷◌ (char_back c h) (points-IsBasic (d ∷ cs) v))

-- A text of GSM characters without a raw escape comes back.
pub ascii_lossless : (t : List ℕ) → IsGsm t → decode ascii (encode ascii t) ≡ t
unfolding decode encode
ascii_lossless t v =
    ap unescape (points-IsBasic (escape t) (escape-IsBasic t v)) ∙ unescape-escape t v

pub latin1_lossless : (t : List ℕ) → AreOctets t → decode latin1 (encode latin1 t) ≡ t
unfolding decode encode
latin1_lossless [] o = refl
latin1_lossless (c ∷ t) (b, o) = ap₂ ◌∷◌ (omega (arith, b)) (latin1_lossless t o)

pub ucs2_lossless : (t : List ℕ) → decode ucs2 (encode ucs2 t) ≡ t
unfolding decode encode swapped big_endian
ucs2_lossless [] = refl
ucs2_lossless (c ∷ t) = ap₂ ◌∷◌ (omega arith) (ucs2_lossless t)

pub IsGsm-of_match : (t : List ℕ) → IsText t → match ascii t ≡ true → IsGsm t
unfolding match all_of
IsGsm-of_match [] v h = tt
IsGsm-of_match (c ∷ t) (b, n, v) h =
    let (g, rest) = both (is_gsm c) (all_of is_gsm t) h in (g, n, IsGsm-of_match t v rest)

-- The alphabet that is detected for a text carries all of it, as long as no raw escape stands in it.
pub detect_lossless : (t : List ℕ) → IsText t → decode (detect t) (encode (detect t) t) ≡ t
unfolding detect match
detect_lossless t v = elim (Bool-cases (match ascii t)) [
  | inl all ↦ rw (all, detect) (ascii_lossless t (IsGsm-of_match t v all))
  | inr some_other ↦ rw (some_other, detect) (ucs2_lossless t)
]
