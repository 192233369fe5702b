-- ===== src/SmsId/Segments.antt =====
-- The ids that src/sms-id.ts gives the segments of one message, and how they are read back.
use smpp_js.Prelude.{
  ℕ, ◌+◌, ◌<◌, ◌≡◌, ◌≢◌, refl, sym, ap, ◌∙◌, inl, inr, Bool, true, false, List-cases, Bool-cases,
  Option, none, some, List, [], ◌∷◌, ◌++◌, reverse, append_assoc, ◌==◌, ◌&&◌, ltb, if◌then◌else◌,
  arith,
}
use mathlib.Core.List.{reverse-append, reverse-reverse, reverse-cons}
use smpp_js.Prelude.Digits.{
  decimal as spelled, is_digit, digit_value, number_from, all_of, number-decimal, all_of-decimal,
  decimal_cons,
}
use smpp_js.SmsId.{
  segment_id, Numbering, is_plain, span_digits, split_numbered, parse_segment_id, js_number,
  rounded,
}

all_of-append : (p : ℕ → Bool) (xs ys : List ℕ) → all_of p (xs ++ ys) ≡ (all_of p xs && all_of p ys)
unfolding all_of
all_of-append p [] ys = refl
all_of-append p (x ∷ xs) ys = ground (arith, all_of-append p xs ys)

pub all_of-reverse : (p : ℕ → Bool) (xs : List ℕ) → all_of p (reverse xs) ≡ all_of p xs
unfolding all_of
all_of-reverse p [] = refl
all_of-reverse p (x ∷ xs) =
    rw (reverse-cons x xs)
      (ground (arith, all_of-append p (reverse xs) (x ∷ []), all_of-reverse p xs))

-- Digits and then something that is none are split there.
span_digits-append :
    (ds rest : List ℕ) (c : ℕ)
    → all_of is_digit ds ≡ true
    → is_digit c ≡ false
    → span_digits (ds ++ (c ∷ rest)) ≡ (ds, c ∷ rest)
unfolding span_digits all_of
span_digits-append [] rest c a n = ground arith
span_digits-append (d ∷ ds) rest c a n = ground (arith, span_digits-append ds rest c)

split_dash :
    (base ds : List ℕ) (d : ℕ)
    → all_of is_plain base ≡ true
    → split_numbered (d ∷ ds, b'-' ∷ reverse base)
      ≡ some (record {
        base = base;
        part = js_number (number_from digit_value 10 0 (reverse (d ∷ ds)));
      })
unfolding split_numbered
split_dash base ds d h = rw (all_of-reverse is_plain base, h, reverse-reverse base)

dash_no_digit : is_digit b'-' ≡ false
unfolding is_digit
dash_no_digit = refl

not_one : (total : ℕ) → total ≢ 1 → (total == 1) ≡ false
not_one total h = ground arith

reverse_segment :
    (sms_id ds : List ℕ) → reverse (sms_id ++ (b'-' ∷ ds)) ≡ reverse ds ++ (b'-' ∷ reverse sms_id)
reverse_segment sms_id ds =
    reverse-append sms_id (b'-' ∷ ds)
    ∙ ap (λ z. z ++ reverse sms_id) (reverse-cons b'-' ds)
    ∙ append_assoc (reverse ds) (b'-' ∷ []) (reverse sms_id)

below : (n m : ℕ) → n < m → ltb n m ≡ true
below n m h = ground arith

js_number_exact : (n : ℕ) → n < 9007199254740992 → js_number n ≡ n
unfolding js_number
js_number_exact n h = ap (λ b. if b then n else rounded 972 0 n) (below n 9007199254740992 h)

reverse_ne : (ds : List ℕ) → ds ≢ [] → reverse ds ≢ []
reverse_ne ds ne h = ne (sym (reverse-reverse ds) ∙ ap reverse h)

-- An id that is a base, a dash and digits is read as that base and the number of those digits.
parse_numbered :
    (base ds : List ℕ)
    → ds ≢ []
    → all_of is_digit ds ≡ true
    → all_of is_plain base ≡ true
    → parse_segment_id (base ++ (b'-' ∷ ds))
      ≡ some (record { base = base; part = js_number (number_from digit_value 10 0 ds) })
unfolding parse_segment_id
parse_numbered base ds ne a p = elim (List-cases (reverse ds)) [
  | inl e ↦ absurd (reverse_ne ds ne e)
  | inr (d, rest, e) ↦
      let back : reverse (d ∷ rest) ≡ ds = ap reverse (sym e) ∙ reverse-reverse ds in
      ap (λ z. split_numbered (span_digits z)) (reverse_segment base ds)
      ∙ ap split_numbered (
          span_digits-append (reverse ds) (reverse base) b'-' (all_of-reverse is_digit ds ∙ a)
            dash_no_digit)
      ∙ ap (λ z. split_numbered (z, b'-' ∷ reverse base)) e
      ∙ split_dash base rest d p
      ∙ ap (λ z. some (record { base = base; part = js_number (number_from digit_value 10 0 z) }))
          back
]

spelled_ne : (n : ℕ) → spelled n ≢ []
spelled_ne n h = let (c, cs, e) = decimal_cons n in cc

numbered_back :
    (sms_id : List ℕ) (n : ℕ)
    → n < 9007199254740992
    → all_of is_plain sms_id ≡ true
    → parse_segment_id (sms_id ++ (b'-' ∷ spelled n)) ≡ some (record { base = sms_id; part = n })
numbered_back sms_id n h p =
    parse_numbered sms_id (spelled n) (spelled_ne n) (all_of-decimal n) p
    ∙ ap (λ k. some (record { base = sms_id; part = k }))
        (ap js_number (number-decimal n) ∙ js_number_exact n h)

-- For a message id without a line break and a segment's number below 2 ^ 53: the id of one of several
-- segments is read back as the message's id and the segment's number, from 1; the id of a lone
-- segment is read as the message's own id is.
pub parse-segment_id :
    (sms_id : List ℕ) (index total : ℕ)
    → index + 1 < 9007199254740992
    → all_of is_plain sms_id ≡ true
    → parse_segment_id (segment_id sms_id index total) ≡ (
        if total == 1
        then parse_segment_id sms_id
        else some (record { base = sms_id; part = index + 1 }))
unfolding segment_id
parse-segment_id sms_id index total h p = elim (Bool-cases (total == 1)) [
  | inl alone ↦ rw alone refl
  | inr several ↦ rw several (numbered_back sms_id (index + 1) h p)
]

-- An id that is a base without a line break, a dash and digits, at least one.
abbrev pub IsNumbered : List ℕ → List ℕ → List ℕ → Type 0
IsNumbered sms_id base ds =
    (sms_id ≡ base ++ (b'-' ∷ ds))
    × (ds ≢ [])
    × (all_of is_digit ds ≡ true)
    × (all_of is_plain base ≡ true)

-- What is read of an id: the parts of one that is numbered, or that it is none.
abbrev pub Reads : List ℕ → Option Numbering → Type 0
Reads sms_id none = ¬ ((base : List ℕ) × (ds : List ℕ) × IsNumbered sms_id base ds)
Reads sms_id (some n) =
    (ds : List ℕ) × IsNumbered sms_id n.base ds
    × (n.part ≡ js_number (number_from digit_value 10 0 ds))

-- The same where something is read.
abbrev Found : List ℕ → Option Numbering → Type 0
Found sms_id none = Unit
Found sms_id (some n) = Reads sms_id (some n)
