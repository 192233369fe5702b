-- ===== src/SmsId/Numbers.antt =====
-- What `normaliseSmsId` of src/sms-id.ts makes of two spellings of one number.
use smpp_js.Prelude.{
  ℕ, ◌≤◌, ◌≡◌, ◌↔◌, refl, sym, ap, ◌∙◌, inl, inr, true, false, Bool-cases, some, List, [], ◌∷◌,
  length, ltb, ltb→le, arith,
}
use smpp_js.Prelude.Digits.{
  decimal as spelled, is_digit, all_of, number-decimal, all_of-decimal, decimal_cons,
}
use smpp_js.SmsId.{
  SmsIdNotation, decimal, hex, is_hex, max_id_length, spells, value_of, normalise_sms_id,
}

normalise-spelled :
    (id : List ℕ) (n : SmsIdNotation)
    → length id ≤ max_id_length
    → spells n id ≡ true
    → normalise_sms_id id (some n) ≡ spelled (value_of n id)
unfolding normalise_sms_id
normalise-spelled id n l s = ground arith

value_of-spelled : (k : ℕ) → value_of decimal (spelled k) ≡ k
unfolding value_of
value_of-spelled k = number-decimal k

-- Two ids, each of at most 64 digits of its notation, are given the same text exactly when they
-- spell the same number.
pub normalise-eq_iff :
    (a b : List ℕ) (n m : SmsIdNotation)
    → length a ≤ max_id_length
    → length b ≤ max_id_length
    → spells n a ≡ true
    → spells m b ≡ true
    → (normalise_sms_id a (some n) ≡ normalise_sms_id b (some m)) ↔ (value_of n a ≡ value_of m b)
normalise-eq_iff a b n m la lb sa sb =
    let ea = normalise-spelled a n la sa in
    let eb = normalise-spelled b m lb sb in
    (
      λ h.
          sym (value_of-spelled (value_of n a))
          ∙ ap (value_of decimal) (sym ea ∙ h ∙ eb)
          ∙ value_of-spelled (value_of m b),
      λ h. ea ∙ ap spelled h ∙ sym eb,
    )

spells-spelled : (k : ℕ) → spells decimal (spelled k) ≡ true
unfolding spells
spells-spelled k = let (c, cs, e) = decimal_cons k in rw e (rw e at (all_of-decimal k))

is_hex_of_digit : (c : ℕ) → is_digit c ≡ true → is_hex c ≡ true
unfolding is_hex
is_hex_of_digit c h = rw h

all_hex : (cs : List ℕ) → all_of is_digit cs ≡ true → all_of is_hex cs ≡ true
unfolding all_of
all_hex [] h = refl
all_hex (c ∷ cs) h = ground (arith, is_hex_of_digit c, all_hex cs)

spells_hex : (n : SmsIdNotation) (id : List ℕ) → spells decimal id ≡ true → spells n id ≡ true
unfolding spells
spells_hex decimal id h = h
spells_hex hex [] h = h
spells_hex hex (c ∷ cs) h = all_hex (c ∷ cs) h

spelled_again : (k : ℕ) → normalise_sms_id (spelled k) (some decimal) ≡ spelled k
unfolding normalise_sms_id
spelled_again k = ground (arith, spells-spelled k, value_of-spelled k)

normalise_long :
    (id : List ℕ) (n : SmsIdNotation)
    → ltb max_id_length (length id) ≡ true
    → normalise_sms_id id (some n) ≡ id
unfolding normalise_sms_id
normalise_long id n h = ground arith

normalise_other :
    (id : List ℕ) (n : SmsIdNotation) → spells n id ≡ false → normalise_sms_id id (some n) ≡ id
unfolding normalise_sms_id
normalise_other id n h = ground arith

not_decimal : (n : SmsIdNotation) (id : List ℕ) → spells n id ≡ false → spells decimal id ≡ false
not_decimal n id h = ground (arith, spells_hex n id)

-- Normalising is final: reading a normalised id as a decimal one once more changes nothing,
-- whatever the id and the notation were.
pub normalise_idempotent :
    (id : List ℕ) (n : SmsIdNotation)
    → normalise_sms_id (normalise_sms_id id (some n)) (some decimal) ≡ normalise_sms_id id (some n)
normalise_idempotent id n = elim (Bool-cases (ltb max_id_length (length id))) [
  | inl long ↦ again id (normalise_long id n long) (normalise_long id decimal long)
  | inr short ↦ elim (Bool-cases (spells n id)) [
    | inl reads ↦
        again (spelled (value_of n id)) (normalise-spelled id n (ltb→le _ _ short) reads)
          (spelled_again (value_of n id))
    | inr other ↦
        again id (normalise_other id n other) (normalise_other id decimal (not_decimal n id other))
  ]
]
  where
    again :
        (r : List ℕ)
        → normalise_sms_id id (some n) ≡ r
        → normalise_sms_id r (some decimal) ≡ r
        → normalise_sms_id (normalise_sms_id id (some n)) (some decimal)
          ≡ normalise_sms_id id (some n)
    again r e f = ap (λ z. normalise_sms_id z (some decimal)) e ∙ f ∙ sym e
