-- ===== src/Prelude/Digits.antt =====
-- Digit strings, as lists of character codes: what `String(n)` and `BigInt(text)` do on them.
use Prim.Native.Nat.{ℕ, zero, suc, ◌+◌, ◌-◌, ◌*◌, ◌/◌, ◌%◌, ◌<◌}
use mathlib.Core.Path.{◌≡◌, refl, ap, ◌∙◌}
use mathlib.Core.Logic.{inl, inr}
use mathlib.Core.Bool.{Bool, true, ◌&&◌}
use mathlib.Core.List.{List, [], ◌∷◌}
use native.Mathlib.Omega.{arith}
use smpp_js.Prelude.Tests.{ltb, leb, if◌then◌else◌, Bool-cases, ltb→lt, ltb→le}

unfoldable pub is_digit : ℕ → Bool
is_digit c = leb b'0' c && leb c b'9'

-- The number that a string of digits spells, after the number `acc` read before it.
unfoldable pub number_from : (ℕ → ℕ) → ℕ → ℕ → List ℕ → ℕ
number_from value base acc [] = acc
number_from value base acc (c ∷ cs) = number_from value base (acc * base + value c) cs

abbrev pub digit_value : ℕ → ℕ
digit_value c = c - b'0'

unfoldable pub all_of : (ℕ → Bool) → List ℕ → Bool
all_of p [] = true
all_of p (c ∷ cs) = p c && all_of p cs

-- `String(n)`, its last digit first found; `fuel` rounds are enough for a number below it.
unfoldable pub decimal_from : ℕ → ℕ → List ℕ → List ℕ
decimal_from zero n tail = tail
decimal_from (suc fuel) n tail =
    let rest = decimal_from fuel (n / 10) ((b'0' + n % 10) ∷ tail) in
    if ltb n 10 then (b'0' + n) ∷ tail else rest

unfoldable pub decimal : ℕ → List ℕ
unfolding decimal_from
decimal n = decimal_from (suc n) n []

pub number_from-decimal_from :
    (fuel n : ℕ) (tail : List ℕ)
    → n < fuel
    → number_from digit_value 10 0 (decimal_from fuel n tail) ≡ number_from digit_value 10 n tail
unfolding number_from decimal_from
number_from-decimal_from zero n tail h = elim h [ ]
number_from-decimal_from (suc fuel) n tail h = elim (Bool-cases (ltb n 10)) [
  | inl small ↦ rw (small, decimal_from) (ap (λ k. number_from digit_value 10 k tail) (omega arith))
  | inr big ↦
      rw (big, decimal_from)
        (number_from-decimal_from fuel (n / 10) ((b'0' + n % 10) ∷ tail)
            (omega (arith, ltb→le n 10 big))
          ∙ ap (λ k. number_from digit_value 10 k tail) (omega arith))
]

-- Reading back what `String` wrote.
pub number-decimal : (n : ℕ) → number_from digit_value 10 0 (decimal n) ≡ n
unfolding decimal number_from
number-decimal n = number_from-decimal_from (suc n) n [] (omega arith)

is_digit_of_lt : (d : ℕ) → d < 10 → is_digit (b'0' + d) ≡ true
unfolding is_digit
is_digit_of_lt d h = ground arith

all_of-decimal_from :
    (fuel n : ℕ) (tail : List ℕ)
    → n < fuel
    → all_of is_digit tail ≡ true
    → all_of is_digit (decimal_from fuel n tail) ≡ true
unfolding all_of decimal_from
all_of-decimal_from zero n tail h t = elim h [ ]
all_of-decimal_from (suc fuel) n tail h t = elim (Bool-cases (ltb n 10)) [
  | inl small ↦ rw (small, is_digit_of_lt n (ltb→lt n 10 small)) t
  | inr big ↦ rw big (
      all_of-decimal_from fuel (n / 10) ((b'0' + n % 10) ∷ tail) (omega (arith, ltb→le n 10 big))
        (rw (is_digit_of_lt (n % 10) (omega arith)) t))
]

pub all_of-decimal : (n : ℕ) → all_of is_digit (decimal n) ≡ true
unfolding decimal all_of
all_of-decimal n = all_of-decimal_from (suc n) n [] (omega arith) refl

decimal_from_cons :
    (fuel n : ℕ) (tail : List ℕ)
    → n < fuel
    → (c : ℕ) × (cs : List ℕ) × (decimal_from fuel n tail ≡ c ∷ cs)
unfolding decimal_from
decimal_from_cons zero n tail h = elim h [ ]
decimal_from_cons (suc fuel) n tail h = elim (Bool-cases (ltb n 10)) [
  | inl small ↦ (b'0' + n, tail, rw small)
  | inr big ↦
      let (c, cs, e) =
        decimal_from_cons fuel (n / 10) ((b'0' + n % 10) ∷ tail) (omega (arith, ltb→le n 10 big)) in
      (c, cs, rw big e)
]

pub decimal_cons : (n : ℕ) → (c : ℕ) × (cs : List ℕ) × (decimal n ≡ c ∷ cs)
unfolding decimal
decimal_cons n = decimal_from_cons (suc n) n [] (omega arith)
