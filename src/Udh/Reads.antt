-- ===== src/Udh/Reads.antt =====
-- The reads of `concatInfo` in src/udh.ts, on any octets.
use smpp_js.Prelude.{
  ℕ, zero, suc, ◌+◌, ◌*◌, ◌^◌, ◌≤◌, ◌<◌, ◌≡◌, refl, ◌∙◌, Bool, true, false, ◌&&◌, Option, none,
  some, List, [], ◌∷◌, ltb→le, length, get_elem?, length-take, length-drop, Bool-cases, inl, inr,
  take, drop, min, ltb, ◌==◌, if◌then◌else◌, arith,
}
use smpp_js.Udh.{ConcatInfo, concat_at, walk, concat_info}

-- Octets.
abbrev pub AreOctets : List ℕ → Type 0
AreOctets [] = Unit
AreOctets (x ∷ xs) = (x < 256) × AreOctets xs

-- A numbering that was found is one that its fields can hold.
abbrev pub IsHeld : Option ConcatInfo → Type 0
IsHeld none = Unit
IsHeld (some info) = (info.part < 256) × (info.total < 256) × (info.reference < 2 ^ 16)

take-AreOctets : (n : ℕ) (xs : List ℕ) → AreOctets xs → AreOctets (take n xs)
take-AreOctets zero xs o = tt
take-AreOctets (suc n) [] o = tt
take-AreOctets (suc n) (x ∷ xs) (b, o) = (b, take-AreOctets n xs o)

drop-AreOctets : (n : ℕ) (xs : List ℕ) → AreOctets xs → AreOctets (drop n xs)
drop-AreOctets zero xs o = o
drop-AreOctets (suc n) [] o = tt
drop-AreOctets (suc n) (x ∷ xs) (b, o) = drop-AreOctets n xs o

-- The octet at a place within.
octet_held :
    (xs : List ℕ) (i : ℕ)
    → AreOctets xs
    → i < length xs
    → (x : ℕ) × (get_elem? xs i ≡ some x) × (x < 256)
octet_held [] i o h = absurd (omega (arith, h))
octet_held (x ∷ xs) zero (b, o) h = (x, refl, b)
octet_held (x ∷ xs) (suc i) (b, o) h = octet_held xs i o (omega (arith, h))

-- The numbering that is read from an element whose octets are all there.
abbrev IsRead : Option (Option ConcatInfo) → Type 0
IsRead read = (found : Option ConcatInfo) × (read ≡ some found) × IsHeld found

lengths : (a b c d : ℕ) → ((a == c) && (b == d)) ≡ true → b ≡ d
lengths a b c d h = ground arith

concat_at-IsHeld :
    (iei n : ℕ) (info : List ℕ) → AreOctets info → length info ≡ n → IsRead (concat_at iei n info)
unfolding concat_at
concat_at-IsHeld iei n info o l = elim (Bool-cases (iei == 0 && n == 3)) [
  | inl short ↦
      let size : length info ≡ 3 = l ∙ lengths iei n 0 3 short in
      let (a, ae, ab) = octet_held info 0 o (omega (arith, size)) in
      let (b, be, bb) = octet_held info 1 o (omega (arith, size)) in
      let (c, ce, cb) = octet_held info 2 o (omega (arith, size)) in
      rw (short, ae, be, ce)
        (some (record { part = c; reference = a; total = b }), refl, (cb, bb, omega (arith, ab)))
  | inr not_short ↦ elim (Bool-cases (iei == 8 && n == 4)) [
    | inl long ↦
        let size : length info ≡ 4 = l ∙ lengths iei n 8 4 long in
        let (a, ae, ab) = octet_held info 0 o (omega (arith, size)) in
        let (b, be, bb) = octet_held info 1 o (omega (arith, size)) in
        let (c, ce, cb) = octet_held info 2 o (omega (arith, size)) in
        let (d, de, db) = octet_held info 3 o (omega (arith, size)) in
        rw (not_short, long, ae, be, ce, de)
          (
            some (record { part = d; reference = a * 256 + b; total = c }),
            refl,
            (db, cb, omega (arith, ab, bb)),
          )
    | inr neither ↦ rw (not_short, neither) (none, refl, tt)
  ]
]

-- One round where the kind and the length are read: the element is cut off, or its answer or the
-- rest's holds.
round :
    (is_cut : Bool) (read rest : Option (Option ConcatInfo))
    → (is_cut ≡ false → IsRead read × IsRead rest)
    → IsRead (
        if is_cut
        then some none
        else (elim read [ none ↦ none | some none ↦ rest | some (some info) ↦ some (some info) ]))
round true read rest h = (none, refl, tt)
round false none rest h = let ((found, e, v), r) = h refl in absurd (cc)
round false (some none) rest h = (h refl).1
round false (some (some info)) rest h = (h refl).0

whole_element : (m : List ℕ) (n k : ℕ) → k + n ≤ length m → length (take n (drop k m)) ≡ n
whole_element m n k h = omega (arith, h, length-take n (drop k m), length-drop k m)

walk-IsHeld :
    (fuel : ℕ) (m : List ℕ) (last offset : ℕ)
    → AreOctets m
    → last ≤ length m
    → 0 < fuel
    → last < offset + fuel
    → IsRead (walk fuel m last offset)
unfolding walk
walk-IsHeld zero m last offset o w p b = absurd (omega (arith, p))
walk-IsHeld (suc fuel) m last offset o w p b = elim (Bool-cases (ltb last (offset + 2))) [
  | inl at_end ↦ rw (at_end, walk) (none, refl, tt)
  | inr more ↦
      let room = ltb→le last (offset + 2) more in
      let (iei, kind, _) = octet_held m offset o (omega (arith, room, w)) in
      let (n, size, _) = octet_held m (offset + 1) o (omega (arith, room, w)) in
      rw (more, kind, size, walk)
        (round (ltb last (offset + 2 + n)) (concat_at iei n (take n (drop (offset + 2) m)))
          (walk fuel m last (offset + 2 + n))
          (λ fits.
            let there = ltb→le last (offset + 2 + n) fits in
            (
              concat_at-IsHeld iei n (take n (drop (offset + 2) m))
                  (take-AreOctets n (drop (offset + 2) m) (drop-AreOctets (offset + 2) m o))
                  (whole_element m n (offset + 2) (omega (arith, there, w))),
              walk-IsHeld fuel m last (offset + 2 + n) o w (omega (arith, room, b))
                  (omega (arith, room, b)),
            )))
]

-- For every message of octets, however its header is cut or spelled: the walk ends with an answer, no
-- read is past the end, and the numbers that it finds fit the fields that carry them.
pub concat_info-IsHeld :
    (message : List ℕ)
    → AreOctets message
    → (r : Option ConcatInfo) × (concat_info message ≡ some r) × IsHeld r
unfolding concat_info
concat_info-IsHeld [] o = (none, refl, tt)
concat_info-IsHeld (n ∷ octets) o =
    walk-IsHeld (suc (min (n + 1) (length (n ∷ octets)))) (n ∷ octets)
      (min (n + 1) (length (n ∷ octets))) 1 o (omega arith) (omega arith) (omega arith)
