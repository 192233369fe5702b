-- ===== src/Udh/Elements.antt =====
-- The elements of a user data header, and what `concatInfo` of src/udh.ts finds among them.
use smpp_js.Prelude.{
  ℕ, zero, suc, ◌+◌, ◌/◌, ◌%◌, ◌≤◌, ◌<◌, ◌≡◌, refl, ap, ◌∙◌, false, ◌||◌, ◌&&◌, Option, none, some,
  List, [], ◌∷◌, ◌++◌, append_assoc, length, get_elem?, take, drop, min, ltb, ◌==◌, length-append,
  drop-append, arith,
}
use smpp_js.Udh.{ConcatReference, unused, next, ConcatInfo, concat_at, walk, concat_info}

-- An element: a numbering of the message by an 8-bit reference or a 16-bit one (the reference, the
-- total, the part), or any other kind with its octets.
pub data Element : Type 0 where
  short_numbering long_numbering : ℕ → ℕ → ℕ → Element
  other : ℕ → List ℕ → Element

abbrev pub spell : Element → List ℕ
spell (short_numbering reference total part) = 0 ∷ 3 ∷ reference ∷ total ∷ part ∷ []
spell (long_numbering reference total part) =
    8 ∷ 4 ∷ (reference / 256) ∷ (reference % 256) ∷ total ∷ part ∷ []
spell (other iei octets) = iei ∷ length octets ∷ octets

abbrev pub spelled : List Element → List ℕ
spelled [] = []
spelled (e ∷ es) = spell e ++ spelled es

-- The header of these elements, its length first, and the text behind it.
abbrev pub message_of : List Element → List ℕ → List ℕ
message_of es text = length (spelled es) ∷ (spelled es ++ text)

-- Another kind is not spelled like a numbering.
abbrev pub IsOther : Element → Type 0
IsOther (other iei octets) =
    ((iei == 0 && length octets == 3) || (iei == 8 && length octets == 4)) ≡ false
IsOther _ = Unit

abbrev pub AreOther : List Element → Type 0
AreOther [] = Unit
AreOther (e ∷ es) = IsOther e × AreOther es

-- The first numbering.
abbrev pub first_of : List Element → Option ConcatInfo
first_of [] = none
first_of (short_numbering reference total part ∷ es) =
    some (record { part = part; reference = reference; total = total })
first_of (long_numbering reference total part ∷ es) =
    some (record { part = part; reference = reference; total = total })
first_of (other _ _ ∷ es) = first_of es

suc_add : (n k : ℕ) → suc n + k ≡ suc (n + k)
suc_add n k = omega arith

drop_add : (n k : ℕ) (xs : List ℕ) → drop (n + k) xs ≡ drop k (drop n xs)
drop_add zero k xs = ap (λ n. drop n xs) (omega arith)
drop_add (suc n) zero [] = ap (λ i. drop i []) (suc_add n zero)
drop_add (suc n) (suc k) [] = ap (λ i. drop i []) (suc_add n (suc k))
drop_add (suc n) k (x ∷ xs) = ap (λ i. drop i (x ∷ xs)) (suc_add n k) ∙ drop_add n k xs

within : (last n : ℕ) → n ≤ last → ltb last n ≡ false
within last n h = ground arith

elem_at : (xs : List ℕ) (i x : ℕ) (tail : List ℕ) → drop i xs ≡ x ∷ tail → get_elem? xs i ≡ some x
elem_at [] zero x tail h = cc
elem_at [] (suc i) x tail h = cc
elem_at (y ∷ ys) zero x tail h = cc
elem_at (y ∷ ys) (suc i) x tail h = elem_at ys i x tail h

front :
    (m : List ℕ) (offset iei n : ℕ) (tail : List ℕ)
    → drop offset m ≡ iei ∷ n ∷ tail
    → (get_elem? m offset ≡ some iei)
      × (get_elem? m (offset + 1) ≡ some n)
      × (drop (offset + 2) m ≡ tail)
front m offset iei n tail h = (
  elem_at m offset iei (n ∷ tail) h,
  elem_at m (offset + 1) n tail (drop_add offset 1 m ∙ ap (drop 1) h),
  drop_add offset 2 m ∙ ap (drop 2) h,
)

-- One round where an element stands whole.
walk_step :
    (fuel : ℕ) (m : List ℕ) (last offset iei n : ℕ) (tail : List ℕ)
    → drop offset m ≡ iei ∷ n ∷ tail
    → offset + 2 + n ≤ last
    → walk (suc fuel) m last offset ≡ (elim (concat_at iei n (take n tail)) [
      | none ↦ none
      | some none ↦ walk fuel m last (offset + 2 + n)
      | some (some found) ↦ some (some found)
    ])
unfolding walk
walk_step fuel m last offset iei n tail h b =
    let (at_front, at_second, behind) = front m offset iei n tail h in
    rw
      (
        at_front,
        at_second,
        behind,
        within last (offset + 2) (omega arith),
        within last (offset + 2 + n) b,
      )
      cc

concat_at-none :
    (iei n : ℕ) (info : List ℕ)
    → ((iei == 0 && n == 3) || (iei == 8 && n == 4)) ≡ false
    → concat_at iei n info ≡ some none
unfolding concat_at
concat_at-none iei n info h = ground arith

walk-spelled :
    (es : List Element) (fuel : ℕ) (m : List ℕ) (last offset : ℕ) (text : List ℕ)
    → AreOther es
    → drop offset m ≡ spelled es ++ text
    → last ≡ offset + length (spelled es)
    → length (spelled es) < fuel
    → walk fuel m last offset ≡ some (first_of es)
unfolding walk concat_at
walk-spelled es zero m last offset text o d e f = absurd (omega (arith, f))
walk-spelled [] (suc fuel) m last offset text o d e f = ground arith
walk-spelled (short_numbering r t p ∷ es) (suc fuel) m last offset text o d e f =
    walk_step fuel m last offset 0 3 (r ∷ t ∷ p ∷ (spelled es ++ text)) d (omega arith)
walk-spelled (long_numbering r t p ∷ es) (suc fuel) m last offset text o d e f =
    walk_step fuel m last offset 8 4 ((r / 256) ∷ (r % 256) ∷ t ∷ p ∷ (spelled es ++ text)) d
      (omega arith)
    ∙ ap (λ x. some (some (record { part = p; reference = x; total = t }))) (omega arith)
walk-spelled (other iei octets ∷ es) (suc fuel) m last offset text (o, os) d e f =
    walk_step fuel m last offset iei (length octets) ((octets ++ spelled es) ++ text) d
      (omega (arith, length-append octets (spelled es)))
    ∙ ap
        (λ c. elim c [
          | none ↦ none
          | some none ↦ walk fuel m last (offset + 2 + length octets)
          | some (some found) ↦ some (some found)
        ])
        (concat_at-none iei (length octets) (take (length octets) ((octets ++ spelled es) ++ text))
          o)
    ∙ walk-spelled es fuel m last (offset + 2 + length octets) text os
        (drop_add (offset + 2) (length octets) m
          ∙ ap (drop (length octets))
              ((front m offset iei (length octets) ((octets ++ spelled es) ++ text) d).2)
          ∙ ap (drop (length octets)) (append_assoc octets (spelled es) text)
          ∙ drop-append octets (spelled es ++ text))
        (omega (arith, length-append octets (spelled es)))
        (omega (arith, length-append octets (spelled es)))

whole : (xs ys : List ℕ) → min (length xs + 1) (suc (length (xs ++ ys))) ≡ 1 + length xs
whole xs ys = omega (arith, length-append xs ys)

-- The walk over a header finds the first element that numbers the message, whatever other elements
-- stand before it and whatever text follows the header, and nothing where no element does.
pub concat_info-message_of :
    (es : List Element) (text : List ℕ)
    → AreOther es
    → concat_info (message_of es text) ≡ some (first_of es)
unfolding concat_info
concat_info-message_of es text o =
    ap (λ last. walk (suc last) (message_of es text) last 1) (whole (spelled es) text)
    ∙ walk-spelled es (suc (1 + length (spelled es))) (message_of es text) (1 + length (spelled es))
        1 text o refl refl (omega arith)

-- The references handed out by these many calls, and the counter then.
abbrev pub after : ℕ → ConcatReference
after zero = unused
after (suc k) = (next (after k)).1

-- The references count from 1 to 255 and then start again at 1, so any 255 calls on end hand out
-- different ones, none of them 0.
pub next-after : (k : ℕ) → (next (after k)).0 ≡ k % 255 + 1
unfolding next
next-after zero = refl
next-after (suc k) = ground (arith, next-after k)
