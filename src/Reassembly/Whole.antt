-- ===== src/Reassembly/Whole.antt =====
-- The messages that src/reassembly.ts hands out whole.
use smpp_js.Prelude.{
  ℕ, zero, suc, ◌+◌, ◌≤◌, ◌≡◌, some, refl, ap, ◌∙◌, inl, inr, false, Bool-cases, none, List, [],
  ◌∷◌, map, find, Distinct, nat_eq, length, arith, if◌then◌else◌,
}
use smpp_js.Retained.{PduObject}
use smpp_js.Reassembly.{Group, insert, sort}

-- Every part has a number from 1 to the total.
abbrev pub AreNumbered : ℕ → List (ℕ × PduObject) → Type 0
AreNumbered total [] = Unit
AreNumbered total ((n, _) ∷ ps) = (1 ≤ n) × (n ≤ total) × AreNumbered total ps

-- A group's parts stand under different numbers in range.
pub record IsPlaced (g : Group) : Type 0 where
  pub distinct : Distinct g.parts
  pub numbered : AreNumbered g.total g.parts

-- The numbers from `lo` on, this many.
abbrev pub numbers_from : ℕ → ℕ → List ℕ
numbers_from lo zero = []
numbers_from lo (suc n) = lo ∷ numbers_from (suc lo) n

-- The numbers rise strictly, from `lo` to `hi`.
abbrev Rises : ℕ → ℕ → List (ℕ × PduObject) → Type 0
Rises lo hi [] = Unit
Rises lo hi ((n, _) ∷ ps) = (lo ≤ n) × (n ≤ hi) × Rises (suc n) hi ps

Rises-length :
    (lo hi : ℕ) (ps : List (ℕ × PduObject)) → Rises lo hi ps → lo ≤ suc hi → lo + length ps ≤ suc hi
Rises-length lo hi [] r b = omega (arith, b)
Rises-length lo hi ((n, p) ∷ ps) (l, h, r) b =
    omega (arith, l, Rises-length (suc n) hi ps r (omega (arith, h)))

-- Numbers that rise and are as many as there is room for leave none out.
Rises-full :
    (lo hi : ℕ) (ps : List (ℕ × PduObject))
    → Rises lo hi ps
    → lo + length ps ≡ suc hi
    → map (λ p. p.0) ps ≡ numbers_from lo (length ps)
Rises-full lo hi [] r e = refl
Rises-full lo hi ((n, p) ∷ ps) (l, h, r) e =
    let bound = Rises-length (suc n) hi ps r (omega (arith, h)) in
    let here : n ≡ lo = omega (arith, bound, l, e) in
    let rest = Rises-full (suc n) hi ps r (omega (arith, here, e)) in cc

Rises-insert :
    (n : ℕ) (p : PduObject) (lo hi : ℕ) (ps : List (ℕ × PduObject))
    → Rises lo hi ps
    → lo ≤ n
    → n ≤ hi
    → find n ps ≡ none
    → Rises lo hi (insert (n, p) ps)
Rises-insert n p lo hi [] r l h f = (l, h, tt)
Rises-insert n p lo hi ((m, q) ∷ ps) (l', h', r) l h f =
    ground (arith, Rises-insert n p (suc m) hi ps)

find-insert :
    (n m : ℕ) (p : PduObject) (ps : List (ℕ × PduObject))
    → find n ps ≡ none
    → (nat_eq.beq m n ≡ false)
    → find n (insert (m, p) ps) ≡ none
find-insert n m p [] f d = ground arith
find-insert n m p ((k, q) ∷ ps) f d = ground (arith, find-insert n m p ps)

length-insert :
    (p : ℕ × PduObject) (ps : List (ℕ × PduObject)) → length (insert p ps) ≡ suc (length ps)
length-insert p [] = refl
length-insert p (q ∷ ps) = ground (arith, length-insert p ps)

length-sort : (ps : List (ℕ × PduObject)) → length (sort ps) ≡ length ps
unfolding sort
length-sort [] = refl
length-sort (p ∷ ps) = length-insert p (sort ps) ∙ ap suc (length-sort ps)

find-sort : (n : ℕ) (ps : List (ℕ × PduObject)) → find n ps ≡ none → find n (sort ps) ≡ none
unfolding sort
find-sort n [] f = refl
find-sort n ((m, p) ∷ ps) f = elim (Bool-cases (nat_eq.beq m n)) [
  | inl same ↦ ground (arith, same)
  | inr other ↦ find-insert n m p (sort ps) (find-sort n ps (ground (arith, other))) other
]

sort-Rises :
    (total : ℕ) (ps : List (ℕ × PduObject))
    → Distinct ps
    → AreNumbered total ps
    → Rises 1 total (sort ps)
unfolding sort
sort-Rises total [] d a = tt
sort-Rises total ((n, p) ∷ ps) (f, d) (l, h, a) =
    Rises-insert n p 1 total (sort ps) (sort-Rises total ps d a) l h (find-sort n ps f)

with_ends :
    (total : ℕ) (ps : List (ℕ × PduObject)) → Distinct ps → AreNumbered total ps → length ps ≤ total
with_ends total ps d a =
    omega (
      arith,
      Rises-length 1 total (sort ps) (sort-Rises total ps d a) (omega arith),
      length-sort ps,
    )

-- The parts of a group that has as many as its total are, once sorted, numbered from 1 to the total
-- with none left out.
pub sort-numbers :
    (g : Group)
    → IsPlaced g
    → g.total ≤ length g.parts
    → map (λ p. p.0) (sort g.parts) ≡ numbers_from 1 g.total
sort-numbers g v h =
    let enough : length (sort g.parts) ≡ g.total =
      omega (arith, length-sort g.parts, with_ends g.total g.parts v.distinct v.numbered, h) in
    Rises-full 1 g.total (sort g.parts) (sort-Rises g.total g.parts v.distinct v.numbered)
      (omega (arith, enough))
    ∙ ap (numbers_from 1) enough

find-insert_eq :
    (n m : ℕ) (p : PduObject) (ps : List (ℕ × PduObject))
    → find m ps ≡ none
    → find n (insert (m, p) ps) ≡ (if nat_eq.beq m n then some p else find n ps)
find-insert_eq n m p [] f = refl
find-insert_eq n m p ((k, q) ∷ ps) f = ground (arith, find-insert_eq n m p ps)

-- Sorting keeps each part under its number.
pub find-sort_eq : (n : ℕ) (ps : List (ℕ × PduObject)) → Distinct ps → find n (sort ps) ≡ find n ps
unfolding sort
find-sort_eq n [] d = refl
find-sort_eq n ((m, p) ∷ ps) (f, d) =
    find-insert_eq n m p (sort ps) (find-sort m ps f)
    ∙ ap (λ o. if nat_eq.beq m n then some p else o) (find-sort_eq n ps d)
