-- ===== src/DlrMerger/Sorted.antt =====
-- The sorting of the parts in `DlrMerger.settle` of src/dlr-merger.ts.
use mathlib.Core.List.{Perm}
use mathlib.Core.List.Perm
use smpp_js.Prelude.{ℕ, ◌≤◌, ◌≡◌, inl, inr, true, false, Bool-cases, List, [], ◌∷◌, leb, arith}
use smpp_js.DlrMerger.{Dlr, insert, sort}

-- Parts with numbers no lower than this one.
abbrev pub NoLower : ℕ → List (ℕ × Dlr) → Type 0
NoLower n [] = Unit
NoLower n (q ∷ qs) = (n ≤ q.0) × NoLower n qs

abbrev pub IsSorted : List (ℕ × Dlr) → Type 0
IsSorted [] = Unit
IsSorted (p ∷ ps) = NoLower p.0 ps × IsSorted ps

NoLower-le : (m n : ℕ) (ps : List (ℕ × Dlr)) → m ≤ n → NoLower n ps → NoLower m ps
NoLower-le m n [] h v = tt
NoLower-le m n (p ∷ ps) h (b, v) = (omega (arith, h, b), NoLower-le m n ps h v)

NoLower-insert :
    (n : ℕ) (p : ℕ × Dlr) (qs : List (ℕ × Dlr)) → n ≤ p.0 → NoLower n qs → NoLower n (insert p qs)
NoLower-insert n p [] h v = (h, tt)
NoLower-insert n p (q ∷ qs) h (b, v) = elim (Bool-cases (leb p.0 q.0)) [
  | inl low ↦ rw (low, insert) (h, (b, v))
  | inr high ↦ rw (high, insert) (b, NoLower-insert n p qs h v)
]

leb→le : (m n : ℕ) → leb m n ≡ true → m ≤ n
leb→le m n h = ground arith

leb→ge : (m n : ℕ) → leb m n ≡ false → n ≤ m
leb→ge m n h = ground arith

insert-IsSorted : (p : ℕ × Dlr) (qs : List (ℕ × Dlr)) → IsSorted qs → IsSorted (insert p qs)
insert-IsSorted p [] v = (tt, tt)
insert-IsSorted p (q ∷ qs) (b, v) = elim (Bool-cases (leb p.0 q.0)) [
  | inl low ↦ rw (low, insert) ((leb→le _ _ low, NoLower-le p.0 q.0 qs (leb→le _ _ low) b), (b, v))
  | inr high ↦
      rw (high, insert) (NoLower-insert q.0 p qs (leb→ge _ _ high) b, insert-IsSorted p qs v)
]

insert-Perm : (p : ℕ × Dlr) (qs : List (ℕ × Dlr)) → Perm (insert p qs) (p ∷ qs)
insert-Perm p [] = Perm.refl (p ∷ [])
insert-Perm p (q ∷ qs) = elim (Bool-cases (leb p.0 q.0)) [
  | inl low ↦ rw (low, insert) (Perm.refl (p ∷ q ∷ qs))
  | inr high ↦ rw (high, insert) (Perm.trans (Perm.cons q (insert-Perm p qs)) (Perm.swap p q qs))
]

pub sort-IsSorted : (ps : List (ℕ × Dlr)) → IsSorted (sort ps)
unfolding sort
sort-IsSorted [] = tt
sort-IsSorted (p ∷ ps) = insert-IsSorted p (sort ps) (sort-IsSorted ps)

pub sort-Perm : (ps : List (ℕ × Dlr)) → Perm (sort ps) ps
unfolding sort
sort-Perm [] = Perm.refl []
sort-Perm (p ∷ ps) = Perm.trans (insert-Perm p (sort ps)) (Perm.cons p (sort-Perm ps))
