-- ===== src/DlrMerger/Worst.antt =====
-- The report of `DlrMerger` in src/dlr-merger.ts is the worst of its receipts.
use smpp_js.Prelude.{
  ℕ, suc, ◌≤◌, ◌≡◌, ◌⊎◌, refl, sym, ap, ◌∙◌, subst, inl, inr, Bool-cases, List, [], ◌∷◌, map,
  nat_eq, text_eq, length, ltb, if◌then◌else◌, arith, ltb→lt, ltb→le,
}
use smpp_js.DlrMerger.{Dlr, severity, insert, sort, worst_of}

-- Receipts of no worse a status.
abbrev pub NoWorse : ℕ → List Dlr → Type 0
NoWorse n [] = Unit
NoWorse n (d ∷ ds) = (severity d.status_msg ≤ n) × NoWorse n ds

abbrev pub IsOneOf : Dlr → List Dlr → Type 0
IsOneOf d [] = ⊥
IsOneOf d (x ∷ xs) = (d ≡ x) ⊎ IsOneOf d xs

abbrev pub IsWorst : Dlr → List Dlr → Type 0
IsWorst d ds = NoWorse (severity d.status_msg) ds × IsOneOf d ds

pub worst_of-IsWorst :
    (carry : Dlr) (rest : List Dlr) → IsWorst (worst_of carry rest) (carry ∷ rest)
unfolding worst_of
worst_of-IsWorst carry [] = ((omega arith, tt), inl refl)
worst_of-IsWorst carry (one ∷ rest) =
    elim (Bool-cases (ltb (severity carry.status_msg) (severity one.status_msg))) [
      | inl worse ↦
          let same : worst_of carry (one ∷ rest) ≡ worst_of one rest =
            ap (λ b. worst_of (if b then one else carry) rest) worse in
          let ((n, below), among) = worst_of-IsWorst one rest in
          subst (λ w. IsWorst w (carry ∷ one ∷ rest)) (sym same)
            (
              (
                omega
                    (arith, n, ltb→lt (severity carry.status_msg) (severity one.status_msg) worse),
                (n, below),
              ),
              inr among,
            )
      | inr fine ↦
          let same : worst_of carry (one ∷ rest) ≡ worst_of carry rest =
            ap (λ b. worst_of (if b then one else carry) rest) fine in
          let ((n, below), among) = worst_of-IsWorst carry rest in
          subst (λ w. IsWorst w (carry ∷ one ∷ rest)) (sym same)
            (
              (
                n,
                (
                  omega
                      (arith, n, ltb→le (severity carry.status_msg) (severity one.status_msg) fine),
                  below,
                ),
              ),
              skip among,
            )
    ]
  where
    skip : {d : Dlr} → IsOneOf d (carry ∷ rest) → IsOneOf d (carry ∷ one ∷ rest)
    skip (inl e) = inl e
    skip (inr e) = inr (inr e)

length-insert : (p : ℕ × Dlr) (qs : List (ℕ × Dlr)) → length (insert p qs) ≡ suc (length qs)
length-insert p [] = refl
length-insert p (q ∷ qs) = ground (arith, length-insert p qs)

pub length-sort : (ps : List (ℕ × Dlr)) → length (map (λ p. p.1) (sort ps)) ≡ length ps
unfolding sort
length-sort ps = length-map (sort ps) ∙ sorted ps
  where
    length-map : (ps : List (ℕ × Dlr)) → length (map (λ p. p.1) ps) ≡ length ps
    length-map [] = refl
    length-map (p ∷ ps) = ap suc (length-map ps)

    sorted : (ps : List (ℕ × Dlr)) → length (sort ps) ≡ length ps
    sorted [] = refl
    sorted (p ∷ ps) = length-insert p (sort ps) ∙ ap suc (sorted ps)
