-- ===== src/Prelude/Results.antt =====
-- `Result<T>` of src/result.ts: what a function returns early with, or what it is for.
pub data Result {ℓ} (E A : Type ℓ) : Type ℓ where
  err : E → Result E A
  ok : A → Result E A

-- The rest of a function behind `if (x.err) return { err: x.err }`.
infixl 5 ◌>>=◌
abbrev pub ◌>>=◌ {ℓ} : {E A B : Type ℓ} → Result E A → (A → Result E B) → Result E B
early >>= rest = elim early [ err refused ↦ err refused | ok found ↦ rest found ]

-- The same with another wording of the error.
abbrev pub map_err {ℓ} : {E F A : Type ℓ} → (E → F) → Result E A → Result F A
map_err reworded early = elim early [ err refused ↦ err (reworded refused) | ok found ↦ ok found ]
