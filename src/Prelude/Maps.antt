-- ===== src/Prelude/Maps.antt =====
-- A JavaScript `Map` as the list of its entries in insertion order.
use Prim.Native.Nat.{ℕ}
use Prim.Native.String.{String}
use mathlib.Core.Path.{◌≡◌, refl, ap}
use mathlib.Core.Logic.{◌↔◌, inl, inr, ◌≢◌}
use mathlib.Core.Bool.{Bool, true, false, ◌&&◌}
use mathlib.Core.Option.{Option, none, some}
use mathlib.Core.List.{List, [], ◌∷◌, ◌++◌}
use native.Mathlib.Omega.{arith}
use text.Mathlib.Text.{◌==◌ as str_eq}
use text.Mathlib.TextEquality.{eq_iff}
use smpp_js.Prelude.Tests.{◌==◌, ==_iff, if◌then◌else◌, Bool-cases}

-- The keys that a map can be asked for.
pub record Eq {ℓ} (K : Type ℓ) : Type ℓ where
  pub beq : K → K → Bool
  pub beq_iff : (a b : K) → (beq a b ≡ true) ↔ (a ≡ b)

instance abbrev pub nat_eq : Eq ℕ
nat_eq = record { beq = ◌==◌; beq_iff = ==_iff }

instance abbrev pub string_eq : Eq String
string_eq = record { beq = str_eq; beq_iff = eq_iff }

-- Texts as lists of code units.
abbrev pub text_beq : List ℕ → List ℕ → Bool
text_beq [] [] = true
text_beq (x ∷ xs) (y ∷ ys) = (x == y) && text_beq xs ys
text_beq _ _ = false

pub text_beq_iff : (a b : List ℕ) → (text_beq a b ≡ true) ↔ (a ≡ b)
text_beq_iff [] [] = (λ _. refl, λ _. refl)
text_beq_iff [] (y ∷ ys) = ground arith
text_beq_iff (x ∷ xs) [] = ground arith
text_beq_iff (x ∷ xs) (y ∷ ys) = ground (arith, text_beq_iff xs ys)

instance abbrev pub text_eq : Eq (List ℕ)
text_eq = record { beq = text_beq; beq_iff = text_beq_iff }

module _ {ℓ} {K : Type ℓ} ⦃e : Eq K⦄ where
  pub beq_refl : (k : K) → e.beq k k ≡ true
  beq_refl k = (e.beq_iff k k).1 refl

  pub beq_of_ne : (j k : K) → j ≢ k → e.beq j k ≡ false
  beq_of_ne j k h = elim (Bool-cases (e.beq j k)) [
    | inl same ↦ absurd (h ((e.beq_iff j k).0 same))
    | inr other ↦ other
  ]

module _ {ℓ κ} {K : Type ℓ} {V : Type κ} ⦃e : Eq K⦄ where
  -- `Map.get`
  abbrev pub find : K → List (K × V) → Option V
  find k [] = none
  find k ((j, v) ∷ m) = if e.beq j k then some v else find k m

  -- `Map.delete`
  abbrev pub erase : K → List (K × V) → List (K × V)
  erase k [] = []
  erase k ((j, v) ∷ m) = if e.beq j k then erase k m else (j, v) ∷ erase k m

  -- `Map.set`: a key that is there keeps its place.
  abbrev pub put : K → V → List (K × V) → List (K × V)
  put k v [] = (k, v) ∷ []
  put k v ((j, w) ∷ m) = if e.beq j k then (j, v) ∷ m else (j, w) ∷ put k v m

  -- No key stands twice.
  abbrev pub Distinct : List (K × V) → Type κ
  Distinct [] = Unit
  Distinct ((k, v) ∷ m) = (find k m ≡ none) × Distinct m

  pub find-erase :
      (k j : K) (m : List (K × V)) → find j (erase k m) ≡ (if e.beq k j then none else find j m)
  find-erase k j [] = ground arith
  find-erase k j ((i, v) ∷ m) =
      ground (arith, e.beq_iff k j, e.beq_iff i k, e.beq_iff i j, find-erase k j m)

  pub erase_absent : (k : K) (m : List (K × V)) → find k m ≡ none → erase k m ≡ m
  erase_absent k [] h = refl
  erase_absent k ((j, v) ∷ m) h = ground (arith, erase_absent k m)

  pub erase-Distinct : (k : K) (m : List (K × V)) → Distinct m → Distinct (erase k m)
  erase-Distinct k [] d = d
  erase-Distinct k ((j, v) ∷ m) (n, d) = ground (arith, find-erase k j m, erase-Distinct k m d)

  pub find-append : (k : K) (m n : List (K × V)) → find k m ≡ none → find k (m ++ n) ≡ find k n
  find-append k [] n h = refl
  find-append k ((j, v) ∷ m) n h = ground (arith, find-append k m n)

  pub append-Distinct :
      (m : List (K × V)) (k : K) (v : V)
      → Distinct m
      → find k m ≡ none
      → Distinct (m ++ ((k, v) ∷ []))
  append-Distinct [] k v d h = (refl, tt)
  append-Distinct ((j, w) ∷ m) k v (n, d) h =
      ground (
        arith,
        e.beq_iff j k,
        e.beq_iff k j,
        find-append j m ((k, v) ∷ []),
        append-Distinct m k v d,
      )

  pub find-put :
      (k j : K) (v : V) (m : List (K × V))
      → find j (put k v m) ≡ (if e.beq k j then some v else find j m)
  find-put k j v [] = refl
  find-put k j v ((i, w) ∷ m) =
      ground (arith, e.beq_iff k j, e.beq_iff i k, e.beq_iff i j, find-put k j v m)

  pub put-Distinct : (k : K) (v : V) (m : List (K × V)) → Distinct m → Distinct (put k v m)
  put-Distinct k v [] d = (refl, tt)
  put-Distinct k v ((j, w) ∷ m) (n, d) =
      ground (arith, e.beq_iff j k, e.beq_iff k j, find-put k j v m, put-Distinct k v m d)

-- A test of every entry of a table of names.
module _ {κ} {V : Type κ} where
  abbrev pub every : (String → V → Bool) → List (String × V) → Bool
  every p [] = true
  every p ((k, v) ∷ m) = p k v && every p m

  pub every-find :
      (p : String → V → Bool) (m : List (String × V)) (k : String) (v : V)
      → every p m ≡ true
      → find k m ≡ some v
      → p k v ≡ true
  every-find p [] k v h e = cc
  every-find p ((j, w) ∷ m) k v h e = ground (arith, string_eq.beq_iff j k, every-find p m k v)

-- Whether a lookup found this name.
abbrev pub is_name : Option String → String → Bool
is_name none name = false
is_name (some n) name = string_eq.beq n name

pub is_name_eq : (o : Option String) (name : String) → is_name o name ≡ true → o ≡ some name
is_name_eq none name h = cc
is_name_eq (some n) name h = ap some ((string_eq.beq_iff n name).0 h)
