-- ===== src/Groups.antt =====
-- src/expiring-groups.ts. The clock is an argument of each operation that reads it, in
-- milliseconds; `none` is the weight bound `Infinity`. The sweep timer is whether it runs. A key is
-- of any type with a decided equality, where the source has strings.
pub mod Invariant
pub mod Evict
pub mod Expiry
mod Tests
use smpp_js.Prelude.{
  ℕ, zero, suc, ◌+◌, ◌-◌, Bool, true, false, not, ◌||◌, Option, none, some, List, [], ◌∷◌, ◌++◌,
  map, Eq, length, find, erase, put, ltb, leb, if◌then◌else◌,
}

pub record Entry {ℓ} (T : Type ℓ) : Type ℓ where
  pub deadline : ℕ
  pub group : T
  pub weight : ℕ

pub record ExpiringGroups {ℓ} (K : Type 0) (T : Type ℓ) : Type ℓ where
  pub entries : List (K × Entry T)
  pub max : ℕ
  pub max_weight : Option ℕ
  pub timeout : ℕ
  pub sweeper : Bool
  pub total : ℕ

-- `this.total > this.maxWeight`
abbrev pub over_weight : ℕ → Option ℕ → Bool
over_weight total none = false
over_weight total (some bound) = ltb bound total

abbrev pub is_empty {ℓ} : {A : Type ℓ} → List A → Bool
is_empty [] = true
is_empty (_ ∷ _) = false

module _ {ℓ} {K : Type 0} {T : Type ℓ} ⦃keys : Eq K⦄ where
  unfoldable pub create : ℕ → Option ℕ → ℕ → ExpiringGroups K T
  create max max_weight timeout = record {
    entries = [];
    max = max;
    max_weight = max_weight;
    timeout = timeout;
    sweeper = false;
    total = 0;
  }

  unfoldable pub full : ExpiringGroups K T → Bool
  full g = leb g.max (length g.entries)

  unfoldable pub get : K → ExpiringGroups K T → Option T
  get key g = elim (find key g.entries) [ none ↦ none | some entry ↦ some entry.group ]

  -- The weight taken off is counted in `total`, so the difference is the source's.
  pub remove : K → ExpiringGroups K T → ExpiringGroups K T
  remove key g = elim (find key g.entries) [
    | none ↦ g
    | some entry ↦ record g { entries = erase key g.entries; total = g.total - entry.weight }
  ]

  pub idle : ExpiringGroups K T → ExpiringGroups K T
  idle g = if not g.sweeper || not (is_empty g.entries) then g else record g { sweeper = false }

  unfoldable pub set : ℕ → K → T → ExpiringGroups K T → ExpiringGroups K T
  unfolding remove
  set now key group g =
      let removed = remove key g in
      let entry : Entry T = record { deadline = now + g.timeout; group = group; weight = 0 } in
      record removed { entries = removed.entries ++ ((key, entry) ∷ []); sweeper = true }

  unfoldable pub delete : K → ExpiringGroups K T → ExpiringGroups K T
  unfolding remove idle
  delete key g = idle (remove key g)

  unfoldable pub take_oldest : ExpiringGroups K T → Option (K × T) × ExpiringGroups K T
  unfolding delete
  take_oldest g = elim g.entries [
    | [] ↦ (none, g)
    | (key, entry) ∷ _ ↦ (some (key, entry.group), delete key g)
  ]

  -- `total += weight - entry.weight`, where the total counts the entry's weight.
  pub reweigh : K → ℕ → ExpiringGroups K T → ExpiringGroups K T
  reweigh key weight g = elim (find key g.entries) [
    | none ↦ g
    | some entry ↦ record g {
      entries = put key (record entry { weight = weight }) g.entries;
      total = g.total + weight - entry.weight;
    }
  ]

  -- The loop of `weigh`; `none` is a run out of fuel.
  pub evict : ℕ → ExpiringGroups K T → List (K × T) → Option (List (K × T) × ExpiringGroups K T)
  evict zero g taken = none
  evict (suc fuel) g taken =
      let (oldest, rest) = take_oldest g in
      elim (over_weight g.total g.max_weight) [
        | false ↦ some (taken, g)
        | true ↦ elim oldest [
          | none ↦ some (taken, rest)
          | some group ↦ evict fuel rest (taken ++ (group ∷ []))
        ]
      ]

  -- Each round takes an entry, so one round more than the entries is fuel enough.
  unfoldable pub weigh : K → ℕ → ExpiringGroups K T → Option (List (K × T) × ExpiringGroups K T)
  unfolding reweigh evict take_oldest
  weigh key weight g =
      let weighed = reweigh key weight g in evict (suc (length weighed.entries)) weighed []

  unfoldable pub take_all : ExpiringGroups K T → List (K × T) × ExpiringGroups K T
  unfolding idle
  take_all g = (
    map (λ (key, entry). (key, entry.group)) g.entries,
    idle (record g { entries = []; total = 0 }),
  )

  -- The loop of `takeExpired` over the entries that were there when it began.
  unfoldable pub expire :
      ℕ → List (K × Entry T) → ExpiringGroups K T → List (K × T) × ExpiringGroups K T
  expire now [] g = ([], g)
  expire now ((key, entry) ∷ later) g = elim (ltb now entry.deadline) [
    | true ↦ expire now later g
    | false ↦
        let (taken, rest) = expire now later (remove key g) in ((key, entry.group) ∷ taken, rest)
  ]

  unfoldable pub take_expired : ℕ → ExpiringGroups K T → List (K × T) × ExpiringGroups K T
  unfolding expire idle remove
  take_expired now g = let (taken, rest) = expire now g.entries g in (taken, idle rest)
