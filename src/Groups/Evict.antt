-- ===== src/Groups/Evict.antt =====
-- `weigh` of src/expiring-groups.ts: the oldest groups go until the weight is within its bound.
use smpp_js.Prelude.{
  ℕ, zero, suc, ◌<◌, ◌≡◌, refl, sym, ap, subst, ◌∙◌, inl, inr, true, false, Option, none, some,
  List, [], ◌∷◌, ◌++◌, append_assoc, append-nil, Eq, Option-cases, Bool-cases, find, erase, put,
  Distinct, erase_absent, arith, length,
}
use smpp_js.Groups.{
  Entry, ExpiringGroups, over_weight, take_oldest, delete, remove, reweigh, evict, weigh,
}
use smpp_js.Groups.Invariant.{Inv, weights, idle_fields, reweigh-Inv, delete-Inv, take_oldest_cases}

module _ {ℓ} {K : Type 0} {T : Type ℓ} ⦃keys : Eq K⦄ where
  -- The groups held, oldest first, under their keys.
  abbrev pub named : List (K × Entry T) → List (K × T)
  named [] = []
  named ((key, entry) ∷ m) = (key, entry.group) ∷ named m

  -- What a call that returns the taken groups has done to `before`.
  pub record Evicted (before : List (K × T)) (taken : List (K × T)) (g : ExpiringGroups K T)
      : Type ℓ where
    pub inv : Inv g
    pub within : over_weight g.total g.max_weight ≡ false
    pub parts : taken ++ named g.entries ≡ before

  erase_head :
      (key : K) (entry : Entry T) (m : List (K × Entry T))
      → Distinct ((key, entry) ∷ m)
      → erase key ((key, entry) ∷ m) ≡ m
  erase_head key entry m (absent, _) = ground (arith, keys.beq_iff key key, erase_absent key m)

  delete_fields :
      (key : K) (entry : Entry T) (m : List (K × Entry T)) (g : ExpiringGroups K T)
      → Inv g
      → g.entries ≡ (key, entry) ∷ m
      → ((delete key g).entries ≡ m) × ((delete key g).max_weight ≡ g.max_weight)
  unfolding delete
  delete_fields key entry m g v e =
      let (entries, _, bound) = idle_fields (remove key g) in
      let (erased, same) = remove_fields in (entries ∙ erased, bound ∙ same)
    where
      remove_fields : ((remove key g).entries ≡ m) × ((remove key g).max_weight ≡ g.max_weight)
      remove_fields = ground (
        arith,
        keys.beq_iff key key,
        erase_head key entry m (subst Distinct e v.weighed.distinct),
      )

  named-put :
      (key : K) (old new : Entry T) (m : List (K × Entry T))
      → find key m ≡ some old
      → new.group ≡ old.group
      → named (put key new m) ≡ named m
  named-put key old new [] h e = cc
  named-put key old new ((j, w) ∷ m) h e = ground (arith, named-put key old new m)

  named-reweigh :
      (key : K) (weight : ℕ) (g : ExpiringGroups K T)
      → named (reweigh key weight g).entries ≡ named g.entries
  unfolding reweigh
  named-reweigh key weight g = elim (Option-cases (find key g.entries)) [
    | inl absent ↦ rw (absent, reweigh)
    | inr (entry, found) ↦ rw (found, reweigh) (named-put key entry _ g.entries found refl)
  ]

  over_nothing :
      (g : ExpiringGroups K T) → Inv g → g.entries ≡ [] → over_weight g.total g.max_weight ≡ false
  over_nothing g v e =
      let empty : g.total ≡ 0 = v.weighed.counted ∙ ap weights e in rw empty (never g.max_weight)
    where
      never : (bound : Option ℕ) → over_weight 0 bound ≡ false
      never none = refl
      never (some b) = ground arith

  evict_step :
      (fuel : ℕ) (g rest : ExpiringGroups K T) (taken : List (K × T)) (o : K × T)
      → over_weight g.total g.max_weight ≡ true
      → take_oldest g ≡ (some o, rest)
      → evict (suc fuel) g taken ≡ evict fuel rest (taken ++ (o ∷ []))
  unfolding evict
  evict_step fuel g rest taken o over e =
      let first : (take_oldest g).0 ≡ some o = ap (λ z. z.0) e in
      let second : (take_oldest g).1 ≡ rest = ap (λ z. z.1) e in
      rw (over, evict) (rw first (ap (λ r. evict fuel r (taken ++ (o ∷ []))) second))

  evict_lem :
      (fuel : ℕ) (g : ExpiringGroups K T) (taken : List (K × T))
      → Inv g
      → length g.entries < fuel
      → (more : List (K × T)) × (h : ExpiringGroups K T) × (evict fuel g taken
          ≡ some (taken ++ more, h))
        × Evicted (named g.entries) more h
  unfolding evict
  evict_lem zero g taken v l = elim l [ ]
  evict_lem (suc fuel) g taken v l = elim (Bool-cases (over_weight g.total g.max_weight)) [
    | inl over ↦ elim (take_oldest_cases g) [
      | inl (none_held, _) ↦ let h = over_nothing g v none_held in cc
      | inr (key, entry, rest, held, e) ↦
          let d = delete_fields key entry rest g v held in
          let (more, h, run, k) =
            evict_lem fuel (delete key g) (taken ++ ((key, entry.group) ∷ [])) (delete-Inv key g v)
              (omega (arith, ap length d.0, ap length held)) in
          (
            (key, entry.group) ∷ more,
            h,
            evict_step fuel g _ taken _ over e
                ∙ (run ∙ ap (λ z. some (z, h)) (append_assoc taken _ more)),
            record {
              inv = k.inv;
              within = k.within;
              parts = ap (◌∷◌ (key, entry.group)) (k.parts ∙ ap named d.0) ∙ sym (ap named held);
            },
          )
    ]
    | inr under ↦ (
      [],
      g,
      rw (under, evict) (ap (λ z. some (z, g)) (sym (append-nil taken))),
      record { inv = v; within = under; parts = refl },
    )
  ]

  -- `weigh` always returns. Afterwards the total is within the bound, the groups returned are the
  -- oldest that were held, in order, and the others are held as before.
  pub weigh-Evicted :
      (key : K) (weight : ℕ) (g : ExpiringGroups K T)
      → Inv g
      → (taken : List (K × T)) × (h : ExpiringGroups K T) × (weigh key weight g ≡ some (taken, h))
        × Evicted (named g.entries) taken h
  unfolding weigh
  weigh-Evicted key weight g v =
      let (taken, h, e, k) =
        evict_lem (suc (length (reweigh key weight g).entries)) (reweigh key weight g) []
          (reweigh-Inv key weight g v) (omega arith) in
      (
        taken,
        h,
        e,
        record { inv = k.inv; within = k.within; parts = k.parts ∙ named-reweigh key weight g },
      )
