-- ===== src/Groups/Invariant.antt =====
-- What src/expiring-groups.ts keeps between calls.
use smpp_js.Prelude.{
  ℕ, ◌+◌, ◌≡◌, refl, sym, ap, subst, ◌∙◌, ◌⊎◌, inl, inr, true, false, not, Option, none, some, List,
  [], ◌∷◌, ◌++◌, Eq, Option-cases, Bool-cases, List-cases, find, erase, put, Distinct, find-erase,
  erase-Distinct, append-Distinct, put-Distinct, arith, erase_absent,
}
use smpp_js.Groups.{
  Entry, ExpiringGroups, is_empty, create, remove, idle, set, delete, take_oldest, reweigh,
  take_all,
}

module _ {ℓ} {K : Type 0} {T : Type ℓ} ⦃keys : Eq K⦄ where
  abbrev pub weights : List (K × Entry T) → ℕ
  weights [] = 0
  weights ((_, entry) ∷ m) = entry.weight + weights m

  -- No key stands twice, and the total is the sum of the weights.
  pub record Weighed (g : ExpiringGroups K T) : Type ℓ where
    pub distinct : Distinct g.entries
    pub counted : g.total ≡ weights g.entries

  -- Besides, the sweep timer runs exactly while something is held.
  pub record Inv (g : ExpiringGroups K T) : Type ℓ where
    pub weighed : Weighed g
    pub swept : g.sweeper ≡ not (is_empty g.entries)

  weights-erase :
      (key : K) (m : List (K × Entry T)) (entry : Entry T)
      → Distinct m
      → find key m ≡ some entry
      → weights (erase key m) + entry.weight ≡ weights m
  weights-erase key [] entry d h = cc
  weights-erase key ((j, w) ∷ m) entry (n, d) h =
      ground (arith, weights-erase key m entry d, erase_absent key m, keys.beq_iff j key)

  pub weights-put :
      (key : K) (m : List (K × Entry T)) (old new : Entry T)
      → find key m ≡ some old
      → weights (put key new m) + old.weight ≡ weights m + new.weight
  weights-put key [] old new h = cc
  weights-put key ((j, w) ∷ m) old new h = ground (arith, weights-put key m old new)

  weights-append : (m n : List (K × Entry T)) → weights (m ++ n) ≡ weights m + weights n
  weights-append [] n = omega arith
  weights-append ((j, w) ∷ m) n = omega (arith, weights-append m n)

  pub remove-Weighed : (key : K) (g : ExpiringGroups K T) → Weighed g → Weighed (remove key g)
  unfolding remove
  remove-Weighed key g v = elim (Option-cases (find key g.entries)) [
    | inl absent ↦ rw (absent, remove) v
    | inr (entry, found) ↦
        rw (found, remove)
          (record {
            distinct = erase-Distinct key g.entries v.distinct;
            counted = omega (arith, weights-erase key g.entries entry v.distinct found, v.counted);
          })
  ]

  pub find-remove : (key : K) (g : ExpiringGroups K T) → find key (remove key g).entries ≡ none
  unfolding remove
  find-remove key g = ground (arith, find-erase key key g.entries, keys.beq_iff key key)

  pub idle_fields :
      (g : ExpiringGroups K T)
      → ((idle g).entries ≡ g.entries)
        × ((idle g).total ≡ g.total)
        × ((idle g).max_weight ≡ g.max_weight)
  unfolding idle
  idle_fields g = ground arith

  pub idle-Weighed : (g : ExpiringGroups K T) → Weighed g → Weighed (idle g)
  idle-Weighed g v =
      let (entries, total, _) = idle_fields g in
      record {
        distinct = subst Distinct (sym entries) v.distinct;
        counted = total ∙ v.counted ∙ ap weights (sym entries);
      }

  -- The timer is on when a call stops holding the last group, or it was off already.
  pub idle-Inv :
      (g : ExpiringGroups K T)
      → Weighed g
      → (is_empty g.entries ≡ false → g.sweeper ≡ true)
      → Inv (idle g)
  unfolding idle
  idle-Inv g v run = record {
    weighed = idle-Weighed g v;
    swept = ground (arith, Bool-cases (is_empty g.entries));
  }

  is_empty-append : (m n : List (K × Entry T)) → is_empty n ≡ false → is_empty (m ++ n) ≡ false
  is_empty-append [] n h = h
  is_empty-append (x ∷ m) n h = refl

  pub is_empty-put :
      (key : K) (w : Entry T) (m : List (K × Entry T)) → is_empty (put key w m) ≡ false
  is_empty-put key w [] = refl
  is_empty-put key w ((j, x) ∷ m) = ground arith

  pub is_empty_of_find :
      (key : K) (m : List (K × Entry T)) (x : Entry T) → find key m ≡ some x → is_empty m ≡ false
  is_empty_of_find key [] x h = cc
  is_empty_of_find key (y ∷ m) x h = refl

  -- Whenever something is held, the sweep timer runs.
  abbrev pub Runs : ExpiringGroups K T → Type 0
  Runs g = is_empty g.entries ≡ false → g.sweeper ≡ true

  pub Inv-Runs : (g : ExpiringGroups K T) → Inv g → Runs g
  Inv-Runs g v h = v.swept ∙ ap not h

  is_empty-erase :
      (key : K) (m : List (K × Entry T)) → is_empty (erase key m) ≡ false → is_empty m ≡ false
  is_empty-erase key [] h = h
  is_empty-erase key (x ∷ m) h = refl

  pub remove-Runs : (key : K) (g : ExpiringGroups K T) → Runs g → Runs (remove key g)
  unfolding remove
  remove-Runs key g r h = elim (Option-cases (find key g.entries)) [
    | inl absent ↦ rw (absent, remove) (r (rw (absent, remove) at h))
    | inr (entry, found) ↦
        rw (found, remove) (r (is_empty-erase key g.entries (rw (found, remove) at h)))
  ]

  pub reweigh-Inv :
      (key : K) (weight : ℕ) (g : ExpiringGroups K T) → Inv g → Inv (reweigh key weight g)
  unfolding reweigh
  reweigh-Inv key weight g v = elim (Option-cases (find key g.entries)) [
    | inl absent ↦ rw (absent, reweigh) v
    | inr (entry, found) ↦
        let new : Entry T = record entry { weight = weight } in
        rw (found, reweigh)
          (record {
            weighed = record {
              distinct = put-Distinct key new g.entries v.weighed.distinct;
              counted = omega (arith, weights-put key g.entries entry new found, v.weighed.counted);
            };
            swept =
                v.swept
                ∙ ap not (
                    is_empty_of_find key g.entries entry found
                    ∙ sym (is_empty-put key new g.entries));
          })
  ]

  pub set-Inv :
      (now : ℕ) (key : K) (group : T) (g : ExpiringGroups K T) → Inv g → Inv (set now key group g)
  unfolding set
  set-Inv now key group g v =
      let w = remove-Weighed key g v.weighed in
      record {
        weighed = record {
          distinct = append-Distinct _ key _ w.distinct (find-remove key g);
          counted = omega (arith, w.counted, weights-append (remove key g).entries _);
        };
        swept = sym (ap not (is_empty-append (remove key g).entries _ refl));
      }

  pub delete-Inv : (key : K) (g : ExpiringGroups K T) → Inv g → Inv (delete key g)
  unfolding delete
  delete-Inv key g v =
      idle-Inv (remove key g) (remove-Weighed key g v.weighed) (remove-Runs key g (Inv-Runs g v))

  take_oldest-some :
      (g : ExpiringGroups K T) (key : K) (entry : Entry T) (rest : List (K × Entry T))
      → g.entries ≡ (key, entry) ∷ rest
      → take_oldest g ≡ (some (key, entry.group), delete key g)
  unfolding take_oldest
  take_oldest-some g key entry rest held = ground arith

  take_oldest-none : (g : ExpiringGroups K T) → g.entries ≡ [] → take_oldest g ≡ (none, g)
  unfolding take_oldest
  take_oldest-none g held = ground arith

  -- The oldest group is the one set first of those held, and taking it deletes it.
  pub take_oldest_cases :
      (g : ExpiringGroups K T)
      → ((g.entries ≡ []) × (take_oldest g ≡ (none, g)))
        ⊎ ((key : K) × (entry : Entry T) × (rest : List (K × Entry T)) × (g.entries
              ≡ (key, entry) ∷ rest)
            × (take_oldest g ≡ (some (key, entry.group), delete key g)))
  take_oldest_cases g = elim (List-cases g.entries) [
    | inl held ↦ inl (held, take_oldest-none g held)
    | inr ((key, entry), rest, held) ↦
        inr (key, entry, rest, held, take_oldest-some g key entry rest held)
  ]

  pub take_oldest-Inv : (g : ExpiringGroups K T) → Inv g → Inv (take_oldest g).1
  take_oldest-Inv g v = elim (take_oldest_cases g) [
    | inl (_, e) ↦ subst (λ z. Inv z.1) (sym e) v
    | inr (key, _, _, _, e) ↦ subst (λ z. Inv z.1) (sym e) (delete-Inv key g v)
  ]

  pub take_all-Inv : (g : ExpiringGroups K T) → Inv (take_all g).1
  unfolding take_all
  take_all-Inv g =
      idle-Inv (record g { entries = []; total = 0 }) (record { distinct = tt; counted = refl })
        (λ h. cc)

  pub create-Inv :
      (max : ℕ) (max_weight : Option ℕ) (timeout : ℕ) → Inv (create {T = T} max max_weight timeout)
  unfolding create
  create-Inv max max_weight timeout = record {
    weighed = record { distinct = tt; counted = refl };
    swept = refl;
  }
