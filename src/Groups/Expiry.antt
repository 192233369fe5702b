-- ===== src/Groups/Expiry.antt =====
-- `takeExpired`, `takeAll` and `set` of src/expiring-groups.ts, and every sequence of calls.
use smpp_js.Prelude.{
  ℕ, ◌+◌, ◌≡◌, refl, sym, ap, subst, ◌∙◌, inl, inr, Bool, true, false, Option, none, some, List, [],
  ◌∷◌, ◌++◌, append_assoc, Eq, Bool-cases, find, erase, Distinct, erase_absent, arith, ltb,
  if◌then◌else◌,
}
use smpp_js.Groups.{
  Entry, ExpiringGroups, create, get, remove, set, delete, take_oldest, weigh, take_all, expire,
  take_expired,
}
use smpp_js.Groups.Invariant.{
  Weighed, Inv, idle_fields, idle-Inv, remove-Weighed, Runs, remove-Runs, Inv-Runs, set-Inv,
  delete-Inv, take_oldest-Inv, take_all-Inv, create-Inv,
}
use smpp_js.Groups.Evict.{named, weigh-Evicted}

some_unique {ℓ} : {A : Type ℓ} {o : Option A} {a b : A} → o ≡ some a → o ≡ some b → a ≡ b
some_unique p q = cc

module _ {ℓ} {K : Type 0} {T : Type ℓ} (now : ℕ) where
  -- The entries whose deadline has not come, and those whose deadline has.
  abbrev pub alive : List (K × Entry T) → List (K × Entry T)
  alive [] = []
  alive ((key, entry) ∷ m) = if ltb now entry.deadline then (key, entry) ∷ alive m else alive m

  abbrev pub overdue : List (K × Entry T) → List (K × Entry T)
  overdue [] = []
  overdue ((key, entry) ∷ m) =
      if ltb now entry.deadline then overdue m else (key, entry) ∷ overdue m

module _ {ℓ} {K : Type 0} {T : Type ℓ} ⦃keys : Eq K⦄ where
  pub remove-erase :
      (key : K) (g : ExpiringGroups K T) → (remove key g).entries ≡ erase key g.entries
  unfolding remove
  remove-erase key g = ground (arith, erase_absent key g.entries)

  erase-append :
      (key : K) (m n : List (K × Entry T)) → erase key (m ++ n) ≡ erase key m ++ erase key n
  erase-append key [] n = refl
  erase-append key ((j, w) ∷ m) n = ground (arith, erase-append key m n)

  expire_taken :
      (now : ℕ) (later : List (K × Entry T)) (g : ExpiringGroups K T)
      → (expire now later g).0 ≡ named (overdue now later)
  unfolding expire
  expire_taken now [] g = refl
  expire_taken now ((key, entry) ∷ later) g =
      ground (arith, expire_taken now later g, expire_taken now later (remove key g))

  absent_middle :
      (j key : K) (seen later : List (K × Entry T)) (entry : Entry T)
      → find j (seen ++ ((key, entry) ∷ later)) ≡ none
      → keys.beq j key ≡ false
  absent_middle j key [] later entry h = ground (arith, keys.beq_iff j key, keys.beq_iff key j)
  absent_middle j key ((i, w) ∷ seen) later entry h =
      ground (arith, absent_middle j key seen later entry)

  erase_middle :
      (seen later : List (K × Entry T)) (key : K) (entry : Entry T)
      → Distinct (seen ++ ((key, entry) ∷ later))
      → erase key (seen ++ ((key, entry) ∷ later)) ≡ seen ++ later
  erase_middle [] later key entry (absent, _) =
      ground (arith, keys.beq_iff key key, erase_absent key later)
  erase_middle ((j, w) ∷ seen) later key entry (absent, d) =
      let other = absent_middle j key seen later entry absent in
      ground (arith, erase_middle seen later key entry d)

  -- `seen` is what the loop has passed over and kept.
  expire_kept :
      (now : ℕ) (later seen : List (K × Entry T)) (g : ExpiringGroups K T)
      → g.entries ≡ seen ++ later
      → Weighed g
      → Runs g
      → ((expire now later g).1.entries ≡ seen ++ alive now later)
        × Weighed (expire now later g).1
        × Runs (expire now later g).1
  unfolding expire
  expire_kept now [] seen g e v r = (e, v, r)
  expire_kept now ((key, entry) ∷ later) seen g e v r = elim (Bool-cases (ltb now entry.deadline)) [
    | inl lives ↦
        let (entries, w, q) =
          expire_kept now later (seen ++ ((key, entry) ∷ [])) g
            (e ∙ sym (append_assoc seen _ later)) v r in
        rw (lives, expire) (entries ∙ append_assoc seen _ (alive now later), w, q)
    | inr due ↦
        rw (due, expire)
          (expire_kept now later seen (remove key g)
            (remove-erase key g
              ∙ ap (erase key) e
              ∙ erase_middle seen later key entry (subst Distinct e v.distinct))
            (remove-Weighed key g v) (remove-Runs key g r))
  ]

  -- `takeExpired` takes exactly the groups whose deadline has come, in the order in which they were
  -- set, keeps the others with their order, and leaves the timer running while one is held.
  pub take_expired_lem :
      (now : ℕ) (g : ExpiringGroups K T)
      → Inv g
      → ((take_expired now g).0 ≡ named (overdue now g.entries))
        × ((take_expired now g).1.entries ≡ alive now g.entries)
        × Inv (take_expired now g).1
  unfolding take_expired
  take_expired_lem now g v =
      let (entries, w, r) = expire_kept now g.entries [] g refl v.weighed (Inv-Runs g v) in
      let rest = (expire now g.entries g).1 in
      (expire_taken now g.entries g, (idle_fields rest).0 ∙ entries, idle-Inv rest w r)

  find-last :
      (key other : K) (x : Entry T) (m : List (K × Entry T))
      → find other (erase key m ++ ((key, x) ∷ []))
        ≡ (if keys.beq key other then some x else find other m)
  find-last key other x [] = refl
  find-last key other x ((j, w) ∷ m) = ground (
    arith,
    keys.beq_iff j key,
    keys.beq_iff j other,
    keys.beq_iff key other,
    find-last key other x m,
  )

  -- A group that was set is found, and every other key answers as before.
  pub get-set :
      (now : ℕ) (key other : K) (group : T) (g : ExpiringGroups K T)
      → get other (set now key group g) ≡ (if keys.beq key other then some group else get other g)
  unfolding get set
  get-set now key other group g =
      let x : Entry T = record { deadline = now + g.timeout; group = group; weight = 0 } in
      rw (remove-erase key g, get, find-last key other x g.entries) (split (keys.beq key other) _ x)
    where
      split :
          (b : Bool) (old : Option (Entry T)) (x : Entry T)
          → (elim (if b then some x else old) [ none ↦ none | some entry ↦ some entry.group ]) ≡ (
              if b
              then some x.group
              else (elim old [ none ↦ none | some entry ↦ some entry.group ]))
      split true old x = refl
      split false old x = refl

  -- One call of an owner.
  pub data Step (g : ExpiringGroups K T) : ExpiringGroups K T → Type ℓ where
    sets : (now : ℕ) (key : K) (group : T) → Step g (set now key group g)
    deletes : (key : K) → Step g (delete key g)
    weighs :
        (key : K) (weight : ℕ) {taken : List (K × T)} {h : ExpiringGroups K T}
        → weigh key weight g ≡ some (taken, h)
        → Step g h
    takes_all : Step g (take_all g).1
    takes_expired : (now : ℕ) → Step g (take_expired now g).1
    takes_oldest : Step g (take_oldest g).1

  pub data Reach (g : ExpiringGroups K T) : ExpiringGroups K T → Type ℓ where
    here : Reach g g
    next : {h k : ExpiringGroups K T} → Reach g h → Step h k → Reach g k

  weigh-Inv :
      (key : K) (weight : ℕ) (g : ExpiringGroups K T) {taken : List (K × T)}
      {h : ExpiringGroups K T}
      → Inv g
      → weigh key weight g ≡ some (taken, h)
      → Inv h
  weigh-Inv key weight g v e =
      let (taken, k, run, done) = weigh-Evicted key weight g v in
      subst Inv (ap (λ z. z.1) (some_unique run e)) done.inv

  Step-Inv : {g h : ExpiringGroups K T} → Step g h → Inv g → Inv h
  Step-Inv {g} (sets now key group) v = set-Inv now key group g v
  Step-Inv {g} (deletes key) v = delete-Inv key g v
  Step-Inv {g} (weighs key weight e) v = weigh-Inv key weight g v e
  Step-Inv {g} takes_all v = take_all-Inv g
  Step-Inv {g} (takes_expired now) v = (take_expired_lem now g v).2
  Step-Inv {g} takes_oldest v = take_oldest-Inv g v

  Reach-Inv : {g h : ExpiringGroups K T} → Inv g → Reach g h → Inv h
  Reach-Inv v here = v
  Reach-Inv v (next r s) = Step-Inv s (Reach-Inv v r)

  -- After any calls on a new store: no key stands twice, the total is the sum of the weights held,
  -- and the sweep timer runs exactly while something is held.
  pub Reach-create-Inv :
      (max : ℕ) (max_weight : Option ℕ) (timeout : ℕ) {g : ExpiringGroups K T}
      → Reach (create max max_weight timeout) g
      → Inv g
  Reach-create-Inv max max_weight timeout r = Reach-Inv (create-Inv max max_weight timeout) r
