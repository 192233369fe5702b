-- ===== src/DlrMerger/Apart.antt =====
-- No message id is both being merged and spent in `DlrMerger` of src/dlr-merger.ts.
use smpp_js.Prelude.{
  ℕ, ◌≡◌, ◌⊎◌, refl, sym, ap, ◌∙◌, subst, inl, inr, Bool, true, false, ◌||◌, Bool-cases,
  Option-cases, Option, none, some, List, [], ◌∷◌, nat_eq, text_eq, beq_refl, find, find-erase,
  find-append, find-put, ltb, if◌then◌else◌, List-cases, length,
}
use smpp_js.Groups.{
  Entry, ExpiringGroups, full, get, remove, idle, set, delete, take_oldest, expire, take_all,
  take_expired,
}
use smpp_js.Groups.Invariant.{idle_fields}
use smpp_js.Groups.Expiry.{remove-erase}
use smpp_js.DlrMerger.{
  Dlr, Group, has, id_numbering, DlrMerger, create_merger, close, close_each, sweep, drop_oldest,
  is_there, opened, open_base, expect, hold, settle, numbering_of, with_part, collect, clear,
}

module _ {T : Type 0} where
  -- A key that is not there.
  abbrev pub Absent : List ℕ → ExpiringGroups (List ℕ) T → Type 0
  Absent k g = find k g.entries ≡ none

  idle-Absent : (k : List ℕ) (g : ExpiringGroups (List ℕ) T) → Absent k g → Absent k (idle g)
  idle-Absent k g h = ap (find k) (idle_fields g).0 ∙ h

  remove-Absent :
      (k j : List ℕ) (g : ExpiringGroups (List ℕ) T) → Absent k g → Absent k (remove j g)
  remove-Absent k j g h =
      ap (find k) (remove-erase j g) ∙ find-erase j k g.entries ∙ either (text_eq.beq j k) h
    where
      either : (b : Bool) {o : Option (Entry T)} → o ≡ none → (if b then none else o) ≡ none
      either true e = refl
      either false e = e

  delete-Absent :
      (k j : List ℕ) (g : ExpiringGroups (List ℕ) T) → Absent k g → Absent k (delete j g)
  unfolding delete
  delete-Absent k j g h = idle-Absent k (remove j g) (remove-Absent k j g h)

  pub delete_gone : (k : List ℕ) (g : ExpiringGroups (List ℕ) T) → Absent k (delete k g)
  unfolding delete
  delete_gone k g =
      idle-Absent k (remove k g)
        (ap (find k) (remove-erase k g) ∙ find-erase k k g.entries ∙ rw (beq_refl k) refl)

  set-Absent :
      (now : ℕ) (k j : List ℕ) (v : T) (g : ExpiringGroups (List ℕ) T)
      → text_eq.beq j k ≡ false
      → Absent k g
      → Absent k (set now j v g)
  unfolding set
  set-Absent now k j v g ne h = find-append k _ _ (remove-Absent k j g h) ∙ rw ne refl

  expire-Absent :
      (now : ℕ) (k : List ℕ) (later : List (List ℕ × Entry T)) (g : ExpiringGroups (List ℕ) T)
      → Absent k g
      → Absent k (expire now later g).1
  unfolding expire
  expire-Absent now k [] g h = h
  expire-Absent now k ((j, entry) ∷ later) g h = elim (Bool-cases (ltb now entry.deadline)) [
    | inl lives ↦ rw (lives, expire) (expire-Absent now k later g h)
    | inr due ↦ rw (due, expire) (expire-Absent now k later (remove j g) (remove-Absent k j g h))
  ]

  take_oldest-Absent :
      (k : List ℕ) (g : ExpiringGroups (List ℕ) T) → Absent k g → Absent k (take_oldest g).1
  unfolding take_oldest
  take_oldest-Absent k g h = elim (List-cases g.entries) [
    | inl nothing_held ↦ rw (nothing_held, take_oldest) h
    | inr ((j, entry), later, held) ↦ rw (held, take_oldest) (delete-Absent k j g h)
  ]

  -- The key that is taken was there.
  take_oldest_there :
      (k j : List ℕ) (v : T) (g : ExpiringGroups (List ℕ) T)
      → (take_oldest g).0 ≡ some (j, v)
      → Absent k g
      → text_eq.beq j k ≡ false
  unfolding take_oldest
  take_oldest_there k j v g h a = elim (List-cases g.entries) [
    | inl nothing_held ↦
        let now : (take_oldest g).0 ≡ none = rw (nothing_held, take_oldest) refl in
        absurd (cc (sym now ∙ h))
    | inr ((i, entry), later, held) ↦
        let now : (take_oldest g).0 ≡ some (i, entry.group) = rw (held, take_oldest) refl in
        let same : i ≡ j = key_inj (sym now ∙ h) in
        subst (λ x. text_eq.beq x k ≡ false) same
          (other (text_eq.beq i k) entry (find k later) (ap (find k) (sym held) ∙ a))
  ]
    where
      key_inj :
          {i j : List ℕ} {v w : T} → Path (Option (List ℕ × T)) (some (i, v)) (some (j, w)) → i ≡ j
      key_inj e = cc

      other :
          (b : Bool) (x : Entry T) (o : Option (Entry T))
          → (if b then some x else o) ≡ none
          → b ≡ false
      other true x o e = cc
      other false x o e = refl

  take_expired-Absent :
      (now : ℕ) (k : List ℕ) (g : ExpiringGroups (List ℕ) T)
      → Absent k g
      → Absent k (take_expired now g).1
  unfolding take_expired
  take_expired-Absent now k g h = idle-Absent k _ (expire-Absent now k g.entries g h)

-- No id is both in `groups` and in `spent`.
abbrev pub Apart : DlrMerger → Type 0
Apart m = (k : List ℕ) → (find k m.groups.entries ≡ none) ⊎ (find k m.spent.entries ≡ none)

-- A key is in one of the two at most, whatever of either goes.
shrunk :
    (m n : DlrMerger)
    → ((k : List ℕ) → Absent k m.groups → Absent k n.groups)
    → ((k : List ℕ) → Absent k m.spent → Absent k n.spent)
    → Apart m
    → Apart n
shrunk m n f g a k = elim (a k) [ inl h ↦ inl (f k h) | inr h ↦ inr (g k h) ]

room-Absent :
    (k : List ℕ) (b : Bool) (g : ExpiringGroups (List ℕ) (Unit {0}))
    → Absent k g
    → Absent k (if b then (take_oldest g).1 else g)
room-Absent k true g h = take_oldest-Absent k g h
room-Absent k false g h = h

close-spent :
    (now : ℕ) (base k : List ℕ) (m : DlrMerger)
    → text_eq.beq base k ≡ false
    → Absent k m.spent
    → Absent k (close now base m).spent
unfolding close
close-spent now base k m ne h =
    set-Absent now k base tt _ ne
      (room-Absent k _ (delete base m.spent) (delete-Absent k base m.spent h))

pub close-Apart : (now : ℕ) (base : List ℕ) (m : DlrMerger) → Apart m → Apart (close now base m)
unfolding close
close-Apart now base m a k = elim (Bool-cases (text_eq.beq base k)) [
  | inl same ↦ inl (
      subst (λ j. Absent j (delete base m.groups)) ((text_eq.beq_iff base k).0 same)
        (delete_gone base m.groups))
  | inr ne ↦ elim (a k) [
    | inl h ↦ inl (delete-Absent k base m.groups h)
    | inr h ↦ inr (close-spent now base k m ne h)
  ]
]

close_each-Apart :
    (now : ℕ) (gone : List (List ℕ × Group)) (m : DlrMerger)
    → Apart m
    → Apart (close_each now gone m)
unfolding close_each
close_each-Apart now [] m a = a
close_each-Apart now ((base, _) ∷ gone) m a =
    close_each-Apart now gone (close now base m) (close-Apart now base m a)

sweep-Apart : (now : ℕ) (m : DlrMerger) → Apart m → Apart (sweep now m)
unfolding sweep
sweep-Apart now m a =
    close_each-Apart now (take_expired now m.groups).0
      (record m { groups = (take_expired now m.groups).1 })
      (λ k. elim (a k) [ inl h ↦ inl (take_expired-Absent now k m.groups h) | inr h ↦ inr h ])

hold-Absent :
    (k base : List ℕ) (group : Group) (g : ExpiringGroups (List ℕ) Group)
    → Absent k g
    → Absent k (hold base group g)
unfolding hold
hold-Absent k base group g h = elim (Option-cases (find base g.entries)) [
  | inl absent ↦ rw (absent, hold) h
  | inr (entry, found) ↦
      rw (found, hold)
        (find-put base k _ g.entries
          ∙ rw (differ (text_eq.beq base k) (text_eq.beq_iff base k).0 found h) h)
]
  where
    differ :
        (b : Bool)
        → (b ≡ true → base ≡ k)
        → {e : Entry Group} → find base g.entries ≡ some e
        → find k g.entries ≡ none
        → b ≡ false
    differ true same found absent = cc (same refl, found, absent)
    differ false same found absent = refl

settle-Apart :
    (now : ℕ) (base : List ℕ) (group : Group) (m : DlrMerger)
    → Apart m
    → Apart (settle now base group m).1
unfolding settle
settle-Apart now base group m a =
    elim (Bool-cases (ltb (length group.parts) (length group.expected))) [
      | inl waiting ↦ rw (waiting, settle) a
      | inr whole ↦ rw (whole, settle) (close-Apart now base m a)
    ]

pub collect-Apart : (now : ℕ) (dlr : Dlr) (m : DlrMerger) → Apart m → Apart (collect now dlr m).1
unfolding collect
collect-Apart now dlr m a =
    let swept = sweep now m in
    let v = sweep-Apart now m a in
    elim (Option-cases (numbering_of dlr)) [
      | inl unnumbered ↦ rw (unnumbered, collect) v
      | inr (n, numbered) ↦ elim (Option-cases (get n.base swept.groups)) [
        | inl unknown ↦ rw (numbered, collect) (rw unknown v)
        | inr (group, known) ↦ elim (Bool-cases (has n.part group.expected)) [
          | inr unexpected ↦ rw (numbered, collect) (rw known (rw unexpected v))
          | inl expected ↦
              rw (numbered, collect)
                (rw known (
                  rw expected (
                    settle-Apart now n.base (with_part n.part dlr group) _ (λ k. elim (v k) [
                      | inl h ↦
                          inl (hold-Absent k n.base (with_part n.part dlr group) swept.groups h)
                      | inr h ↦ inr h
                    ]))))
        ]
      ]
    ]

not_there :
    {T : Type 0} (k : List ℕ) (g : ExpiringGroups (List ℕ) T)
    → is_there (get k g) ≡ false
    → Absent k g
unfolding get
not_there k g h = elim (Option-cases (find k g.entries)) [
  | inl absent ↦ absent
  | inr (entry, found) ↦
      let now : is_there (get k g) ≡ true = rw (found, get) refl in absurd (cc (sym now ∙ h))
]

-- Where the oldest message makes room, it is another one.
drop_oldest-Apart :
    (now : ℕ) (base : List ℕ) (m : DlrMerger)
    → Apart m
    → Absent base m.groups
    → Absent base m.spent
    → Apart (drop_oldest now m) × Absent base (drop_oldest now m).spent
unfolding drop_oldest
drop_oldest-Apart now base m a g h =
    let rest = record m { groups = (take_oldest m.groups).1 } in
    let still : Apart rest =
      λ k. elim (a k) [ inl x ↦ inl (take_oldest-Absent k m.groups x) | inr x ↦ inr x ] in
    elim (Option-cases (take_oldest m.groups).0) [
      | inl nothing_held ↦ rw (nothing_held, drop_oldest) (still, h)
      | inr ((oldest, group), taken) ↦
          rw (taken, drop_oldest)
            (
              close-Apart now oldest rest still,
              close-spent now oldest base rest
                  (take_oldest_there base oldest group m.groups taken g) h,
            )
    ]

opened-Apart :
    (now : ℕ) (base expected : List ℕ) (m : DlrMerger)
    → Apart m
    → Absent base m.spent
    → Apart (opened now base expected m)
opened-Apart now base expected m a h k = elim (Bool-cases (text_eq.beq base k)) [
  | inl same ↦ inr (subst (λ j. Absent j m.spent) ((text_eq.beq_iff base k).0 same) h)
  | inr ne ↦ elim (a k) [ inl x ↦ inl (set-Absent now k base _ m.groups ne x) | inr x ↦ inr x ]
]

neither : (a b : Bool) → (a || b) ≡ false → (a ≡ false) × (b ≡ false)
neither true b h = cc
neither false b h = (refl, h)

open_base-Apart :
    (now : ℕ) (base expected : List ℕ) (m : DlrMerger)
    → Apart m
    → Apart (open_base now base expected m)
unfolding open_base
open_base-Apart now base expected m a =
    let fresh : DlrMerger = record m { spent = (take_expired now m.spent).1 } in
    let v : Apart fresh =
      λ k. elim (a k) [ inl x ↦ inl x | inr x ↦ inr (take_expired-Absent now k m.spent x) ] in
    elim (Bool-cases (is_there (get base fresh.groups) || is_there (get base fresh.spent))) [
      | inl again ↦ rw (again, open_base) (close-Apart now base fresh v)
      | inr new ↦
          let (g, h) = neither (is_there (get base fresh.groups)) _ new in
          elim (Bool-cases (full fresh.groups)) [
            | inl all ↦
                let (w, x) =
                  drop_oldest-Apart now base fresh v (not_there base fresh.groups g)
                    (not_there base fresh.spent h) in
                rw (new, open_base)
                  (rw all (opened-Apart now base expected (drop_oldest now fresh) w x))
            | inr room ↦
                rw (new, open_base)
                  (rw room (opened-Apart now base expected fresh v (not_there base fresh.spent h)))
          ]
    ]

expect-Apart :
    (now : ℕ) (ids : List (Option (List ℕ))) (m : DlrMerger) → Apart m → Apart (expect now ids m)
unfolding expect
expect-Apart now ids m a = elim (Bool-cases (ltb (length ids) 2)) [
  | inl few ↦ rw (few, expect) a
  | inr enough ↦ elim (Option-cases (id_numbering ids)) [
    | inl unnumbered ↦ rw (enough, expect) (rw unnumbered a)
    | inr ((base, parts), numbered) ↦
        rw (enough, expect) (rw numbered (open_base-Apart now base parts m a))
  ]
]

-- The calls of a merger, each with the time that the clock gives it.
pub data Call : Type 0 where
  expects : ℕ → List (Option (List ℕ)) → Call
  collects : ℕ → Dlr → Call
  sweeps : ℕ → Call
  clears : Call

abbrev pub after_call : Call → DlrMerger → DlrMerger
after_call (expects now ids) m = expect now ids m
after_call (collects now dlr) m = (collect now dlr m).1
after_call (sweeps now) m = sweep now m
after_call clears m = clear m

abbrev pub after_calls : List Call → DlrMerger → DlrMerger
after_calls [] m = m
after_calls (c ∷ cs) m = after_calls cs (after_call c m)

call-Apart : (c : Call) (m : DlrMerger) → Apart m → Apart (after_call c m)
unfolding clear take_all
call-Apart (expects now ids) m a = expect-Apart now ids m a
call-Apart (collects now dlr) m a = collect-Apart now dlr m a
call-Apart (sweeps now) m a = sweep-Apart now m a
call-Apart clears m a = λ k. inl (idle-Absent k (record m.groups { entries = []; total = 0 }) refl)

calls-Apart : (cs : List Call) (m : DlrMerger) → Apart m → Apart (after_calls cs m)
calls-Apart [] m a = a
calls-Apart (c ∷ cs) m a = calls-Apart cs (after_call c m) (call-Apart c m a)

-- After any calls on a new merger, no id has receipts being merged while it is spent: one that has
-- been merged, dropped, or handed out twice is not merged again as long as it is kept in mind.
pub after_calls-Apart :
    (max timeout : ℕ) (cs : List Call) → Apart (after_calls cs (create_merger max timeout))
unfolding create_merger
after_calls-Apart max timeout cs = calls-Apart cs (create_merger max timeout) (λ k. inl refl)
