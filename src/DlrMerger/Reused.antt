-- ===== src/DlrMerger/Reused.antt =====
-- What `DlrMerger` of src/dlr-merger.ts does with the ids of a message, whether they are new, are
-- being merged, or were before.
use smpp_js.Prelude.{
  ℕ, ◌+◌, ◌≤◌, ◌<◌, ◌≡◌, ◌≢◌, ◌⊎◌, refl, ap, ◌∙◌, inl, inr, true, false, ◌||◌, Bool-cases,
  Option-cases, Option, none, some, List, [], text_eq, beq_refl, find, find-erase, find-append,
  length, ltb, if◌then◌else◌, ltb→lt, ltb→le,
}
use smpp_js.Groups.{Entry, ExpiringGroups, full, get, set, take_expired}
use smpp_js.Groups.Expiry.{remove-erase}
use smpp_js.DlrMerger.{
  id_numbering, DlrMerger, create_merger, close, is_there, opened, open_base, drop_oldest, expect,
}
use smpp_js.DlrMerger.Apart.{Absent, delete_gone, Apart, Call, after_calls, after_calls-Apart}

-- What `set` puts is there.
pub set_there :
    {T : Type 0} (now : ℕ) (k : List ℕ) (v : T) (g : ExpiringGroups (List ℕ) T)
    → find k (set now k v g).entries
      ≡ some (record { deadline = now + g.timeout; group = v; weight = 0 })
unfolding set
set_there now k v g =
    find-append k _ _
      (ap (find k) (remove-erase k g) ∙ find-erase k k g.entries ∙ rw (beq_refl k) refl)
    ∙ rw (beq_refl k) refl

pub get_found :
    {T : Type 0} (k : List ℕ) (e : Entry T) (g : ExpiringGroups (List ℕ) T)
    → find k g.entries ≡ some e
    → get k g ≡ some e.group
unfolding get
get_found k e g h = rw (h, get) refl

pub get-Absent :
    {T : Type 0} (k : List ℕ) (g : ExpiringGroups (List ℕ) T) → Absent k g → get k g ≡ none
unfolding get
get-Absent k g h = rw (h, get) refl

-- The id is kept in mind as one whose message is not merged again.
abbrev pub IsSpent : List ℕ → DlrMerger → Type 0
IsSpent base m = get base m.spent ≡ some tt

pub close-IsSpent : (now : ℕ) (base : List ℕ) (m : DlrMerger) → IsSpent base (close now base m)
unfolding close
close-IsSpent now base m = get_found base _ (close now base m).spent (set_there now base tt _)

pub close_gone :
    (now : ℕ) (base : List ℕ) (m : DlrMerger) → get base (close now base m).groups ≡ none
unfolding close
close_gone now base m = get-Absent base _ (delete_gone base m.groups)

-- An id that is handed out at a time: it is opened where it is neither being merged nor spent then,
-- with no receipts yet; otherwise it is spent, and not being merged.
abbrev pub Opens : ℕ → List ℕ → List ℕ → DlrMerger → DlrMerger → Type 0
Opens now base expected before after =
    ((get base before.groups ≡ none)
      × (get base (take_expired now before.spent).1 ≡ none)
      × (get base after.groups ≡ some (record { expected = expected; parts = [] })))
    ⊎ (((get base before.groups ≢ none) ⊎ (get base (take_expired now before.spent).1 ≢ none))
        × (get base after.groups ≡ none)
        × IsSpent base after)

is_there_cases : {A : Type 0} (o : Option A) → is_there o ≡ true → o ≢ none
is_there_cases none h = cc
is_there_cases (some a) h = λ e. cc

is_there_not : {A : Type 0} (o : Option A) → is_there o ≡ false → o ≡ none
is_there_not none h = refl
is_there_not (some a) h = cc

either_there :
    {A B : Type 0} (o : Option A) (p : Option B)
    → (is_there o || is_there p) ≡ true
    → (o ≢ none) ⊎ (p ≢ none)
either_there none p h = inr (is_there_cases p h)
either_there (some a) p h = inl (is_there_cases (some a) refl)

neither_there :
    {A B : Type 0} (o : Option A) (p : Option B)
    → (is_there o || is_there p) ≡ false
    → (o ≡ none) × (p ≡ none)
neither_there none p h = (refl, is_there_not p h)
neither_there (some a) p h = cc

opened_there :
    (now : ℕ) (base expected : List ℕ) (m : DlrMerger)
    → get base (opened now base expected m).groups
      ≡ some (record { expected = expected; parts = [] })
opened_there now base expected m =
    get_found base _ (opened now base expected m).groups
      (set_there now base (record { expected = expected; parts = [] }) m.groups)

open_base-Opens :
    (now : ℕ) (base expected : List ℕ) (m : DlrMerger)
    → Opens now base expected m (open_base now base expected m)
unfolding open_base
open_base-Opens now base expected m =
    let spent = (take_expired now m.spent).1 in
    elim (Bool-cases (is_there (get base m.groups) || is_there (get base spent))) [
      | inl again ↦
          rw (again, open_base)
            (inr (
              either_there (get base m.groups) (get base spent) again,
              close_gone now base (record m { spent = spent }),
              close-IsSpent now base (record m { spent = spent }),
            ))
      | inr new ↦
          let (g, h) = neither_there (get base m.groups) (get base spent) new in
          rw (new, open_base)
            (inl (
              g,
              h,
              opened_there now base expected (
                  if full m.groups
                  then drop_oldest now (record m { spent = spent })
                  else record m { spent = spent }),
            ))
    ]

-- What `expect` does with the ids that a message was handed: nothing where there are fewer than two
-- or they do not number one message, and otherwise what it does with that message's id.
abbrev pub Expects : ℕ → List (Option (List ℕ)) → DlrMerger → DlrMerger → Type 0
Expects now ids before after =
    (((length ids < 2) ⊎ (id_numbering ids ≡ none)) × (after ≡ before))
    ⊎ ((base : List ℕ) × (parts : List ℕ) × (2 ≤ length ids)
        × (id_numbering ids ≡ some (base, parts))
        × Opens now base parts before after)

expect-Expects :
    (now : ℕ) (ids : List (Option (List ℕ))) (m : DlrMerger) → Expects now ids m (expect now ids m)
unfolding expect
expect-Expects now ids m = elim (Bool-cases (ltb (length ids) 2)) [
  | inl few ↦ rw (few, expect) (inl (inl (ltb→lt _ _ few), refl))
  | inr enough ↦ elim (Option-cases (id_numbering ids)) [
    | inl unnumbered ↦ rw (enough, expect) (rw unnumbered (inl (inr refl, refl)))
    | inr ((base, parts), numbered) ↦
        rw (enough, expect)
          (rw numbered
            (inr (base, parts, ltb→le _ _ enough, refl, open_base-Opens now base parts m)))
  ]
]

-- After any calls on a new merger: no id is both being merged and spent; and when the ids of a sent
-- message come in that are two or more and number one message, its id is opened for merging where it
-- is neither being merged nor, at that time, spent, and otherwise it is spent and not being merged.
-- Other ids change nothing.
pub after_calls-Expects :
    (max timeout : ℕ) (cs : List Call) (now : ℕ) (ids : List (Option (List ℕ)))
    → let m = after_calls cs (create_merger max timeout) in
      Apart m × Expects now ids m (expect now ids m)
after_calls-Expects max timeout cs now ids =
    let m = after_calls cs (create_merger max timeout) in
    (after_calls-Apart max timeout cs, expect-Expects now ids m)
