-- ===== src/Reassembly/Placed.antt =====
-- The groups that src/reassembly.ts holds keep their parts in place.
use smpp_js.Prelude.{
  ℕ, ◌≤◌, sym, ap, subst, ◌∙◌, inl, inr, not, Bool-cases, Option, none, some, Option-cases, List,
  [], ◌∷◌, ◌++◌, find, erase, put, nat_eq, text_eq, put-Distinct, ltb, ◌==◌, arith,
}
use smpp_js.Groups.{Entry, set, remove, delete}
use smpp_js.Groups.Invariant.{
  Inv, weights-put, is_empty_of_find, is_empty-put, set-Inv, delete-Inv, take_oldest_cases,
  idle_fields,
}
use smpp_js.Groups.Evict.{named}
use smpp_js.Groups.Expiry.{alive, take_expired_lem, remove-erase}
use smpp_js.Retained.{PduObject, detach}
use smpp_js.Reassembly.{Group, Reassembler, sweep, drop_oldest, hold, with_part}
use smpp_js.Reassembly.Whole.{AreNumbered, IsPlaced}

-- Every group held is placed.
abbrev pub ArePlaced : List (List ℕ × Group) → Type 0
ArePlaced [] = Unit
ArePlaced ((_, group) ∷ m) = IsPlaced group × ArePlaced m

pub record IsSound (r : Reassembler) : Type 0 where
  pub inv : Inv r
  pub placed : ArePlaced (named r.entries)

alive-ArePlaced :
    (now : ℕ) (m : List (List ℕ × Entry Group))
    → ArePlaced (named m)
    → ArePlaced (named (alive now m))
alive-ArePlaced now [] v = tt
alive-ArePlaced now ((key, entry) ∷ m) (p, v) = elim (Bool-cases (ltb now entry.deadline)) [
  | inl on ↦ rw on (p, alive-ArePlaced now m v)
  | inr off ↦ rw off (alive-ArePlaced now m v)
]

erase-ArePlaced :
    (key : List ℕ) (m : List (List ℕ × Entry Group))
    → ArePlaced (named m)
    → ArePlaced (named (erase key m))
erase-ArePlaced key [] v = tt
erase-ArePlaced key ((j, entry) ∷ m) (p, v) = elim (Bool-cases (text_eq.beq j key)) [
  | inl same ↦ rw same (erase-ArePlaced key m v)
  | inr other ↦ rw other (p, erase-ArePlaced key m v)
]

put-ArePlaced :
    (key : List ℕ) (entry : Entry Group) (m : List (List ℕ × Entry Group))
    → IsPlaced entry.group
    → ArePlaced (named m)
    → ArePlaced (named (put key entry m))
put-ArePlaced key entry [] p v = (p, tt)
put-ArePlaced key entry ((j, old) ∷ m) p (q, v) = elim (Bool-cases (text_eq.beq j key)) [
  | inl same ↦ rw same (p, v)
  | inr other ↦ rw other (q, put-ArePlaced key entry m p v)
]

last-ArePlaced :
    (m : List (List ℕ × Entry Group)) (key : List ℕ) (entry : Entry Group)
    → ArePlaced (named m)
    → IsPlaced entry.group
    → ArePlaced (named (m ++ ((key, entry) ∷ [])))
last-ArePlaced [] key entry v p = (p, tt)
last-ArePlaced (_ ∷ m) key entry (q, v) p = (q, last-ArePlaced m key entry v p)

pub behind-ArePlaced : (xs ys : List (List ℕ × Group)) → ArePlaced (xs ++ ys) → ArePlaced ys
behind-ArePlaced [] ys v = v
behind-ArePlaced (x ∷ xs) ys (_, v) = behind-ArePlaced xs ys v

abbrev pub PlacedIn : Option (Entry Group) → Type 0
PlacedIn none = Unit
PlacedIn (some entry) = IsPlaced entry.group

pub find-PlacedIn :
    (key : List ℕ) (m : List (List ℕ × Entry Group)) → ArePlaced (named m) → PlacedIn (find key m)
find-PlacedIn key [] v = tt
find-PlacedIn key ((j, old) ∷ m) (p, v) = elim (Bool-cases (text_eq.beq j key)) [
  | inl same ↦ rw same p
  | inr other ↦ rw other (find-PlacedIn key m v)
]

pub sweep-IsSound : (now : ℕ) (r : Reassembler) → IsSound r → IsSound (sweep now r).1
unfolding sweep
sweep-IsSound now r v =
    let (_, left, inv) = take_expired_lem now r v.inv in
    record {
      inv = inv;
      placed = subst (λ m. ArePlaced (named m)) (sym left) (alive-ArePlaced now r.entries v.placed);
    }

pub delete-IsSound : (key : List ℕ) (r : Reassembler) → IsSound r → IsSound (delete key r)
unfolding delete
delete-IsSound key r v = record {
  inv = delete-Inv key r v.inv;
  placed =
      subst (λ m. ArePlaced (named m)) (sym ((idle_fields (remove key r)).0 ∙ remove-erase key r))
        (erase-ArePlaced key r.entries v.placed);
}

pub drop_oldest-IsSound : (r : Reassembler) → IsSound r → IsSound (drop_oldest r).1
unfolding drop_oldest
drop_oldest-IsSound r v = elim (take_oldest_cases r) [
  | inl (_, e) ↦ subst (λ z. IsSound z.1) (sym e) v
  | inr (key, _, _, _, e) ↦ subst (λ z. IsSound z.1) (sym e) (delete-IsSound key r v)
]

pub set-IsSound :
    (now : ℕ) (key : List ℕ) (group : Group) (r : Reassembler)
    → IsPlaced group
    → IsSound r
    → IsSound (set now key group r)
unfolding set
set-IsSound now key group r p v = record {
  inv = set-Inv now key group r v.inv;
  placed =
      last-ArePlaced (remove key r).entries key _
        (subst (λ m. ArePlaced (named m)) (sym (remove-erase key r))
          (erase-ArePlaced key r.entries v.placed))
        p;
}

pub hold-IsSound :
    (key : List ℕ) (group : Group) (r : Reassembler)
    → IsPlaced group
    → IsSound r
    → IsSound (hold key group r)
unfolding hold
hold-IsSound key group r p v = elim (Option-cases (find key r.entries)) [
  | inl absent ↦ rw (absent, hold) v
  | inr (entry, found) ↦
      let new : Entry Group = record entry { group = group } in
      rw (found, hold)
        (record {
          inv = record {
            weighed = record {
              distinct = put-Distinct key new r.entries v.inv.weighed.distinct;
              counted =
                  omega (arith, weights-put key r.entries entry new found, v.inv.weighed.counted);
            };
            swept =
                v.inv.swept
                ∙ ap not (
                    is_empty_of_find key r.entries entry found
                    ∙ sym (is_empty-put key new r.entries));
          };
          placed = put-ArePlaced key new r.entries p v.placed;
        })
]

-- A part in range takes its place in a group.
put-AreNumbered :
    (total n : ℕ) (pdu : PduObject) (ps : List (ℕ × PduObject))
    → 1 ≤ n
    → n ≤ total
    → AreNumbered total ps
    → AreNumbered total (put n pdu ps)
put-AreNumbered total n pdu [] l h a = (l, h, tt)
put-AreNumbered total n pdu ((m, q) ∷ ps) l h (b, c, a) = elim (Bool-cases (m == n)) [
  | inl same ↦ rw same (b, c, a)
  | inr other ↦ rw other (b, c, put-AreNumbered total n pdu ps l h a)
]

pub with_part-IsPlaced :
    (n : ℕ) (pdu : PduObject) (g : Group)
    → 1 ≤ n
    → n ≤ g.total
    → IsPlaced g
    → IsPlaced (with_part n pdu g)
with_part-IsPlaced n pdu g l h v = record {
  distinct = put-Distinct n (detach pdu) g.parts v.distinct;
  numbered = put-AreNumbered g.total n (detach pdu) g.parts l h v.numbered;
}
