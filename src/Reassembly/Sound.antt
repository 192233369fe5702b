-- ===== src/Reassembly/Sound.antt =====
-- What `collect` of src/reassembly.ts keeps of its store, and what it answers.
use smpp_js.Prelude.{
  ℕ, ◌<◌, ltb→lt, put, nat_eq, ◌≤◌, ◌≡◌, refl, sym, subst, inl, inr, Bool, true, false, not,
  Bool-cases, Option, none, some, Option-cases, List, [], ◌++◌, map, find, text_eq, length, ltb,
  ltb→le, if◌then◌else◌, arith,
}
use smpp_js.Groups.{full, get, delete}
use smpp_js.Groups.Evict.{named, weigh-Evicted}
use smpp_js.Retained.{PduObject, detach, retained_octets, sum}
use smpp_js.Reassembly.{
  Concat, Collected, refused, kept, no_room, unplaceable, is_among, losses_of, LostGroup, Group,
  Reassembler, group_key, sweep, placeable, drop_oldest, empty_group, open_group, hold, trim, sort,
  settle, opened, with_part, collect,
}
use smpp_js.Reassembly.Whole.{IsPlaced, numbers_from, sort-numbers, find-sort_eq}
use smpp_js.Reassembly.Placed.{
  ArePlaced, IsSound, behind-ArePlaced, PlacedIn, find-PlacedIn, sweep-IsSound, delete-IsSound,
  drop_oldest-IsSound, set-IsSound, hold-IsSound, with_part-IsPlaced,
}

-- What is answered, by whether the segment can be placed and by the parts of its group with it: a
-- refusal as unplaceable exactly where it cannot; one for want of room or no message only where
-- parts are missing; and the message, which is those parts, one for each number from 1 to the total
-- and in their order.
abbrev pub IsAnswer : Bool → ℕ → List (ℕ × PduObject) → Collected → Type 0
IsAnswer can total parts (refused unplaceable) = can ≡ false
IsAnswer can total parts (refused no_room) = (can ≡ true) × (length parts < total)
IsAnswer can total parts (kept _ none) = (can ≡ true) × (length parts < total)
IsAnswer can total parts (kept _ (some whole)) =
    (can ≡ true)
    × ((ps : List (ℕ × PduObject)) × (whole ≡ map (λ p. p.1) ps)
        × (map (λ p. p.0) ps ≡ numbers_from 1 total)
        × ((n : ℕ) → find n ps ≡ find n parts))

-- The parts that a group has, if there is one.
abbrev pub parts_of : Option Group → List (ℕ × PduObject)
parts_of none = []
parts_of (some group) = group.parts

-- What is said of an answer to a segment.
abbrev Answers :
    ℕ → List (ℕ × PduObject) → Option ((Collected × List LostGroup) × Reassembler) → Type 0
Answers total parts o =
    (c : Collected) × (losses : List LostGroup) × (r : Reassembler) × (o ≡ some ((c, losses), r))
    × IsSound r
    × IsAnswer true total parts c

partial-IsAnswer :
    (total : ℕ) (parts : List (ℕ × PduObject)) (id : List ℕ) (b : Bool)
    → length parts < total
    → IsAnswer true total parts (if b then kept id none else refused no_room)
partial-IsAnswer total parts id true h = (refl, h)
partial-IsAnswer total parts id false h = (refl, h)

settle-Answers :
    (key : List ℕ) (group : Group) (r : Reassembler)
    → IsPlaced group
    → IsSound r
    → Answers group.total group.parts (settle key group r)
unfolding settle trim
settle-Answers key group r p v = elim (Bool-cases (ltb (length group.parts) group.total)) [
  | inl few ↦
      let (taken, h, e, ev) =
        weigh-Evicted key (sum (map (λ p. retained_octets p.1) group.parts)) r v.inv in
      (
        (if not (is_among key taken) then kept group.sms_id none else refused no_room),
        losses_of key taken,
        h,
        rw (few, settle, e, trim) refl,
        record {
          inv = ev.inv;
          placed =
              behind-ArePlaced taken (named h.entries) (subst ArePlaced (sym ev.parts) v.placed);
        },
        partial-IsAnswer group.total group.parts group.sms_id (not (is_among key taken))
            (ltb→lt (length group.parts) group.total few),
      )
  | inr all ↦ (
    kept group.sms_id (some (map (λ p. p.1) (sort group.parts))),
    [],
    delete key r,
    rw (all, settle) refl,
    delete-IsSound key r v,
    (
      refl,
      (
        sort group.parts,
        refl,
        sort-numbers group p (ltb→le (length group.parts) group.total all),
        λ n. find-sort_eq n group.parts p.distinct,
      ),
    ),
  )
]

abbrev PlacedGroup : Option Group → Type 0
PlacedGroup none = Unit
PlacedGroup (some group) = IsPlaced group

get-PlacedGroup : (key : List ℕ) (r : Reassembler) → IsSound r → PlacedGroup (get key r)
unfolding get
get-PlacedGroup key r v = elim (Option-cases (find key r.entries)) [
  | inl absent ↦ rw (absent, get) tt
  | inr (entry, found) ↦
      rw (found, get) (subst PlacedIn found (find-PlacedIn key r.entries v.placed))
]

-- What a segment that can be placed is known by.
abbrev FitsGroup : ℕ → Option Group → Type 0
FitsGroup total none = Unit
FitsGroup total (some group) = group.total ≡ total

placeable_lem :
    (concat : Concat) (existing : Option Group)
    → placeable concat existing ≡ true
    → (1 ≤ concat.part) × (concat.part ≤ concat.total) × FitsGroup concat.total existing
unfolding placeable
placeable_lem concat none h = ground arith
placeable_lem concat (some group) h = ground arith

room-IsSound : (r : Reassembler) → IsSound r → IsSound (if full r then drop_oldest r else ([], r)).1
room-IsSound r v = elim (Bool-cases (full r)) [
  | inl is_full ↦ rw is_full (drop_oldest-IsSound r v)
  | inr room ↦ rw room v
]

empty-IsPlaced : (id : List ℕ) (total : ℕ) → IsPlaced (empty_group id total)
empty-IsPlaced id total = record { distinct = tt; numbered = tt }

opened_lem :
    (now : ℕ) (key id : List ℕ) (total : ℕ) (existing : Option Group) (r : Reassembler)
    → IsSound r
    → PlacedGroup existing
    → FitsGroup total existing
    → IsPlaced (opened now key id total existing r).0.1
      × ((opened now key id total existing r).0.1.total ≡ total)
      × ((opened now key id total existing r).0.1.parts ≡ parts_of existing)
      × IsSound (opened now key id total existing r).1
unfolding open_group
opened_lem now key id total none r v p f = (
  empty-IsPlaced id total,
  refl,
  refl,
  set-IsSound now key (empty_group id total) (if full r then drop_oldest r else ([], r)).1
      (empty-IsPlaced id total) (room-IsSound r v),
)
opened_lem now key id total (some group) r v p f = (p, f, refl, v)

-- `collect` always returns, and keeps the store sound: its weights and its timer hold, and every
-- group has its parts under different numbers from 1 to its total. It refuses a segment as
-- unplaceable exactly where it cannot be placed in the swept store. Any other answer but a whole
-- message says that the parts held with this one are fewer than the total, and a whole message is
-- those parts, one for each number from 1 to the total, in their order.
pub collect-Answers :
    (swept_at opened_at : ℕ) (id : List ℕ) (pdu : PduObject) (concat : Concat) (r : Reassembler)
    → IsSound r
    → (c : Collected) × (losses : List LostGroup) × (after : Reassembler) × (collect swept_at
          opened_at id pdu concat r
        ≡ some ((c, losses), after))
      × IsSound after
      × IsAnswer
          (placeable concat (get (group_key pdu concat) (sweep swept_at r).1))
          concat.total
          (put concat.part
            (detach pdu)
            (parts_of (get (group_key pdu concat) (sweep swept_at r).1)))
          c
unfolding collect
collect-Answers swept_at opened_at id pdu concat r v =
    let swept = (sweep swept_at r).1 in
    let sound = sweep-IsSound swept_at r v in
    let key = group_key pdu concat in
    elim (Bool-cases (placeable concat (get key swept))) [
      | inr cannot ↦ (
        refused unplaceable,
        (sweep swept_at r).0,
        swept,
        rw (cannot, collect) refl,
        sound,
        cannot,
      )
      | inl can ↦
          let (first, last, fits) = placeable_lem concat (get key swept) can in
          let joined = opened opened_at key id concat.total (get key swept) swept in
          let (placed, total_is, parts_are, room) =
            opened_lem opened_at key id concat.total (get key swept) swept sound
              (get-PlacedGroup key swept sound) fits in
          let group = with_part concat.part pdu joined.0.1 in
          let placed' =
            with_part-IsPlaced concat.part pdu joined.0.1 first (omega (arith, last, total_is))
              placed in
          let (c, losses, after, e, kept_sound, answer) =
            settle-Answers key group (hold key group joined.1) placed'
              (hold-IsSound key group joined.1 placed' room) in
          (
            c,
            (sweep swept_at r).0 ++ (joined.0.0 ++ losses),
            after,
            rw (can, collect, e) refl,
            kept_sound,
            subst
                (λ b.
                  IsAnswer b concat.total (put concat.part (detach pdu) (parts_of (get key swept)))
                    c)
                (sym can)
                (subst (λ ps. IsAnswer true concat.total (put concat.part (detach pdu) ps) c)
                  parts_are (subst (λ t. IsAnswer true t group.parts c) total_is answer)),
          )
    ]
