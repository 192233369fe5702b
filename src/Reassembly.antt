-- ===== src/Reassembly.antt =====
-- src/reassembly.ts over the expiring groups. Each reading of the clock is an argument, and so is
-- the id that `newId` gives; the losses announced are listed in their order.
pub mod Keys
pub mod Whole
pub mod Placed
pub mod Sound
mod Tests
use smpp_js.Prelude.{
  ℕ, zero, suc, ◌+◌, ◌-◌, Bool, true, false, not, ◌||◌, Option, none, some, List, [], ◌∷◌, ◌++◌,
  map, find, put, nat_eq, string_eq, text_eq, length, ltb, leb, ◌==◌, if◌then◌else◌,
}
use smpp_js.Prelude.Digits.{decimal}
use smpp_js.Groups.{
  Entry, ExpiringGroups, full, get, set, delete, take_oldest, weigh, take_all, take_expired,
}
use smpp_js.Retained.{PduObject, param_text, detach, retained_octets, sum}

pub data Spelling : Type 0 where
  sar udh : Spelling

-- Where a segment sits in its message, and what ties it to the rest.
pub record Concat : Type 0 where
  pub part : ℕ
  pub reference : ℕ
  pub total : ℕ
  pub spelling : Spelling

pub data LossReason : Type 0 where
  evicted timed_out link_gone : LossReason

pub record LostGroup : Type 0 where
  pub parts : ℕ
  pub reason : LossReason
  pub sms_id : List ℕ
  pub total : ℕ

pub data Refusal : Type 0 where
  no_room unplaceable : Refusal

pub data Collected : Type 0 where
  refused : Refusal → Collected
  -- the id, and the segments of a message that is whole
  kept : List ℕ → Option (List PduObject) → Collected

pub record Group : Type 0 where
  pub parts : List (ℕ × PduObject)
  pub sms_id : List ℕ
  pub total : ℕ

abbrev pub Reassembler : Type 0
Reassembler = ExpiringGroups (List ℕ) Group

abbrev pub spelling_text : Spelling → List ℕ
spelling_text sar = b's' ∷ b'a' ∷ b'r' ∷ []
spelling_text udh = b'u' ∷ b'd' ∷ b'h' ∷ []

-- The four parts, joined by NUL.
unfoldable pub group_key : PduObject → Concat → List ℕ
unfolding param_text
group_key pdu concat =
    param_text (find "source_addr" pdu.params)
    ++ (0
        ∷ (param_text (find "destination_addr" pdu.params)
            ++ (0 ∷ (spelling_text concat.spelling ++ (0 ∷ decimal concat.reference)))))

unfoldable pub lost : LossReason → ℕ → Group → LostGroup
lost reason parts group = record {
  parts = parts;
  reason = reason;
  sms_id = group.sms_id;
  total = group.total;
}

-- Every group of these is lost, with all its parts.
unfoldable pub all_lost : LossReason → List (List ℕ × Group) → List LostGroup
unfolding lost
all_lost reason groups = map (λ g. lost reason (length g.1.parts) g.1) groups

unfoldable pub sweep : ℕ → Reassembler → List LostGroup × Reassembler
unfolding all_lost
sweep now r = let (taken, rest) = take_expired now r in (all_lost timed_out taken, rest)

unfoldable pub clear : Reassembler → List LostGroup × Reassembler
unfolding all_lost
clear r = let (taken, rest) = take_all r in (all_lost link_gone taken, rest)

abbrev pub total_differs : Concat → Option Group → Bool
total_differs concat none = false
total_differs concat (some group) = not (group.total == concat.total)

unfoldable pub placeable : Concat → Option Group → Bool
placeable concat existing =
    if ltb concat.part 1 || (ltb concat.total 1 || ltb concat.total concat.part)
    then false
    else not (total_differs concat existing)

abbrev lost_oldest : Option (List ℕ × Group) → List LostGroup
lost_oldest none = []
lost_oldest (some (_, group)) = lost evicted (length group.parts) group ∷ []

unfoldable pub drop_oldest : Reassembler → List LostGroup × Reassembler
unfolding lost
drop_oldest r = let (oldest, rest) = take_oldest r in (lost_oldest oldest, rest)

abbrev pub empty_group : List ℕ → ℕ → Group
empty_group id total = record { parts = []; sms_id = id; total = total }

-- `open`: the losses, the group, and the store that holds it.
unfoldable pub open_group :
    ℕ → List ℕ → List ℕ → ℕ → Reassembler → (List LostGroup × Group) × Reassembler
unfolding drop_oldest
open_group now key id total r =
    let (losses, room) = if full r then drop_oldest r else ([], r) in
    ((losses, empty_group id total), set now key (empty_group id total) room)

-- The group is shared with its entry, so a part that it takes is there at once.
unfoldable pub hold : List ℕ → Group → Reassembler → Reassembler
hold key group r = elim (find key r.entries) [
  | none ↦ r
  | some entry ↦ record r { entries = put key (record entry { group = group }) r.entries }
]

-- The segment that was just taken is refused, so it is none of the loss of its own group.
abbrev pub loss_of : List ℕ → List ℕ × Group → List LostGroup
loss_of current (key, oldest) =
    let gone = if text_eq.beq key current then length oldest.parts - 1 else length oldest.parts in
    if ltb 0 gone then lost evicted gone oldest ∷ [] else []

abbrev pub losses_of : List ℕ → List (List ℕ × Group) → List LostGroup
losses_of current [] = []
losses_of current (g ∷ gs) = loss_of current g ++ losses_of current gs

abbrev pub is_among : List ℕ → List (List ℕ × Group) → Bool
is_among current [] = false
is_among current ((key, _) ∷ gs) = text_eq.beq key current || is_among current gs

-- `trim`: whether the current group survived, and the losses.
unfoldable pub trim : List ℕ → Group → Reassembler → Option ((Bool × List LostGroup) × Reassembler)
unfolding lost retained_octets
trim current group r = elim (weigh current (sum (map (λ p. retained_octets p.1) group.parts)) r) [
  | none ↦ none
  | some (taken, rest) ↦ some ((not (is_among current taken), losses_of current taken), rest)
]

-- `[...entries].sort(([a], [b]) => a - b)`
abbrev pub insert : ℕ × PduObject → List (ℕ × PduObject) → List (ℕ × PduObject)
insert p [] = p ∷ []
insert p (q ∷ qs) = let later = insert p qs in if leb p.0 q.0 then p ∷ q ∷ qs else q ∷ later

unfoldable pub sort : List (ℕ × PduObject) → List (ℕ × PduObject)
sort [] = []
sort (p ∷ ps) = insert p (sort ps)

-- What becomes of a group that has just taken a part.
unfoldable pub settle :
    List ℕ → Group → Reassembler → Option ((Collected × List LostGroup) × Reassembler)
unfolding trim sort
settle key group r =
    if ltb (length group.parts) group.total
    then (elim (trim key group r) [
      | none ↦ none
      | some ((survived, losses), rest) ↦
          some ((if survived then kept group.sms_id none else refused no_room, losses), rest)
    ])
    else some ((kept group.sms_id (some (map (λ p. p.1) (sort group.parts))), []), delete key r)

-- `existing ?? this.open(key, concat.total)`
abbrev pub opened :
    ℕ → List ℕ → List ℕ → ℕ → Option Group → Reassembler → (List LostGroup × Group) × Reassembler
opened now key id total (some group) r = (([], group), r)
opened now key id total none r = open_group now key id total r

abbrev pub with_part : ℕ → PduObject → Group → Group
with_part part pdu group = record group { parts = put part (detach pdu) group.parts }

-- `collect`, with the times of the sweep and of a group that is opened; the outer `none` is a run
-- out of fuel in the weighing.
unfoldable pub collect :
    ℕ
    → ℕ
    → List ℕ
    → PduObject
    → Concat
    → Reassembler
    → Option ((Collected × List LostGroup) × Reassembler)
unfolding sweep group_key placeable open_group hold settle detach
collect swept_at opened_at id pdu concat r =
    let (expired, swept) = sweep swept_at r in
    let key = group_key pdu concat in
    let existing = get key swept in
    let ((dropped, group), room) = opened opened_at key id concat.total existing swept in
    let group' = with_part concat.part pdu group in
    if not (placeable concat existing)
    then some ((refused unplaceable, expired), swept)
    else (elim (settle key group' (hold key group' room)) [
      | none ↦ none
      | some ((collected, losses), rest) ↦ some ((collected, expired ++ (dropped ++ losses)), rest)
    ])
