-- ===== src/DlrMerger.antt =====
-- src/dlr-merger.ts: the receipts of a message in several segments, merged into one report. Within
-- one call the clock gives one time. A Set is the list of its members, each once.
pub mod Apart
pub mod Worst
pub mod Sorted
pub mod Reused
pub mod Merged
mod Tests
use smpp_js.Prelude.{
  ℕ, zero, suc, ◌+◌, Bool, true, false, not, ◌&&◌, ◌||◌, Option, none, some, List, [], ◌∷◌, ◌++◌,
  map, Eq, nat_eq, text_eq, find, put, length, ltb, leb, ◌==◌, if◌then◌else◌,
}
use smpp_js.Wire.{JsNumber}
use smpp_js.Groups.{
  Entry, ExpiringGroups, create, full, get, set, delete, take_oldest, take_all, take_expired,
}
use smpp_js.SmsId.{Numbering, parse_segment_id}

pub data MessageState : Type 0 where
  delivered accepted enroute scheduled skipped unknown expired deleted rejected undeliverable :
      MessageState

-- The fields of a receipt's text, where they are there.
pub record Receipt : Type 0 where
  pub done_date : Option (List ℕ)
  pub dlvrd : Option JsNumber
  pub err : Option (List ℕ)
  pub id : Option (List ℕ)
  pub stat : Option (List ℕ)
  pub sub : Option JsNumber
  pub submit_date : Option (List ℕ)
  pub text : Option (List ℕ)

-- A Date is its number of milliseconds.
pub record Dlr : Type 0 where
  pub done_date : Option JsNumber
  pub error_code : Option (List ℕ)
  pub intermediate : Bool
  pub receipt : Option Receipt
  pub sms_id : Option (List ℕ)
  pub status_id : ℕ
  pub status_msg : MessageState

pub record MessageDlr : Type 0 where
  pub dlr : Dlr
  pub segments : List Dlr

pub record Group : Type 0 where
  pub expected : List ℕ
  pub parts : List (ℕ × Dlr)

unfoldable pub severity : MessageState → ℕ
severity delivered = 0
severity accepted = 1
severity enroute = 2
severity scheduled = 3
severity skipped = 4
severity unknown = 5
severity expired = 6
severity deleted = 7
severity rejected = 8
severity undeliverable = 9

-- `Set.has` and `Set.add`
module _ {K : Type 0} ⦃keys : Eq K⦄ where
  abbrev pub has : K → List K → Bool
  has k [] = false
  has k (j ∷ js) = keys.beq j k || has k js

  abbrev pub add : K → List K → List K
  add k js = if has k js then js else js ++ (k ∷ [])

-- The loop of `idNumbering`: the bases and the parts found.
unfoldable pub numbering_from :
    List (Option (List ℕ)) → List (List ℕ) → List ℕ → Option (List (List ℕ) × List ℕ)
numbering_from [] bases parts = some (bases, parts)
numbering_from (none ∷ ids) bases parts = none
numbering_from (some sms_id ∷ ids) bases parts = elim (parse_segment_id sms_id) [
  | none ↦ none
  | some n ↦ numbering_from ids (add n.base bases) (add n.part parts)
]

-- `!base || bases.size !== 1 || parts.size !== smsIds.length`
abbrev pub one_message : ℕ → List (List ℕ) × List ℕ → Option (List ℕ × List ℕ)
one_message n ((c ∷ cs) ∷ [], parts) = if length parts == n then some (c ∷ cs, parts) else none
one_message n _ = none

unfoldable pub id_numbering : List (Option (List ℕ)) → Option (List ℕ × List ℕ)
unfolding numbering_from
id_numbering ids = elim (numbering_from ids [] []) [
  | none ↦ none
  | some found ↦ one_message (length ids) found
]

pub record DlrMerger : Type 0 where
  pub groups : ExpiringGroups (List ℕ) Group
  pub spent : ExpiringGroups (List ℕ) (Unit {0})

unfoldable pub create_merger : ℕ → ℕ → DlrMerger
unfolding create
create_merger max timeout = record {
  groups = create max none timeout;
  spent = create max none timeout;
}

unfoldable pub close : ℕ → List ℕ → DlrMerger → DlrMerger
unfolding delete full set
close now base m =
    let spent = delete base m.spent in
    let room = if full spent then (take_oldest spent).1 else spent in
    record { groups = delete base m.groups; spent = set now base tt room }

unfoldable pub close_each : ℕ → List (List ℕ × Group) → DlrMerger → DlrMerger
close_each now [] m = m
close_each now ((base, group) ∷ gone) m = close_each now gone (close now base m)

unfoldable pub sweep : ℕ → DlrMerger → DlrMerger
unfolding take_expired close_each close
sweep now m =
    let taken = take_expired now m.groups in close_each now taken.0 (record m { groups = taken.1 })

unfoldable pub drop_oldest : ℕ → DlrMerger → DlrMerger
unfolding close
drop_oldest now m =
    let taken = take_oldest m.groups in
    elim taken.0 [
      | none ↦ record m { groups = taken.1 }
      | some (base, _) ↦ close now base (record m { groups = taken.1 })
    ]

abbrev pub is_there : {A : Type 0} → Option A → Bool
is_there none = false
is_there (some _) = true

abbrev pub opened : ℕ → List ℕ → List ℕ → DlrMerger → DlrMerger
opened now base expected m = record m {
  groups = set now base (record { expected = expected; parts = [] }) m.groups;
}

unfoldable pub open_base : ℕ → List ℕ → List ℕ → DlrMerger → DlrMerger
unfolding take_expired get close full drop_oldest set
open_base now base expected m =
    let fresh = record m { spent = (take_expired now m.spent).1 } in
    if is_there (get base fresh.groups) || is_there (get base fresh.spent)
    then close now base fresh
    else opened now base expected (if full fresh.groups then drop_oldest now fresh else fresh)

unfoldable pub expect : ℕ → List (Option (List ℕ)) → DlrMerger → DlrMerger
unfolding id_numbering open_base
expect now ids m =
    if ltb (length ids) 2
    then m
    else elim (id_numbering ids) [ none ↦ m | some (base, parts) ↦ open_base now base parts m ]

-- The group is shared with its entry, so a receipt that it takes is there at once.
unfoldable pub hold : List ℕ → Group → ExpiringGroups (List ℕ) Group → ExpiringGroups (List ℕ) Group
hold base group g = elim (find base g.entries) [
  | none ↦ g
  | some entry ↦ record g { entries = put base (record entry { group = group }) g.entries }
]

-- `[...].sort(([a], [b]) => a - b)`
abbrev pub insert : ℕ × Dlr → List (ℕ × Dlr) → List (ℕ × Dlr)
insert p [] = p ∷ []
insert p (q ∷ qs) = let later = insert p qs in if leb p.0 q.0 then p ∷ q ∷ qs else q ∷ later

unfoldable pub sort : List (ℕ × Dlr) → List (ℕ × Dlr)
sort [] = []
sort (p ∷ ps) = insert p (sort ps)

-- The reduction to the worst status, from the first segment on; the first of equals stays.
unfoldable pub worst_of : Dlr → List Dlr → Dlr
unfolding severity
worst_of carry [] = carry
worst_of carry (one ∷ rest) =
    worst_of (if ltb (severity carry.status_msg) (severity one.status_msg) then one else carry) rest

-- The report; a group that is complete has a part.
abbrev pub report : List ℕ → List Dlr → Option MessageDlr
report base [] = none
report base (first ∷ rest) =
    some (record {
      dlr = record (worst_of first rest) { sms_id = some base };
      segments = first ∷ rest;
    })

-- What becomes of a group that has just taken a receipt.
unfoldable pub settle : ℕ → List ℕ → Group → DlrMerger → Option MessageDlr × DlrMerger
unfolding close sort worst_of
settle now base group m =
    if ltb (length group.parts) (length group.expected)
    then (none, m)
    else (report base (map (λ p. p.1) (sort group.parts)), close now base m)

abbrev pub numbering_of : Dlr → Option Numbering
numbering_of dlr =
    if dlr.intermediate
    then none
    else elim dlr.sms_id [ none ↦ none | some sms_id ↦ parse_segment_id sms_id ]

abbrev pub with_part : ℕ → Dlr → Group → Group
with_part number dlr group = record group { parts = put number dlr group.parts }

unfoldable pub collect : ℕ → Dlr → DlrMerger → Option MessageDlr × DlrMerger
unfolding sweep get hold settle
collect now dlr m =
    let swept = sweep now m in
    elim (numbering_of dlr) [
      | none ↦ (none, swept)
      | some n ↦ elim (get n.base swept.groups) [
        | none ↦ (none, swept)
        | some group ↦
            let group' = with_part n.part dlr group in
            if not (has n.part group.expected)
            then (none, swept)
            else settle now n.base group'
                (record swept { groups = hold n.base group' swept.groups })
      ]
    ]

unfoldable pub clear : DlrMerger → DlrMerger
clear m = record { groups = (take_all m.groups).1; spent = (take_all m.spent).1 }
