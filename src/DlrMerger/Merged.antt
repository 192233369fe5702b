-- ===== src/DlrMerger/Merged.antt =====
-- What `DlrMerger.collect` of src/dlr-merger.ts does with a receipt.
use mathlib.Core.List.{Perm}
use smpp_js.Prelude.{
  ℕ, ◌≤◌, ◌<◌, ◌≡◌, ◌⊎◌, refl, sym, ◌∙◌, inl, inr, true, false, Bool-cases, Option-cases, Option,
  none, some, List, [], ◌∷◌, map, nat_eq, text_eq, beq_refl, find, find-put, put, length, ltb,
  arith, ltb→lt, ltb→le,
}
use smpp_js.Groups.{ExpiringGroups, get}
use smpp_js.SmsId.{Numbering, parse_segment_id}
use smpp_js.DlrMerger.{
  Dlr, MessageDlr, Group, DlrMerger, has, sweep, hold, sort, worst_of, report, settle, numbering_of,
  with_part, collect,
}
use smpp_js.DlrMerger.Worst.{IsWorst, worst_of-IsWorst, length-sort}
use smpp_js.DlrMerger.Sorted.{IsSorted, sort-IsSorted, sort-Perm}
use smpp_js.DlrMerger.Reused.{IsSpent, close-IsSpent, close_gone, get_found}

-- A final receipt whose id is read as a base and a part.
abbrev pub IsNumberedBy : Numbering → Dlr → Type 0
IsNumberedBy n dlr =
    (dlr.intermediate ≡ false)
    × ((sms_id : List ℕ) × (dlr.sms_id ≡ some sms_id) × (parse_segment_id sms_id ≡ some n))

-- One that is of no use for merging.
abbrev pub IsUnnumbered : Dlr → Type 0
IsUnnumbered dlr =
    (dlr.intermediate ≡ true)
    ⊎ ((dlr.sms_id ≡ none)
        ⊎ ((sms_id : List ℕ) × (dlr.sms_id ≡ some sms_id) × (parse_segment_id sms_id ≡ none)))

-- A report on a base: its segments are the parts in the order of their numbers, and it is one of them
-- of which no other is worse, under the base as its id.
abbrev pub IsReport : List ℕ → List (ℕ × Dlr) → MessageDlr → Type 0
IsReport base parts r =
    ((ordered : List (ℕ × Dlr)) × (r.segments ≡ map (λ p. p.1) ordered)
      × IsSorted ordered
      × Perm ordered parts)
    × ((worst : Dlr) × (r.dlr ≡ record worst { sms_id = some base }) × IsWorst worst r.segments)

-- What a receipt of a part that is expected comes to.
abbrev pub Takes : List ℕ → Group → Option MessageDlr → DlrMerger → Type 0
Takes base group answer after =
    ((length group.parts < length group.expected)
      × (answer ≡ none)
      × (get base after.groups ≡ some group))
    ⊎ ((length group.expected ≤ length group.parts)
        × ((r : MessageDlr) × (answer ≡ some r) × IsReport base group.parts r)
        × (get base after.groups ≡ none)
        × IsSpent base after)

-- What `collect` comes to, from the merger once swept.
abbrev pub Collects : Dlr → DlrMerger → Option MessageDlr × DlrMerger → Type 0
Collects dlr swept (answer, after) =
    ((IsUnnumbered dlr
        ⊎ ((n : Numbering) × IsNumberedBy n dlr
            × ((get n.base swept.groups ≡ none)
                ⊎ ((group : Group) × (get n.base swept.groups ≡ some group)
                    × (has n.part group.expected ≡ false)))))
      × (answer ≡ none)
      × (after ≡ swept))
    ⊎ ((n : Numbering) × (group : Group) × IsNumberedBy n dlr
        × (get n.base swept.groups ≡ some group)
        × (has n.part group.expected ≡ true)
        × Takes n.base (with_part n.part dlr group) answer after)

numbered : (dlr : Dlr) (n : Numbering) → numbering_of dlr ≡ some n → IsNumberedBy n dlr
numbered dlr n h = elim (Bool-cases dlr.intermediate) [
  | inl early ↦ let gone : numbering_of dlr ≡ none = rw early refl in absurd (cc (sym gone ∙ h))
  | inr final ↦ elim (Option-cases dlr.sms_id) [
    | inl absent ↦
        let gone : numbering_of dlr ≡ none = rw (final, absent) refl in absurd (cc (sym gone ∙ h))
    | inr (sms_id, there) ↦
        let read : numbering_of dlr ≡ parse_segment_id sms_id = rw (final, there) refl in
        (final, (sms_id, there, sym read ∙ h))
  ]
]

unnumbered : (dlr : Dlr) → numbering_of dlr ≡ none → IsUnnumbered dlr
unnumbered dlr h = elim (Bool-cases dlr.intermediate) [
  | inl early ↦ inl early
  | inr final ↦ elim (Option-cases dlr.sms_id) [
    | inl absent ↦ inr (inl absent)
    | inr (sms_id, there) ↦
        let read : numbering_of dlr ≡ parse_segment_id sms_id = rw (final, there) refl in
        inr (inr (sms_id, there, sym read ∙ h))
  ]
]

report_made :
    (base : List ℕ) (ordered : List (ℕ × Dlr)) (parts : List (ℕ × Dlr))
    → IsSorted ordered
    → Perm ordered parts
    → 0 < length (map (λ p. p.1) ordered)
    → (r : MessageDlr) × (report base (map (λ p. p.1) ordered) ≡ some r) × IsReport base parts r
report_made base [] parts s p h = absurd (omega (arith, h))
report_made base ((k, first) ∷ rest) parts s p h = (
  record {
    dlr = record (worst_of first (map (λ q. q.1) rest)) { sms_id = some base };
    segments = first ∷ map (λ q. q.1) rest;
  },
  refl,
  (
    ((k, first) ∷ rest, refl, s, p),
    (worst_of first (map (λ q. q.1) rest), refl, worst_of-IsWorst first (map (λ q. q.1) rest)),
  ),
)

settle-Takes :
    (now : ℕ) (base : List ℕ) (group : Group) (m : DlrMerger)
    → get base m.groups ≡ some group
    → 0 < length group.parts
    → Takes base group (settle now base group m).0 (settle now base group m).1
unfolding settle
settle-Takes now base group m held some_part =
    elim (Bool-cases (ltb (length group.parts) (length group.expected))) [
      | inl waiting ↦ rw (waiting, settle) (inl (ltb→lt _ _ waiting, refl, held))
      | inr whole ↦
          rw (whole, settle)
            (inr (
              ltb→le _ _ whole,
              report_made base (sort group.parts) group.parts (sort-IsSorted group.parts)
                  (sort-Perm group.parts) (omega (arith, length-sort group.parts, some_part)),
              close_gone now base m,
              close-IsSpent now base m,
            ))
    ]

put_some : (n : ℕ) (d : Dlr) (ps : List (ℕ × Dlr)) → 0 < length (put n d ps)
put_some n d [] = omega arith
put_some n d (p ∷ ps) = ground arith

hold_there :
    (base : List ℕ) (old group : Group) (g : ExpiringGroups (List ℕ) Group)
    → get base g ≡ some old
    → get base (hold base group g) ≡ some group
unfolding get hold
hold_there base old group g h = elim (Option-cases (find base g.entries)) [
  | inl absent ↦ let gone : get base g ≡ none = rw (absent, get) refl in absurd (cc (sym gone ∙ h))
  | inr (entry, found) ↦
      rw (found, hold)
        (get_found base (record entry { group = group })
          (record g { entries = put base (record entry { group = group }) g.entries })
          (find-put base base (record entry { group = group }) g.entries ∙ rw (beq_refl base) refl))
]

-- After the messages that are overdue were closed, a receipt is left aside, with no report and
-- nothing changed, where it is intermediate, has no id that is read as a base and a part, or is of a
-- message that is not being merged or of a part that was not expected. Any other is put in the place
-- of its part, over an earlier one: while fewer parts than expected are there, there is no report;
-- otherwise there is one of all the parts in order with the worst status of them, and the message is
-- closed: spent, and no longer being merged.
pub collect-Collects :
    (now : ℕ) (dlr : Dlr) (m : DlrMerger) → Collects dlr (sweep now m) (collect now dlr m)
unfolding collect
collect-Collects now dlr m =
    let swept = sweep now m in
    elim (Option-cases (numbering_of dlr)) [
      | inl none_read ↦ rw (none_read, collect) (inl (inl (unnumbered dlr none_read), refl, refl))
      | inr (n, read) ↦ elim (Option-cases (get n.base swept.groups)) [
        | inl unknown ↦
            rw (read, collect)
              (rw unknown (inl (inr (n, numbered dlr n read, inl unknown), refl, refl)))
        | inr (group, known) ↦ elim (Bool-cases (has n.part group.expected)) [
          | inr other ↦
              rw (read, collect)
                (rw known (
                  rw other
                    (inl (inr (n, numbered dlr n read, inr (group, known, other)), refl, refl))))
          | inl expected ↦
              rw (read, collect)
                (rw known (
                  rw expected (
                    inr (
                      n,
                      group,
                      numbered dlr n read,
                      known,
                      expected,
                      settle-Takes now n.base (with_part n.part dlr group)
                          (record swept {
                            groups = hold n.base (with_part n.part dlr group) swept.groups;
                          })
                          (hold_there n.base group (with_part n.part dlr group) swept.groups known)
                          (put_some n.part dlr group.parts),
                    ))))
        ]
      ]
    ]
