-- ===== src/Udh.antt =====
-- src/udh.ts: the numbering of concatenated messages. A message is the list of its octets.
pub mod Elements
pub mod Reads
mod Tests
use smpp_js.Prelude.{
  ℕ, zero, suc, ◌+◌, ◌*◌, ◌&&◌, Bool, Option, none, some, List, [], ◌∷◌, length, get_elem?, take,
  drop, min, ltb, leb, ◌==◌, if◌then◌else◌,
}

-- `ConcatReference`, by its `current`.
abbrev pub ConcatReference : Type 0
ConcatReference = ℕ

abbrev pub unused : ConcatReference
unused = 0

-- The reference handed out, and the counter that holds it.
unfoldable pub next : ConcatReference → ℕ × ConcatReference
next current = let current' = if leb 255 current then 1 else current + 1 in (current', current')

-- `(message[0] ?? 0) + 1`
unfoldable pub udh_length : List ℕ → ℕ
udh_length [] = 1
udh_length (n ∷ _) = n + 1

pub record ConcatInfo : Type 0 where
  pub part : ℕ
  pub reference : ℕ
  pub total : ℕ

-- The numbering of fields that were read; a read past the end throws, which is `none`.
abbrev pub numbering : (part reference total : Option ℕ) → Option (Option ConcatInfo)
numbering (some part) (some reference) (some total) =
    some (some (record { part = part; reference = reference; total = total }))
numbering _ _ _ = none

-- `readUInt16BE` of its two octets.
abbrev pub uint16 : Option ℕ → Option ℕ → Option ℕ
uint16 (some high) (some low) = some (high * 256 + low)
uint16 _ _ = none

-- What an element of this kind and length says of the concatenation; the outer `none` is a read that
-- throws.
unfoldable pub concat_at : ℕ → ℕ → List ℕ → Option (Option ConcatInfo)
concat_at iei ie_length info =
    if iei == 0 && ie_length == 3
    then numbering (get_elem? info 2) (get_elem? info 0) (get_elem? info 1)
    else if iei == 8 && ie_length == 4
    then numbering (get_elem? info 3) (uint16 (get_elem? info 0) (get_elem? info 1))
        (get_elem? info 2)
    else some none

-- The loop of `concatInfo`; the outer `none` is a run out of fuel, or a read that throws.
unfoldable pub walk : ℕ → List ℕ → ℕ → ℕ → Option (Option ConcatInfo)
unfolding concat_at
walk zero message last offset = none
walk (suc fuel) message last offset =
    if ltb last (offset + 2) then some none else elim (get_elem? message offset) [
      | none ↦ none
      | some iei ↦ elim (get_elem? message (offset + 1)) [
        | none ↦ none
        | some ie_length ↦
            let info = take ie_length (drop (offset + 2) message) in
            let rest = walk fuel message last (offset + 2 + ie_length) in
            if ltb last (offset + 2 + ie_length)
            then some none
            else elim (concat_at iei ie_length info) [
              | none ↦ none
              | some none ↦ rest
              | some (some found) ↦ some (some found)
            ]
      ]
    ]

-- Each round moves on by two octets at least, so the end of the header is fuel enough.
unfoldable pub concat_info : List ℕ → Option (Option ConcatInfo)
unfolding walk
concat_info [] = some none
concat_info (n ∷ octets) =
    let last = min (n + 1) (length (n ∷ octets)) in walk (suc last) (n ∷ octets) last 1
