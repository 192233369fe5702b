-- ===== src/Framer.antt =====
-- src/pdu-framer.ts, and the framing rule of src/pdu-refusal.ts. Octets are numbers, a Buffer is
-- the list of its octets.
pub mod Cuts
pub mod Stream
pub mod Chunking
mod Tests
use smpp_js.Prelude.{
  ℕ, zero, suc, ◌+◌, ◌-◌, ◌*◌, ◌^◌, ◌||◌, Option, none, some, List, [], ◌∷◌, ◌++◌, flatten, length,
  take, drop, replicate, ltb, leb, if◌then◌else◌,
}

abbrev pub max_pdu_length : ℕ
max_pdu_length = 1024 * 1024

-- The error of `framingRefusal`, with the number that its message names.
pub data FramingError : Type 0 where
  refusing_cmd_length : ℕ → FramingError

unfoldable pub framing_refusal : ℕ → Option FramingError
framing_refusal cmd_length =
    if ltb cmd_length 16 || ltb max_pdu_length cmd_length
    then some (refusing_cmd_length cmd_length)
    else none

-- `Buffer.readUInt32BE(0)` of a buffer that holds four octets.
unfoldable pub read_uint32_be : List ℕ → ℕ
read_uint32_be (a ∷ b ∷ c ∷ d ∷ _) = a * 2 ^ 24 + b * 2 ^ 16 + c * 2 ^ 8 + d
read_uint32_be _ = 0

pub record PduFramer : Type 0 where
  pub chunks : List (List ℕ)
  pub total_length : ℕ

abbrev pub fresh : PduFramer
fresh = record { chunks = []; total_length = 0 }

pub push : List ℕ → PduFramer → PduFramer
push chunk f =
    if ltb 0 (length chunk)
    then record { chunks = f.chunks ++ (chunk ∷ []); total_length = f.total_length + length chunk }
    else f

-- `Buffer.concat(list, totalLength)` cuts or fills with zeros to the length asked for.
buffer_concat : List (List ℕ) → ℕ → List ℕ
buffer_concat list len = take len (flatten list ++ replicate len 0)

join_first : ℕ → List (List ℕ) → ℕ → List ℕ × List (List ℕ)
unfolding buffer_concat
join_first size [] len = (buffer_concat [] len, buffer_concat [] len ∷ [])
join_first size (first ∷ rest) len =
    if leb size (length first)
    then (first, first ∷ rest)
    else (buffer_concat (first ∷ rest) len, buffer_concat (first ∷ rest) len ∷ [])

-- The first chunk with at least `size` octets, and the framer that holds it.
pub join : ℕ → PduFramer → List ℕ × PduFramer
unfolding join_first
join size f =
    let (first, chunks) = join_first size f.chunks f.total_length in
    (first, record f { chunks = chunks })

-- `this.chunks[0] = rest`, and the shift of an empty one.
replace_first : List ℕ → List (List ℕ) → List (List ℕ)
replace_first [] [] = []
replace_first (x ∷ xs) [] = (x ∷ xs) ∷ []
replace_first [] (_ ∷ chunks) = chunks
replace_first (x ∷ xs) (_ ∷ chunks) = (x ∷ xs) ∷ chunks

pub take_pdu : ℕ → PduFramer → List ℕ × PduFramer
unfolding join replace_first
take_pdu size f =
    let (source, joined) = join size f in
    (
      take size source,
      record {
        chunks = replace_first (drop size source) joined.chunks;
        total_length = joined.total_length - size;
      },
    )

pub data Framed : Type 0 where
  pdus : List (List ℕ) → Framed
  err : FramingError → Framed

-- The loop of `next`; `none` is a run out of fuel.
pub next_from : ℕ → PduFramer → List (List ℕ) → Option (PduFramer × Framed)
next_from zero f found = none
next_from (suc fuel) f found =
    let (head, joined) = join 16 f in
    let cmd_length = read_uint32_be head in
    let (pdu, rest) = take_pdu cmd_length joined in
    let more = next_from fuel rest (found ++ (pdu ∷ [])) in
    if ltb f.total_length 16 then some (f, pdus found) else elim (framing_refusal cmd_length) [
      | some e ↦ some (joined, err e)
      | none ↦ if ltb f.total_length cmd_length then some (joined, pdus found) else more
    ]

-- Each round takes at least 16 octets, so the octets held are fuel enough.
pub next : PduFramer → Option (PduFramer × Framed)
unfolding next_from join take_pdu read_uint32_be framing_refusal
next f = next_from (suc f.total_length) f []
