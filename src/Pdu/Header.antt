-- ===== src/Pdu/Header.antt =====
-- The header of src/pdu.ts is read as it was written, and the framer cuts what it heads.
use smpp_js.Prelude.{
  ℕ, ◌+◌, ◌^◌, ◌≤◌, ◌<◌, ◌≡◌, refl, sym, ap, subst, ◌∙◌, none, some, List, [], ◌∷◌, ◌++◌,
  append-nil, append_assoc, flatten, length, take, drop, length-append, take-append, drop-append,
  arith,
}
use smpp_js.Wire.Ints.{four, read_be, write_be}
use smpp_js.Defs.Commands.{command_name_by_id}
use smpp_js.Framer.{
  max_pdu_length, framing_refusal, read_uint32_be, PduFramer, fresh, push, next, pdus,
}
use smpp_js.Framer.Cuts.{Left, keeps, Cuts, short, octets, IsCounted}
use smpp_js.Framer.Stream.{push-IsCounted}
use smpp_js.Framer.Chunking.{Cuts-whole, next-Cuts}
use smpp_js.Pdu.{PduHeader, header_of, with_header, check_framing}

-- What `buildPdu` is given for one PDU, once its body is built.
pub record Built : Type 0 where
  pub id : ℕ
  pub status : ℕ
  pub seq_nr : ℕ
  pub body : List ℕ

abbrev pub pdu_of : Built → List ℕ
pdu_of b = with_header b.id b.status b.seq_nr b.body

-- Each field is held by its four octets, and the PDU by the length that the framer allows.
pub record Fits (b : Built) : Type 0 where
  pub id_fits : b.id < 2 ^ 32
  pub status_fits : b.status < 2 ^ 32
  pub seq_fits : b.seq_nr < 2 ^ 32
  pub length_fits : length b.body + 16 ≤ max_pdu_length

four_back : (n : ℕ) (post : List ℕ) → n < 2 ^ 32 → read_be four (write_be four n ++ post) ≡ n
unfolding read_be write_be
four_back n post h = omega arith

abbrev pub SameHeader : PduHeader → Built → Type 0
SameHeader h b =
    (h.cmd_id ≡ b.id)
    × (h.cmd_length ≡ length b.body + 16)
    × (h.cmd_status_id ≡ b.status)
    × (h.seq_nr ≡ b.seq_nr)
    × (h.cmd_name ≡ command_name_by_id b.id)

length-pdu_of : (b : Built) → length (pdu_of b) ≡ length b.body + 16
unfolding with_header
length-pdu_of b = omega arith

header_fields : (b : Built) → Fits b → SameHeader (header_of (pdu_of b)) b
unfolding header_of with_header
header_fields b f =
    let last : List ℕ = write_be four b.seq_nr ++ b.body in
    let later : List ℕ = write_be four b.status ++ last in
    let id : read_be four (drop 4 (pdu_of b)) ≡ b.id = four_back b.id later f.id_fits in
    (
      id,
      four_back (length b.body + 16) (write_be four b.id ++ later) (omega (arith, f.length_fits)),
      four_back b.status last f.status_fits,
      four_back b.seq_nr b.body f.seq_fits,
      ap command_name_by_id id,
    )

built_passes : (n : ℕ) → 16 ≤ n → n ≤ max_pdu_length → framing_refusal n ≡ none
unfolding framing_refusal
built_passes n h m = ground arith

pdu_of-length :
    (b : Built) (post : List ℕ) → Fits b → read_be four (pdu_of b ++ post) ≡ length b.body + 16
unfolding with_header
pdu_of-length b post f =
    four_back (length b.body + 16)
      (write_be four b.id
        ++ (write_be four b.status ++ (write_be four b.seq_nr ++ (b.body ++ post))))
      (omega (arith, f.length_fits))

check_passes :
    (pdu : List ℕ)
    → 16 ≤ length pdu
    → read_be four pdu ≡ length pdu
    → framing_refusal (length pdu) ≡ none
    → check_framing pdu ≡ none
unfolding check_framing
check_passes pdu l e g = ground (arith, ap framing_refusal e)

-- The header of a built PDU whose fields are within 32 bits, and which is of at most 1 MiB, is read
-- back field by field, its length is that of the whole PDU, and the framing check passes.
pub header_of-pdu_of :
    (b : Built)
    → Fits b
    → SameHeader (header_of (pdu_of b)) b
      × (length (pdu_of b) ≡ length b.body + 16)
      × (check_framing (pdu_of b) ≡ none)
header_of-pdu_of b f =
    let l = length-pdu_of b in
    let n : read_be four (pdu_of b) ≡ length b.body + 16 =
      ap (read_be four) (sym (append-nil (pdu_of b))) ∙ pdu_of-length b [] f in
    let passes : framing_refusal (length (pdu_of b)) ≡ none =
      ap framing_refusal l ∙ built_passes _ (omega arith) f.length_fits in
    (header_fields b f, l, check_passes (pdu_of b) (omega (arith, l)) (n ∙ sym l) passes)

read_both : (bs : List ℕ) → read_uint32_be bs ≡ read_be four bs
unfolding read_uint32_be read_be
read_both (a ∷ b ∷ c ∷ d ∷ _) = refl
read_both [] = refl
read_both (a ∷ []) = refl
read_both (a ∷ b ∷ []) = refl
read_both (a ∷ b ∷ c ∷ []) = refl

abbrev pub AllFit : List Built → Type 0
AllFit [] = Unit
AllFit (b ∷ bs) = Fits b × AllFit bs

abbrev pub pdus_of : List Built → List (List ℕ)
pdus_of [] = []
pdus_of (b ∷ bs) = pdu_of b ∷ pdus_of bs

cuts_built :
    (b : Built) (rest : List ℕ) {ps : List (List ℕ)} {o : Left}
    → Fits b
    → Cuts rest ps o
    → Cuts (pdu_of b ++ rest) (pdu_of b ∷ ps) o
cuts_built b rest f k =
    let l = length-pdu_of b in
    let n : read_uint32_be (pdu_of b ++ rest) ≡ length (pdu_of b) =
      read_both _ ∙ pdu_of-length b rest f ∙ sym l in
    let total = length-append (pdu_of b) rest in
    Cuts-whole (pdu_of b ++ rest) (pdu_of b) rest (omega (arith, l, total))
      (ap framing_refusal (n ∙ l) ∙ built_passes _ (omega arith) f.length_fits)
      (omega (arith, n, total))
      (sym (ap (λ m. take m (pdu_of b ++ rest)) n ∙ take-append (pdu_of b) rest))
      (sym (ap (λ m. drop m (pdu_of b ++ rest)) n ∙ drop-append (pdu_of b) rest)) k

Cuts-pdus_of : (bs : List Built) → AllFit bs → Cuts (flatten (pdus_of bs)) (pdus_of bs) (keeps [])
unfolding flatten
Cuts-pdus_of [] f = short (omega arith)
Cuts-pdus_of (b ∷ bs) (f, fs) = cuts_built b _ f (Cuts-pdus_of bs fs)

-- A framer to which these chunks came in one after the other.
abbrev pub arrived : List (List ℕ) → PduFramer → PduFramer
arrived [] f = f
arrived (chunk ∷ chunks) f = arrived chunks (push chunk f)

arrived-IsCounted :
    (chunks : List (List ℕ)) (f : PduFramer)
    → IsCounted f
    → IsCounted (arrived chunks f) × (octets (arrived chunks f) ≡ octets f ++ flatten chunks)
unfolding flatten
arrived-IsCounted [] f c = (c, sym (append-nil (octets f)))
arrived-IsCounted (chunk ∷ chunks) f c =
    let (counted, held) = push-IsCounted chunk f c in
    let (all, whole) = arrived-IsCounted chunks (push chunk f) counted in
    (
      all,
      whole ∙ ap (λ z. z ++ flatten chunks) held ∙ append_assoc (octets f) chunk (flatten chunks),
    )

-- Built PDUs, of fields within 32 bits and of at most 1 MiB each, that are sent one after the other
-- and arrive at a new framer in any chunks: `next` gives exactly those PDUs, with nothing left.
pub next-pdus_of :
    (bs : List Built) (chunks : List (List ℕ))
    → AllFit bs
    → flatten chunks ≡ flatten (pdus_of bs)
    → (g : PduFramer) × (next (arrived chunks fresh) ≡ some (g, pdus (pdus_of bs)))
      × (octets g ≡ [])
unfolding flatten
next-pdus_of bs chunks f e =
    let (counted, held) = arrived-IsCounted chunks fresh refl in
    next-Cuts (arrived chunks fresh) counted
      (subst (λ z. Cuts z (pdus_of bs) (keeps [])) (sym (held ∙ e)) (Cuts-pdus_of bs f))
