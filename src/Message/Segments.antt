-- ===== src/Message/Segments.antt =====
-- The segments of `splitMessage` put together again, as `decodeMessage` and `concatInfo` read them.
use smpp_js.Prelude.{
  ℕ, zero, suc, ◌+◌, ◌%◌, ◌≤◌, ◌≡◌, ◌≢◌, ◌<◌, ◌⊎◌, refl, sym, ap, ◌∙◌, subst, inl, inr, true, false,
  Bool-cases, Option, some, none, List, [], ◌∷◌, ◌++◌, map, length, get_elem?, flatten, leb, ltb,
  arith, ltb→le, ltb→lt,
}
use smpp_js.Constants.{has_udh}
use smpp_js.Encodings.{
  EncodingName, ascii, latin1, ucs2, encode, decode, code_points, data_coding_by_encoding,
  encoding_by_data_coding, message_class_encoding, message_class_of, detect,
}
use smpp_js.Encodings.Lossless.{IsText}
use smpp_js.Udh.{concat_info, udh_length}
use smpp_js.Udh.Elements.{short_numbering, concat_info-message_of}
use smpp_js.Message.{
  segment_units, max_segments, single_message_bits, resolved, decode_message, bit_count, split_from,
  numbered, split_message,
}
use smpp_js.Message.Points.{Carried, lossless, detect-Carried}
use smpp_js.Message.Split.{
  flatten-code_points, code_points-Pieces, split_from-flatten, Fit, split_from-Fit, cost-flatten,
  split_from-count,
}

-- The coding that an alphabet is sent under is read as that alphabet.
pub data_coding_back : (e : EncodingName) → encoding_by_data_coding (data_coding_by_encoding e) ≡ e
unfolding encoding_by_data_coding data_coding_by_encoding message_class_encoding message_class_of
data_coding_back ascii = refl
data_coding_back latin1 = refl
data_coding_back ucs2 = refl

-- The text of a segment that is read behind a header.
abbrev pub text_of : EncodingName → List ℕ → List ℕ
text_of e segment = (decode_message segment (data_coding_by_encoding e) 0x40).0

numbered_text :
    (e : EncodingName) (reference total n : ℕ) (part : List ℕ)
    → Carried e part
    → text_of e (5 ∷ 0 ∷ 3 ∷ (reference % 256) ∷ total ∷ n ∷ encode e part) ≡ part
unfolding decode_message has_udh udh_length
numbered_text e reference total n part v =
    ap (λ d. decode d (encode e part)) (data_coding_back e) ∙ lossless e part v

numbered-text_of :
    (e : EncodingName) (reference total budget n : ℕ) (parts : List (List ℕ))
    → Fit e budget parts
    → flatten (map (text_of e) (numbered e reference total n parts)) ≡ flatten parts
unfolding numbered flatten
numbered-text_of e reference total budget n [] f = refl
numbered-text_of e reference total budget n (p ∷ ps) (v, m, f) =
    ap (λ t. t ++ flatten (map (text_of e) (numbered e reference total (suc n) ps)))
      (numbered_text e reference total n p v)
    ∙ ap (◌++◌ p) (numbered-text_of e reference total budget (suc n) ps f)

length-numbered :
    (e : EncodingName) (reference total n : ℕ) (parts : List (List ℕ))
    → length (numbered e reference total n parts) ≡ length parts
unfolding numbered
length-numbered e reference total n [] = refl
length-numbered e reference total n (p ∷ ps) = ap suc (length-numbered e reference total (suc n) ps)

-- A segment of the given place: it is no longer than a message can be, and its header numbers it.
abbrev pub IsSegment : EncodingName → ℕ → ℕ → ℕ → List ℕ → Type 0
IsSegment e reference total part s =
    (length s ≤ 6 + segment_units e)
    × (concat_info s
        ≡ some (some (record { part = part; reference = reference % 256; total = total })))

some_inj : {a b : List ℕ} → some a ≡ some b → a ≡ b
some_inj h = cc

numbered-IsSegment :
    (e : EncodingName) (reference total n i : ℕ) (parts : List (List ℕ)) (s : List ℕ)
    → Fit e (segment_units e) parts
    → get_elem? (numbered e reference total n parts) i ≡ some s
    → IsSegment e reference total (i + n) s
unfolding numbered
numbered-IsSegment e reference total n i [] s f h = cc
numbered-IsSegment e reference total n zero (p ∷ ps) s (v, m, f) h =
    subst (λ k. IsSegment e reference total k s) (omega arith)
      (subst (IsSegment e reference total n) (some_inj h) (
        omega (arith, m),
        concat_info-message_of (short_numbering (reference % 256) total n ∷ []) (encode e p)
            (tt, tt),
      ))
numbered-IsSegment e reference total n (suc i) (p ∷ ps) s (v, m, f) h =
    subst (λ k. IsSegment e reference total k s) (omega arith)
      (numbered-IsSegment e reference total (suc n) i ps s f h)

-- The units of an alphabet that one SMS holds: 160 septets, or 140 octets.
abbrev pub single_units : EncodingName → ℕ
single_units ascii = 160
single_units latin1 = 140
single_units ucs2 = 140

-- What the segments of a text are: of one that an SMS holds, one message that reads back; of a
-- longer one, numbered segments that do so together, or none where it needs more units than 255
-- segments are sure to hold.
abbrev pub Rejoins : List ℕ → EncodingName → ℕ → List (List ℕ) → Type 0
Rejoins m e reference segments =
    ((length (encode e m) ≤ single_units e)
      × (segments ≡ encode e m ∷ [])
      × (decode_message (encode e m) (data_coding_by_encoding e) 0 ≡ (m, none)))
    ⊎ (((segments ≡ []) × (33405 ≤ length (encode e m)))
        ⊎ ((single_units e < length (encode e m))
            × (length segments ≤ 255)
            × (flatten (map (text_of e) segments) ≡ m)
            × ((i : ℕ) (s : List ℕ)
                → get_elem? segments i ≡ some s
                → IsSegment e reference (length segments) (i + 1) s)))

single_fits :
    (e : EncodingName) (m : List ℕ)
    → leb (bit_count m (some e)) single_message_bits ≡ true
    → length (encode e m) ≤ single_units e
unfolding bit_count
single_fits ascii m h = ground arith
single_fits latin1 m h = ground arith
single_fits ucs2 m h = ground arith

single_passed :
    (e : EncodingName) (m : List ℕ)
    → leb (bit_count m (some e)) single_message_bits ≡ false
    → single_units e < length (encode e m)
unfolding bit_count
single_passed ascii m h = ground arith
single_passed latin1 m h = ground arith
single_passed ucs2 m h = ground arith

units_enough : (e : EncodingName) → 134 ≤ segment_units e
unfolding segment_units
units_enough ascii = omega arith
units_enough latin1 = omega arith
units_enough ucs2 = omega arith

whole_message :
    (e : EncodingName) (m : List ℕ)
    → Carried e m
    → decode_message (encode e m) (data_coding_by_encoding e) 0 ≡ (m, none)
unfolding decode_message has_udh
whole_message e m v =
    ap (λ d. (decode d (encode e m), none)) (data_coding_back e)
    ∙ ap (λ t. (t, none)) (lossless e m v)

abbrev parts_of : EncodingName → List ℕ → List (List ℕ)
parts_of e m = split_from e (segment_units e) (code_points m) [] 0

parts-Fit : (e : EncodingName) (m : List ℕ) → Carried e m → Fit e (segment_units e) (parts_of e m)
unfolding encode
parts-Fit ascii m v =
    split_from-Fit ascii (segment_units ascii) (code_points m) []
      (omega (arith, units_enough ascii)) (code_points-Pieces ascii m v) tt (omega arith)
parts-Fit latin1 m v =
    split_from-Fit latin1 (segment_units latin1) (code_points m) []
      (omega (arith, units_enough latin1)) (code_points-Pieces latin1 m v) tt (omega arith)
parts-Fit ucs2 m v =
    split_from-Fit ucs2 (segment_units ucs2) (code_points m) [] (omega (arith, units_enough ucs2))
      (code_points-Pieces ucs2 m v) tt (omega arith)

-- Parts too many for one octet come of a text that is long.
many_parts :
    (e : EncodingName) (m : List ℕ)
    → Carried e m
    → 256 ≤ length (parts_of e m)
    → 33405 ≤ length (encode e m)
many_parts e m v many =
    let back = flatten-code_points m in
    let priced =
      cost-flatten e (code_points m) (code_points-Pieces e m v) (subst (Carried e) (sym back) v) in
    subst (λ t. 33405 ≤ length (encode e t)) back
      (omega (
        arith,
        many,
        priced,
        split_from-count e (segment_units e) (code_points m) [] 0 (units_enough e)
            (code_points-Pieces e m v),
      ))

numbered_whole :
    (e : EncodingName) (m : List ℕ) (reference : ℕ)
    → Carried e m
    → length (parts_of e m) ≤ 255
    → let segments = numbered e reference (length (parts_of e m)) 1 (parts_of e m) in
      (length segments ≤ 255)
      × (flatten (map (text_of e) segments) ≡ m)
      × ((i : ℕ) (s : List ℕ)
          → get_elem? segments i ≡ some s
          → IsSegment e reference (length segments) (i + 1) s)
numbered_whole e m reference v few =
    let parts = parts_of e m in
    let size = length-numbered e reference (length parts) 1 parts in
    (
      subst (λ n. n ≤ 255) (sym size) few,
      numbered-text_of e reference (length parts) (segment_units e) 1 parts (parts-Fit e m v)
          ∙ split_from-flatten e (segment_units e) (code_points m) [] 0
          ∙ flatten-code_points m,
      λ i s h.
          subst (λ n. IsSegment e reference n (i + 1) s) (sym size)
            (numbered-IsSegment e reference (length parts) 1 i parts s (parts-Fit e m v) h),
    )

-- A text that its alphabet carries comes back from its segments: one of at most 160 septets of the
-- GSM alphabet or 140 octets of another from one message without a header, a longer one from at most
-- 255 segments joined in their order, each within its
-- budget of units and a header of six octets that names its part, the total and the reference. There
-- are no segments at all only where the text needs 33405 units or more.
pub split_message-Rejoins :
    (m : List ℕ) (encoding : Option EncodingName) (reference : ℕ)
    → Carried (resolved m encoding) m
    → Rejoins m (resolved m encoding) reference (split_message m encoding reference)
unfolding split_message
split_message-Rejoins m encoding reference v =
    let e = resolved m encoding in
    elim (Bool-cases (leb (bit_count m (some e)) single_message_bits)) [
      | inl fits ↦ rw fits (inl (single_fits e m fits, refl, whole_message e m v))
      | inr long ↦ elim (Bool-cases (ltb max_segments (length (parts_of e m)))) [
        | inl many ↦ rw (long, many) (inr (inl (refl, many_parts e m v (ltb→lt _ _ many))))
        | inr few ↦
            let (size, joined, numbers) = numbered_whole e m reference v (ltb→le _ _ few) in
            rw (long, few) (inr (inr (single_passed e m long, size, joined, numbers)))
      ]
    ]

-- The segments of a text of more than one SMS, where there are any.
pub split_message-long :
    (m : List ℕ) (encoding : Option EncodingName) (reference : ℕ)
    → Carried (resolved m encoding) m
    → leb (bit_count m (some (resolved m encoding))) single_message_bits ≡ false
    → split_message m encoding reference ≢ []
    → let e = resolved m encoding in
      let segments = split_message m encoding reference in
      (length segments ≤ 255)
      × (flatten (map (text_of e) segments) ≡ m)
      × ((i : ℕ) (s : List ℕ)
          → get_elem? segments i ≡ some s
          → IsSegment e reference (length segments) (i + 1) s)
unfolding split_message
split_message-long m encoding reference v long there =
    let e = resolved m encoding in
    elim (Bool-cases (ltb max_segments (length (parts_of e m)))) [
      | inl many ↦
          let none_left : split_message m encoding reference ≡ [] = rw (long, many) refl in
          absurd (there none_left)
      | inr few ↦ rw (long, few) (numbered_whole e m reference v (ltb→le _ _ few))
    ]

-- The alphabet that is detected loses nothing of a text without a raw escape.
pub split_message-detected :
    (m : List ℕ) (reference : ℕ)
    → IsText m
    → Rejoins m (detect m) reference (split_message m none reference)
split_message-detected m reference v = split_message-Rejoins m none reference (detect-Carried m v)
