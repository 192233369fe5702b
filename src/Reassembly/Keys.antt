-- ===== src/Reassembly/Keys.antt =====
-- The keys that src/reassembly.ts gives the segments of one message.
use smpp_js.Prelude.{
  ℕ, ◌≡◌, ◌≢◌, ◌↔◌, String, refl, sym, ap, ◌∙◌, List, [], ◌∷◌, ◌++◌, string_eq, find, arith,
}
use smpp_js.Prelude.Digits.{decimal, digit_value, number_from, number-decimal}
use smpp_js.Retained.{PduObject, param_text}
use smpp_js.Reassembly.{Spelling, sar, udh, Concat, spelling_text, group_key}

-- No NUL stands in the text.
abbrev pub HasNoNul : List ℕ → Type 0
HasNoNul [] = Unit
HasNoNul (c ∷ cs) = (c ≢ 0) × HasNoNul cs

-- The parts before the first NUL of two equal texts are equal, and so are those behind it.
split_at_nul :
    (a b x y : List ℕ) → HasNoNul a → HasNoNul b → a ++ (0 ∷ x) ≡ b ++ (0 ∷ y) → (a ≡ b) × (x ≡ y)
split_at_nul [] [] x y n m h = (refl, cc)
split_at_nul [] (d ∷ b) x y n (z, m) h = absurd (z (cc))
split_at_nul (c ∷ a) [] x y (z, n) m h = absurd (z (cc))
split_at_nul (c ∷ a) (d ∷ b) x y (z, n) (w, m) h =
    let tails : a ++ (0 ∷ x) ≡ b ++ (0 ∷ y) = cc in
    let (front, back) = split_at_nul a b x y n m tails in (cc, back)

decimal_injective : (m n : ℕ) → decimal m ≡ decimal n → m ≡ n
decimal_injective m n h =
    sym (number-decimal m) ∙ ap (number_from digit_value 10 0) h ∙ number-decimal n

spelling-HasNoNul : (s : Spelling) → HasNoNul (spelling_text s)
spelling-HasNoNul sar = (omega arith, (omega arith, (omega arith, tt)))
spelling-HasNoNul udh = (omega arith, (omega arith, (omega arith, tt)))

spelling_text_injective : (s t : Spelling) → spelling_text s ≡ spelling_text t → s ≡ t
spelling_text_injective sar sar h = refl
spelling_text_injective sar udh h = ground arith
spelling_text_injective udh sar h = ground arith
spelling_text_injective udh udh h = refl

-- What a parameter of the PDU reads as text.
abbrev pub address : String → PduObject → List ℕ
address name pdu = param_text (find name pdu.params)

-- No NUL stands in the addresses, as in every C-Octet String that was read.
abbrev pub IsAddressed : PduObject → Type 0
IsAddressed pdu = HasNoNul (address "source_addr" pdu) × HasNoNul (address "destination_addr" pdu)

-- Two segments whose addresses hold no NUL have the same key exactly when they agree in both
-- addresses, in the spelling of their numbering and in its reference.
pub group_key_iff :
    (p q : PduObject) (c d : Concat)
    → IsAddressed p
    → IsAddressed q
    → (group_key p c ≡ group_key q d) ↔ (
        (address "source_addr" p ≡ address "source_addr" q)
        × (address "destination_addr" p ≡ address "destination_addr" q)
        × (c.spelling ≡ d.spelling)
        × (c.reference ≡ d.reference))
unfolding group_key
group_key_iff p q c d (ps, pd) (qs, qd) = (
  (λ h.
      let (same_source, h1) =
        split_at_nul (address "source_addr" p) (address "source_addr" q) _ _ ps qs h in
      let (same_destination, h2) =
        split_at_nul (address "destination_addr" p) (address "destination_addr" q) _ _ pd qd h1 in
      let (same_spelling, h3) =
        split_at_nul (spelling_text c.spelling) (spelling_text d.spelling) _ _
          (spelling-HasNoNul c.spelling) (spelling-HasNoNul d.spelling) h2 in
      (
        same_source,
        same_destination,
        spelling_text_injective c.spelling d.spelling same_spelling,
        decimal_injective c.reference d.reference h3,
      )),
  (λ (a, b, s, r). cc),
)
