-- ===== src/Received/Whole.antt =====
-- The segments of a long message, received, tell their places and make the message.
use smpp_js.Prelude.{ℕ, ◌≡◌, some, List, [], ◌∷◌, string_eq, find}
use smpp_js.Encodings.{EncodingName, data_coding_by_encoding}
use smpp_js.Retained.{PduObject, message_octets}
use smpp_js.Received.{number_in}

-- PDUs with these bodies, under the coding of the alphabet and flagged as having headers.
abbrev pub Hold : EncodingName → List (List ℕ) → List PduObject → Type 0
Hold e [] [] = Unit
Hold e [] (_ ∷ _) = ⊥
Hold e (_ ∷ _) [] = ⊥
Hold e (s ∷ ss) (p ∷ ps) =
    (message_octets p ≡ some s)
    × (number_in (find "data_coding" p.params) ≡ data_coding_by_encoding e)
    × (number_in (find "esm_class" p.params) ≡ 0x40)
    × Hold e ss ps
