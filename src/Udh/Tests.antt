-- ===== src/Udh/Tests.antt =====
-- Runs of the numbering of concatenated messages.
use smpp_js.Prelude.{◌≡◌, refl, Option, some, [], ◌∷◌, arith}
use smpp_js.Udh.{ConcatInfo, concat_info}
use smpp_js.Udh.Elements.{long_numbering, other, message_of, concat_info-message_of}
use smpp_js.Udh.Reads.{IsHeld, concat_info-IsHeld}

numbered :
    concat_info (5 ∷ 0 ∷ 3 ∷ 9 ∷ 2 ∷ 1 ∷ b'x' ∷ [])
    ≡ some (some (record { part = 1; reference = 9; total = 2 }))
unfolding concat_info
numbered = refl

-- A port stands before the numbering.
concat_info-message_of_example :
    concat_info
      (message_of (other 5 (11 ∷ 132 ∷ 0 ∷ 0 ∷ []) ∷ long_numbering 300 3 2 ∷ []) (b'x' ∷ []))
    ≡ some (some (record { part = 2; reference = 300; total = 3 }))
concat_info-message_of_example =
    concat_info-message_of (other 5 (11 ∷ 132 ∷ 0 ∷ 0 ∷ []) ∷ long_numbering 300 3 2 ∷ [])
      (b'x' ∷ []) (refl, (tt, tt))

-- The header promises more octets than there are.
concat_info-IsHeld_example :
    (r : Option ConcatInfo) × (concat_info (9 ∷ 0 ∷ 3 ∷ 7 ∷ []) ≡ some r) × IsHeld r
concat_info-IsHeld_example =
    concat_info-IsHeld (9 ∷ 0 ∷ 3 ∷ 7 ∷ [])
      (omega arith, (omega arith, (omega arith, (omega arith, tt))))
