-- ===== src/Wire/Tests.antt =====
-- Runs of the field types, and the theorems about them at concrete values.
use smpp_js.Prelude.{◌≡◌, refl, none, [], ◌∷◌}
use smpp_js.Prelude.Results.{err}
use smpp_js.Wire.{text, unterminated}
use smpp_js.Wire.Texts.{cstring, read_cstring}
use smpp_js.Wire.Encodes.{Encodes, cstring-Encodes}

cstring-Encodes_example :
    Encodes cstring none (text (b'h' ∷ b'i' ∷ [])) (text (b'h' ∷ b'i' ∷ [])) (b'h' ∷ b'i' ∷ 0 ∷ [])
cstring-Encodes_example = cstring-Encodes (b'h' ∷ b'i' ∷ []) none refl refl

-- No NUL before the end of the buffer.
no_terminator : read_cstring (b'h' ∷ b'i' ∷ []) 0 ≡ err unterminated
unfolding read_cstring
no_terminator = refl
