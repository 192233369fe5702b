-- ===== src/Message/Tests.antt =====
-- Runs of src/message.ts, and its theorems at concrete texts.
use smpp_js.Prelude.{ℕ, ◌≡◌, refl, none, some, List, [], ◌∷◌, replicate, length, arith}
use smpp_js.Encodings.{ucs2, encode, detect}
use smpp_js.Prelude.Digits.{all_of}
use smpp_js.Message.{encode_body, split_message}
use smpp_js.Message.Segments.{Rejoins, split_message-Rejoins}
use smpp_js.Message.Bodies.{Answers, encode_body-Answers}

-- A text of two segments, one unit too long for one message.
abbrev long_text : List ℕ
long_text = replicate 71 0x416

two_segments : length (split_message long_text none 300) ≡ 2
unfolding split_message encode detect all_of
two_segments = refl

split_message-Rejoins_example : Rejoins long_text ucs2 300 (split_message long_text (some ucs2) 300)
split_message-Rejoins_example = split_message-Rejoins long_text (some ucs2) 300 tt

-- Latin-1 carries the first character and not the second.
encode_body-Answers_example :
    Answers (b'a' ∷ 0x416 ∷ []) (some 3) (encode_body (b'a' ∷ 0x416 ∷ []) (some 3))
encode_body-Answers_example =
    encode_body-Answers (b'a' ∷ 0x416 ∷ []) (some 3)
      (omega arith, (λ h. omega (arith, h)), (omega arith, (λ h. omega (arith, h)), tt))
