-- ===== src/Framer/Tests.antt =====
-- Runs of the framer, and its theorems at concrete streams.
use smpp_js.Prelude.{ℕ, ◌≡◌, refl, some, List, [], ◌∷◌, flatten, replicate}
use smpp_js.Framer.{PduFramer, fresh, push, next, Framed, pdus, err, refusing_cmd_length}
use smpp_js.Framer.Stream.{CutBy, next-CutBy}
use smpp_js.Framer.Chunking.{next-push, after, left_by}

-- An enquire_link with sequence number 1.
abbrev enquire : List ℕ
enquire = 0 ∷ 0 ∷ 0 ∷ 16 ∷ 0 ∷ 0 ∷ 0 ∷ 21 ∷ 0 ∷ 0 ∷ 0 ∷ 0 ∷ 0 ∷ 0 ∷ 0 ∷ 1 ∷ []

abbrev head : List ℕ
head = 0 ∷ 0 ∷ 0 ∷ []

abbrev tail : List ℕ
tail = 16 ∷ 0 ∷ 0 ∷ 0 ∷ 21 ∷ 0 ∷ 0 ∷ 0 ∷ 0 ∷ 0 ∷ 0 ∷ 0 ∷ 1 ∷ []

-- One PDU and the start of another.
abbrev dribbled : PduFramer
dribbled = record { chunks = (0 ∷ []) ∷ (0 ∷ 0 ∷ 16 ∷ []) ∷ tail' ∷ []; total_length = 19 }
  where
    tail' : List ℕ
    tail' = 0 ∷ 0 ∷ 0 ∷ 21 ∷ 0 ∷ 0 ∷ 0 ∷ 0 ∷ 0 ∷ 0 ∷ 0 ∷ 1 ∷ 0 ∷ 0 ∷ 0 ∷ []

abbrev kept : PduFramer
kept = record { chunks = head ∷ []; total_length = 3 }

dribbled-next : next dribbled ≡ some (kept, pdus (enquire ∷ []))
unfolding next flatten
dribbled-next = refl

refused_next :
    next (push (replicate 16 0) fresh)
    ≡ some (push (replicate 16 0) fresh, err (refusing_cmd_length 0))
unfolding next push flatten
refused_next = refl

next-CutBy_example :
    (g : PduFramer) × (r : Framed) × (next dribbled ≡ some (g, r)) × CutBy dribbled g r
unfolding flatten
next-CutBy_example = next-CutBy dribbled refl

next-push_example :
    (h : PduFramer) × (next (push tail dribbled)
      ≡ some (h, after (enquire ∷ []) (pdus (enquire ∷ []))))
    × (left_by h (after (enquire ∷ []) (pdus (enquire ∷ []))) ≡ left_by fresh (pdus (enquire ∷ [])))
unfolding next push flatten
next-push_example =
    next-push dribbled kept fresh (enquire ∷ []) (pdus (enquire ∷ [])) tail refl refl refl
