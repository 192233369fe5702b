-- ===== src/Reassembly/Tests.antt =====
-- Runs of the reassembly, and its theorems at concrete segments.
use smpp_js.Prelude.{
  ◌≡◌, ◌↔◌, refl, true, Option, none, some, List, [], ◌∷◌, string_eq, nat_eq, text_eq, arith,
}
use smpp_js.Wire.{text}
use smpp_js.Groups.{create, set, get, full, delete, take_expired, weigh}
use smpp_js.Groups.Expiry.{here, Reach-create-Inv}
use smpp_js.Prelude.Digits.{decimal}
use smpp_js.Retained.{PduObject, detach, param_text}
use smpp_js.Reassembly.{
  placeable, sweep, Concat, udh, Collected, kept, LostGroup, Reassembler, group_key, collect,
}
use smpp_js.Reassembly.Keys.{address, group_key_iff}
use smpp_js.Reassembly.Placed.{IsSound}
use smpp_js.Reassembly.Sound.{IsAnswer, collect-Answers}

abbrev segment : PduObject
segment = record {
  cmd_id = 4;
  cmd_length = 20;
  cmd_name = "submit_sm";
  cmd_status = some "ESME_ROK";
  cmd_status_id = 0;
  params =
      ("source_addr", text (b'4' ∷ b'6' ∷ [])) ∷ ("destination_addr", text (b'4' ∷ b'7' ∷ [])) ∷ [];
  seq_nr = 9;
  short_message_octets = none;
  tlvs = [];
}

abbrev second_of_two : Concat
second_of_two = record { part = 2; reference = 9; total = 2; spelling = udh }

abbrev first_of_two : Concat
first_of_two = record { part = 1; reference = 9; total = 2; spelling = udh }

abbrev nothing_held : Reassembler
nothing_held = create 10 (some 5000) 100

nothing_held-IsSound : IsSound nothing_held
unfolding create
nothing_held-IsSound = record { inv = Reach-create-Inv 10 (some 5000) 100 here; placed = tt }

-- The last segment comes first, and the message is whole with the first one.
abbrev after_one : Option ((Collected × List LostGroup) × Reassembler)
after_one = collect 0 0 (b'i' ∷ []) segment second_of_two nothing_held

abbrev then_whole : Option ((Collected × List LostGroup) × Reassembler) → Option Collected
then_whole none = none
then_whole (some (_, r)) = elim (collect 5 5 (b'j' ∷ []) segment first_of_two r) [
  | none ↦ none
  | some ((c, _), _) ↦ some c
]

two_segments : then_whole after_one ≡ some (kept (b'i' ∷ []) (some (segment ∷ segment ∷ [])))
unfolding collect create set get full delete take_expired weigh decimal
two_segments = refl

collect-Answers_example :
    (c : Collected) × (losses : List LostGroup) × (after : Reassembler) × (collect 0 0
        (b'i' ∷ [])
        segment
        second_of_two
        nothing_held
      ≡ some ((c, losses), after))
    × IsSound after
    × IsAnswer true 2 ((2, segment) ∷ []) c
unfolding placeable get sweep take_expired create detach
collect-Answers_example =
    collect-Answers 0 0 (b'i' ∷ []) segment second_of_two nothing_held nothing_held-IsSound

group_key_iff_example : (group_key segment first_of_two ≡ group_key segment second_of_two) ↔ (
    (address "source_addr" segment ≡ address "source_addr" segment)
    × (address "destination_addr" segment ≡ address "destination_addr" segment)
    × (first_of_two.spelling ≡ second_of_two.spelling)
    × (first_of_two.reference ≡ second_of_two.reference))
unfolding param_text
group_key_iff_example =
    group_key_iff segment segment first_of_two second_of_two
      ((omega arith, (omega arith, tt)), (omega arith, (omega arith, tt)))
      ((omega arith, (omega arith, tt)), (omega arith, (omega arith, tt)))
