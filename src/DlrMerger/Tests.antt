-- ===== src/DlrMerger/Tests.antt =====
-- Runs of the merger of src/dlr-merger.ts, and its theorems at concrete receipts.
use smpp_js.Prelude.{ℕ, ◌≡◌, refl, Option, false, none, some, List, [], ◌∷◌, text_eq}
use smpp_js.SmsId.{parse_segment_id}
use smpp_js.DlrMerger.{
  MessageState, delivered, expired, accepted, Dlr, DlrMerger, create_merger, expect, collect, sweep,
}
use smpp_js.DlrMerger.Apart.{Call, expects, collects, sweeps, after_calls, Apart}
use smpp_js.DlrMerger.Reused.{Expects, after_calls-Expects}
use smpp_js.DlrMerger.Merged.{Collects, collect-Collects}

abbrev first_id : List ℕ
first_id = b'a' ∷ b'-' ∷ b'1' ∷ []

abbrev second_id : List ℕ
second_id = b'a' ∷ b'-' ∷ b'2' ∷ []

abbrev receipt : List ℕ → MessageState → Dlr
receipt sms_id status = record {
  done_date = none;
  error_code = none;
  intermediate = false;
  receipt = none;
  sms_id = some sms_id;
  status_id = 0;
  status_msg = status;
}

-- A message of two segments, of which the second has expired.
abbrev sent : DlrMerger
sent = expect 5 (some first_id ∷ some second_id ∷ []) (create_merger 10 1000)

abbrev one_there : DlrMerger
one_there = (collect 6 (receipt second_id expired) sent).1

reported :
    (collect 7 (receipt first_id delivered) one_there).0
    ≡ some (record {
      dlr = record (receipt second_id expired) { sms_id = some (b'a' ∷ []) };
      segments = receipt first_id delivered ∷ receipt second_id expired ∷ [];
    })
unfolding collect expect create_merger parse_segment_id
reported = refl

collect-Collects_example :
    Collects
      (receipt first_id delivered)
      (sweep 7 one_there)
      (collect 7 (receipt first_id delivered) one_there)
collect-Collects_example = collect-Collects 7 (receipt first_id delivered) one_there

abbrev ids : List (Option (List ℕ))
ids = some first_id ∷ some second_id ∷ []

-- A message whose receipts are being merged, and whose ids come in once more.
abbrev calls : List Call
calls = expects 5 ids ∷ collects 6 (receipt first_id accepted) ∷ sweeps 900 ∷ []

after_calls-Expects_example :
    Apart (after_calls calls (create_merger 10 1000))
    × Expects 950 ids
        (after_calls calls (create_merger 10 1000))
        (expect 950 ids (after_calls calls (create_merger 10 1000)))
after_calls-Expects_example = after_calls-Expects 10 1000 calls 950 ids
