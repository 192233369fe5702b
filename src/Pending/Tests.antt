-- ===== src/Pending/Tests.antt =====
-- Runs of the pending requests, and the theorems about them at concrete calls.
use smpp_js.Prelude.{◌+◌, ◌≡◌, refl, false, List, [], ◌∷◌, nat_eq}
use smpp_js.Pending.{PendingRequests, create, Call, waits, delivers, times_out, run, step}
use smpp_js.Pending.Answers.{answers_to, waits_of, run-answers}

-- One request is answered, the next one times out, and a third waits on.
abbrev calls : List Call
calls = waits 1 7 false ∷ waits 2 8 false ∷ delivers 1 ∷ times_out 2 ∷ waits 3 7 false ∷ []

run-answers_example :
    answers_to 7 (run calls create).0 + waits_of 7 (run calls create).1.pending ≡ 2
unfolding run step
run-answers_example = run-answers 7 calls (refl, (refl, (tt, (tt, (refl, tt)))))

abbrev two : PendingRequests
two = record { pending = (4, 7) ∷ (5, 8) ∷ []; our_seq_nr = 6 }
