-- ===== src/Window/Tests.antt =====
-- Runs of the send window, and its theorems at concrete windows.
use smpp_js.Prelude.{◌+◌, ◌≡◌, refl, inr, false, List, [], ◌∷◌, ◌++◌, length, arith}
use smpp_js.Window.{
  granted, aborted, SendWindow, create, Call, acquires, releases, aborts, step, run,
}
use smpp_js.Window.Fair.{Inv, grants, run-fifo, run_count}

-- A full window of one slot, with two callers behind it and one that waits for idleness.
abbrev queued : SendWindow
queued = record { limit = 1; in_flight = 1; waiting = 5 ∷ 6 ∷ []; idle_waiters = 9 ∷ [] }

queued-Inv : Inv queued
queued-Inv = record {
  positive = omega arith;
  bounded = omega arith;
  busy = inr refl;
  awake = inr (omega arith);
}

abbrev calls : List Call
calls = acquires 7 false ∷ releases ∷ releases ∷ []

queued-run : (run (aborts 5 ∷ calls) queued).0 ≡ (5, aborted) ∷ (6, granted) ∷ (7, granted) ∷ []
unfolding run step
queued-run = refl

drained : (step releases (create 1)).0.idle ≡ []
unfolding step
drained = refl

run-fifo_example : grants (run calls queued).0 ++ (run calls queued).1.waiting ≡ 5 ∷ 6 ∷ 7 ∷ []
run-fifo_example = run-fifo calls queued queued-Inv (refl, (tt, (tt, tt)))

run_count_example : (run calls queued).1.in_flight + 2 ≡ 1 + length (grants (run calls queued).0)
unfolding step
run_count_example =
    run_count calls queued ((λ e. cc), ((λ _. omega arith), ((λ _. omega arith), tt)))
