-- ===== src/Reconnect/Tests.antt =====
-- Runs of the reconnect loop, and its theorems at concrete calls.
use smpp_js.Prelude.{◌≡◌, refl, true, false, none, some, [], ◌∷◌, arith}
use smpp_js.Reconnect.{create, schedules, stops, fires, connects, finishes, run}
use smpp_js.Reconnect.Bounds.{Inv, run-create-Inv}

-- A first attempt finds no socket, and the loop is stopped while the second one opens it.
run-create-Inv_example : Inv (
    run
      (schedules 0 ∷ fires ∷ connects false ∷ finishes 9 ∷ fires ∷ stops ∷ connects true ∷ [])
      (create none (some 50)))
run-create-Inv_example =
    run-create-Inv none (some 50)
      (schedules 0 ∷ fires ∷ connects false ∷ finishes 9 ∷ fires ∷ stops ∷ connects true ∷ [])
      (omega arith)

socket_destroyed :
    (run (schedules 0 ∷ fires ∷ stops ∷ connects true ∷ []) (create none none)).destroyed ≡ 1
unfolding run
socket_destroyed = refl
