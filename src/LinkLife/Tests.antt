-- ===== src/LinkLife/Tests.antt =====
-- Runs of the link's life, and its theorems at concrete links.
use smpp_js.Prelude.{ℕ, ◌+◌, ◌<◌, ◌≡◌, ◌↔◌, ◌⊎◌, refl, Bool, true, false, none, [], ◌∷◌}
use smpp_js.LinkLife.{
  down, ended, LinkLife, create, generation, is_over, awaits_next_link, wait, drop_calls, opens,
  stops, step, run,
}
use smpp_js.LinkLife.Laws.{
  Inv, queued, step-holds_Inv, wait-eq-none_iff, run-over, losses, run-generation,
}

-- A dropped link that reconnects, with a request held behind it.
abbrev held : LinkLife
held = record (create true 50) { waiting = (4, 50) ∷ []; drops = 1; phase = down }

abbrev finished : LinkLife
finished = record (create true 50) { phase = ended; stopped = true }

held-Inv : Inv held
held-Inv = record { idle_up = λ h. cc; idle_ended = λ h. cc; ended_stopped = λ h. cc }

step-holds_Inv_example : Inv (step opens held)
step-holds_Inv_example = step-holds_Inv opens held held-Inv

wait-eq-none_iff_example :
    (((wait 10 60 5 false held).0 ≡ none) ↔ (
      (awaits_next_link held ≡ true)
      × (◌≡◌ {A = Bool} false false)
      × (◌≡◌ {A = ℕ} 60 0 ⊎ (10 < 60))))
    × (((wait 10 60 5 false held).0 ≡ none) ↔ (wait 10 60 5 false held ≡ (none, queued 5 50 held)))
wait-eq-none_iff_example = wait-eq-none_iff 10 60 5 false held

run-over_example : is_over (run (drop_calls ∷ stops ∷ []) finished) ≡ true
run-over_example = run-over (drop_calls ∷ stops ∷ []) finished (refl, (refl, tt)) refl

run-generation_example :
    (generation (run (opens ∷ drop_calls ∷ drop_calls ∷ []) held) ≡ 1 + 1)
    × ((generation (run (opens ∷ drop_calls ∷ drop_calls ∷ []) held) ≡ 1)
        ↔ (losses (opens ∷ drop_calls ∷ drop_calls ∷ []) held ≡ 0))
unfolding step
run-generation_example = run-generation (opens ∷ drop_calls ∷ drop_calls ∷ []) held
