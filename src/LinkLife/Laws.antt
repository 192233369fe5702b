-- ===== src/LinkLife/Laws.antt =====
-- Who waits for a link, and what ends the waiting, in src/link-life.ts.
use smpp_js.Prelude.{
  ℕ, ◌+◌, ◌-◌, ◌<◌, ◌≡◌, ◌↔◌, ◌⊎◌, ap, ◌∙◌, Bool, true, false, none, some, List, [], ◌∷◌, ◌++◌, map,
  if◌then◌else◌, arith,
}
use smpp_js.LinkLife.{
  ended, up, Answer, admitted, aborted, expired, over, LinkLife, generation, is_up, is_over,
  is_attached, awaits_next_link, refusal, drop, end_link, wait, without, cut_short, Call, attaches,
  opens, drop_calls, stops, ends, wait_calls, aborts, times_out, step, run,
}

-- A caller waits only while no link carries requests and the session is not over; a session that
-- is over is stopped.
pub record Inv (l : LinkLife) : Type 0 where
  pub idle_up : l.phase ≡ up → l.waiting ≡ []
  pub idle_ended : l.phase ≡ ended → l.waiting ≡ []
  pub ended_stopped : l.phase ≡ ended → l.stopped ≡ true

without_nil : (caller : ℕ) (ws : List (ℕ × ℕ)) → ws ≡ [] → without caller ws ≡ []
unfolding without
without_nil caller ws e = ground arith

cut_short-Inv : (caller : ℕ) (a : Answer) (l : LinkLife) → Inv l → Inv (cut_short caller a l).1
unfolding cut_short
cut_short-Inv caller a l v = ground (arith, without_nil caller l.waiting)

wait-Inv :
    (now deadline caller : ℕ) (b : Bool) (l : LinkLife)
    → Inv l
    → Inv (wait now deadline caller b l).1
unfolding wait
wait-Inv now deadline caller b l v = ground arith

drop-Inv : (l : LinkLife) → Inv l → Inv (drop l).1
unfolding drop
drop-Inv l v = ground arith

-- Every call keeps it: nobody waits on a link that is up or a session that is over, and a session
-- that is over is stopped.
pub step-holds_Inv : (c : Call) (l : LinkLife) → Inv l → Inv (step c l)
unfolding step
step-holds_Inv attaches l v = ground arith
step-holds_Inv opens l v = ground arith
step-holds_Inv drop_calls l v = drop-Inv l v
step-holds_Inv stops l v = ground arith
step-holds_Inv ends l v = ground arith
step-holds_Inv (wait_calls now deadline caller b) l v = wait-Inv now deadline caller b l v
step-holds_Inv (aborts caller) l v = cut_short-Inv caller aborted l v
step-holds_Inv (times_out caller) l v = cut_short-Inv caller expired l v

-- The link with one more caller that it holds, the last, and the time left to it.
abbrev pub queued : ℕ → ℕ → LinkLife → LinkLife
queued caller left l = record l { waiting = l.waiting ++ ((caller, left) ∷ []) }

held_iff :
    (now deadline caller : ℕ) (b : Bool) (l : LinkLife)
    → ((wait now deadline caller b l).0 ≡ none)
      ↔ ((awaits_next_link l ≡ true) × (b ≡ false) × ((deadline ≡ 0) ⊎ (now < deadline)))
unfolding wait
held_iff now deadline caller b l = ground arith

wait_held :
    (now deadline caller : ℕ) (b : Bool) (l : LinkLife)
    → (wait now deadline caller b l).0 ≡ none
    → (wait now deadline caller b l).1 ≡ queued caller (deadline - now) l
unfolding wait
wait_held now deadline caller b l h = ground arith

-- A request is held exactly when the link is not up, another one is to come, its signal has not
-- aborted and its deadline, if it has one, has not passed; it is then the last to be held, with what
-- is left of its budget, and nothing else changes.
pub wait-eq-none_iff :
    (now deadline caller : ℕ) (b : Bool) (l : LinkLife)
    → (((wait now deadline caller b l).0 ≡ none)
        ↔ ((awaits_next_link l ≡ true) × (b ≡ false) × ((deadline ≡ 0) ⊎ (now < deadline))))
      × (((wait now deadline caller b l).0 ≡ none)
          ↔ (wait now deadline caller b l ≡ (none, queued caller (deadline - now) l)))
wait-eq-none_iff now deadline caller b l = (
  held_iff now deadline caller b l,
  (
    λ h.
        ap (λ a. (a, (wait now deadline caller b l).1)) h
        ∙ ap (λ x. (none, x)) (wait_held now deadline caller b l h),
    λ e. ap (λ x. x.0) e,
  ),
)

wait_answered :
    (now deadline caller : ℕ) (b : Bool) (l : LinkLife) (a : Answer)
    → (wait now deadline caller b l).0 ≡ some a
    → (wait now deadline caller b l).1 ≡ l
unfolding wait
wait_answered now deadline caller b l a h = ground arith

-- A request is admitted at once exactly when the link is up, and refused as over exactly when the
-- link is not up and no other is to come.
pub wait-admitted_iff :
    (now deadline caller : ℕ) (b : Bool) (l : LinkLife)
    → (((wait now deadline caller b l).0 ≡ some admitted) ↔ (is_up l ≡ true))
      × (((wait now deadline caller b l).0 ≡ some over) ↔ (refusal l ≡ some over))
unfolding wait
wait-admitted_iff now deadline caller b l = ground arith

-- Ending a session that is not over answers everyone held with `over` and says so; ending it once
-- more answers nobody and says that it was over.
pub end_link_twice :
    (l : LinkLife)
    → is_over l ≡ false
    → ((end_link l).0 ≡ (map (λ w. (w.0, over)) l.waiting, true))
      × ((end_link (end_link l).1).0 ≡ ([], false))
      × ((end_link l).1.waiting ≡ [])
unfolding end_link
end_link_twice l h = ground arith

abbrev pub is_opening : Call → Bool
is_opening opens = true
is_opening _ = false

abbrev pub NoOpening : List Call → Type 0
NoOpening [] = Unit
NoOpening (c ∷ cs) = (is_opening c ≡ false) × NoOpening cs

step-over :
    (c : Call) (l : LinkLife) → is_opening c ≡ false → is_over l ≡ true → is_over (step c l) ≡ true
unfolding step
step-over attaches l n h = ground arith
step-over opens l n h = cc
step-over drop_calls l n h = ground arith
step-over stops l n h = ground arith
step-over ends l n h = ground arith
step-over (wait_calls now deadline caller b) l n h = ground arith
step-over (aborts caller) l n h = ground arith
step-over (times_out caller) l n h = ground arith

-- A session that is over stays over through every call but `open`.
pub run-over :
    (cs : List Call) (l : LinkLife) → NoOpening cs → is_over l ≡ true → is_over (run cs l) ≡ true
unfolding run
run-over [] l n h = h
run-over (c ∷ cs) l (n, ns) h = run-over cs (step c l) ns (step-over c l n h)

-- How often a run of calls drops a link that is attached.
abbrev pub loss : Call → LinkLife → ℕ
loss drop_calls l = if is_attached l then 1 else 0
loss _ l = 0

abbrev pub losses : List Call → LinkLife → ℕ
losses [] l = 0
losses (c ∷ cs) l = loss c l + losses cs (step c l)

step-generation : (c : Call) (l : LinkLife) → (step c l).drops ≡ l.drops + loss c l
unfolding step
step-generation attaches l = ground arith
step-generation opens l = ground arith
step-generation drop_calls l = ground arith
step-generation stops l = ground arith
step-generation ends l = ground arith
step-generation (wait_calls now deadline caller b) l = ground arith
step-generation (aborts caller) l = ground arith
step-generation (times_out caller) l = ground arith

run-losses : (cs : List Call) (l : LinkLife) → generation (run cs l) ≡ generation l + losses cs l
unfolding run
run-losses [] l = omega arith
run-losses (c ∷ cs) l = omega (arith, step-generation c l, run-losses cs (step c l))

-- The generation moves on by one with each attached link that is dropped and with nothing else, so
-- it is the same after a run exactly when the run lost no link.
pub run-generation :
    (cs : List Call) (l : LinkLife)
    → (generation (run cs l) ≡ generation l + losses cs l)
      × ((generation (run cs l) ≡ generation l) ↔ (losses cs l ≡ 0))
run-generation cs l = let e = run-losses cs l in (e, (λ h. omega (arith, e), λ h. omega (arith, e)))
