-- ===== src/Window.antt =====
-- src/send-window.ts and src/idle-waiters.ts. A caller that waits is a number, its promise the
-- answer that a call lists for it. A signal that aborts is the call `abort`, a timer that fires the
-- call `time_out`; both are found by the caller that they were made for.
pub mod Fair
mod Tests
use smpp_js.Prelude.{
  ℕ, zero, suc, ◌+◌, ◌-◌, Bool, true, false, List, [], ◌∷◌, ◌++◌, map, length, ltb, ◌==◌,
  if◌then◌else◌,
}

-- How a caller of `acquire` is answered: `{}`, or the error of `aborted()`.
pub data Answer : Type 0 where
  granted aborted : Answer

-- The callers that wait for the count to fall to zero, and those whose wait is over, each with the
-- count that it is told.
abbrev pub IdleWaiters : Type 0
IdleWaiters = List ℕ

pub data IdleAnswer : Type 0 where
  told : ℕ → IdleAnswer
  waits : IdleAnswer

-- `settle`: every waiter reads the count then.
pub settle_idle : ℕ → IdleWaiters → List (ℕ × ℕ)
settle_idle remaining waiting = map (λ w. (w, remaining)) waiting

pub without : ℕ → List ℕ → List ℕ
without w [] = []
without w (v ∷ vs) = if v == w then vs else v ∷ without w vs

pub has : ℕ → List ℕ → Bool
has w [] = false
has w (v ∷ vs) = if v == w then true else has w vs

-- `wait`, with whether the signal has aborted.
pub wait_idle : ℕ → Bool → ℕ → IdleWaiters → IdleAnswer × IdleWaiters
wait_idle remaining is_aborted caller waiting =
    if remaining == 0
    then (told 0, waiting)
    else if is_aborted
    then (told remaining, waiting)
    else (waits, waiting ++ (caller ∷ []))

pub record SendWindow : Type 0 where
  pub limit : ℕ
  pub in_flight : ℕ
  pub waiting : List ℕ
  pub idle_waiters : IdleWaiters

abbrev pub create : ℕ → SendWindow
create limit = record { limit = limit; in_flight = 0; waiting = []; idle_waiters = [] }

pub unfinished : SendWindow → ℕ
unfinished w = w.in_flight + length w.waiting

-- The answers that a call settles, and those that it settles to waiters for idleness.
pub record Settled : Type 0 where
  pub answers : List (ℕ × Answer)
  pub idle : List (ℕ × ℕ)

abbrev pub nothing : Settled
nothing = record { answers = []; idle = [] }

abbrev answer : ℕ → Answer → Settled
answer caller a = record { answers = (caller, a) ∷ []; idle = [] }

-- `acquire`, with the caller that asks and whether its signal has aborted.
pub acquire : ℕ → Bool → SendWindow → Settled × SendWindow
acquire caller is_aborted w =
    if ltb w.in_flight w.limit
    then (answer caller granted, record w { in_flight = w.in_flight + 1 })
    else if is_aborted
    then (answer caller aborted, w)
    else (nothing, record w { waiting = w.waiting ++ (caller ∷ []) })

-- Each call gives back a slot that `acquire` gave out, so the count is one at least where nobody
-- waits. The slot goes to the longest waiter, or the window has one request fewer on the wire.
pub release : SendWindow → Settled × SendWindow
unfolding settle_idle unfinished
release w = elim w.waiting [
  | next ∷ rest ↦ (answer next granted, record w { waiting = rest })
  | [] ↦
      let fewer = record w { in_flight = w.in_flight - 1 } in
      if ltb 0 fewer.in_flight then (nothing, fewer) else (
        record { answers = []; idle = settle_idle (unfinished fewer) w.idle_waiters },
        record fewer { idle_waiters = [] },
      )
]

-- The signal of a queued caller aborts; its listener is gone once it was answered.
pub abort : ℕ → SendWindow → Settled × SendWindow
unfolding has without
abort caller w =
    if has caller w.waiting
    then (answer caller aborted, record w { waiting = without caller w.waiting })
    else (nothing, w)

pub idle : ℕ → Bool → SendWindow → IdleAnswer × SendWindow
unfolding wait_idle unfinished
idle caller is_aborted w =
    let (told_now, waiting) = wait_idle (unfinished w) is_aborted caller w.idle_waiters in
    (told_now, record w { idle_waiters = waiting })

-- The timer or the signal of a waiter for idleness cuts its wait short.
pub idle_cut : ℕ → SendWindow → Settled × SendWindow
unfolding has without unfinished
idle_cut caller w =
    if has caller w.idle_waiters
    then (
      record { answers = []; idle = (caller, unfinished w) ∷ [] },
      record w { idle_waiters = without caller w.idle_waiters },
    )
    else (nothing, w)

-- The calls on a window.
pub data Call : Type 0 where
  acquires : ℕ → Bool → Call
  releases : Call
  aborts : ℕ → Call
  idles : ℕ → Bool → Call
  idle_cuts : ℕ → Call

pub step : Call → SendWindow → Settled × SendWindow
unfolding acquire release abort idle idle_cut
step (acquires caller is_aborted) w = acquire caller is_aborted w
step releases w = release w
step (aborts caller) w = abort caller w
step (idles caller is_aborted) w = (nothing, (idle caller is_aborted w).1)
step (idle_cuts caller) w = idle_cut caller w

-- The answers of the calls together, in their order.
pub run : List Call → SendWindow → List (ℕ × Answer) × SendWindow
run [] w = ([], w)
run (c ∷ cs) w =
    let (settled, after) = step c w in
    let (answers, last) = run cs after in (settled.answers ++ answers, last)
