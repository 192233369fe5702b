-- ===== src/LinkLife.antt =====
-- src/link-life.ts. A caller that waits for a link is a number with the time that its timer was
-- set to (0 is no timer), its promise the answer that a call lists for it. The clock is an argument.
pub mod Laws
mod Tests
use smpp_js.Prelude.{
  ℕ, zero, suc, ◌+◌, ◌-◌, Bool, true, false, not, ◌&&◌, ◌||◌, Option, none, some, List, [], ◌∷◌,
  ◌++◌, map, ltb, leb, ◌==◌, if◌then◌else◌,
}

pub data Phase : Type 0 where
  binding down ended up : Phase

-- How a waiter is answered: `{}`, or the error of `aborted()`, `expired()` or `over()`.
pub data Answer : Type 0 where
  admitted aborted expired over : Answer

pub record LinkLife : Type 0 where
  pub reconnects : Bool
  pub timeout : ℕ
  pub waiting : List (ℕ × ℕ)
  pub drops : ℕ
  pub phase : Phase
  pub stopped : Bool

abbrev pub create : Bool → ℕ → LinkLife
create reconnects timeout = record {
  reconnects = reconnects;
  timeout = timeout;
  waiting = [];
  drops = 0;
  phase = up;
  stopped = false;
}

abbrev attached : Phase → Bool
attached binding = true
attached up = true
attached _ = false

abbrev is_up_phase : Phase → Bool
is_up_phase up = true
is_up_phase _ = false

abbrev is_ended_phase : Phase → Bool
is_ended_phase ended = true
is_ended_phase _ = false

abbrev pub is_attached : LinkLife → Bool
is_attached l = attached l.phase

abbrev pub is_up : LinkLife → Bool
is_up l = is_up_phase l.phase

abbrev pub is_over : LinkLife → Bool
is_over l = is_ended_phase l.phase

abbrev pub is_stopped : LinkLife → Bool
is_stopped l = l.stopped

abbrev pub retrying : LinkLife → Bool
retrying l = l.reconnects && not l.stopped

abbrev pub awaits_next_link : LinkLife → Bool
awaits_next_link l = not (is_up l) && (not (is_over l) && retrying l)

abbrev pub generation : LinkLife → ℕ
generation l = l.drops

unfoldable pub refusal : LinkLife → Option Answer
refusal l = if is_up l || awaits_next_link l then none else some over

-- The deadline that `hold` gives every wait of one request; 0 is none.
unfoldable pub hold : ℕ → LinkLife → ℕ
hold now l = if ltb 0 l.timeout then now + l.timeout else 0

pub attach : LinkLife → LinkLife
attach l = if is_over l then l else record l { phase = binding }

-- `release`: every waiter gets the answer, and none is left.
pub release : Answer → LinkLife → List (ℕ × Answer) × LinkLife
release answer l = (map (λ w. (w.0, answer)) l.waiting, record l { waiting = [] })

pub open_link : LinkLife → List (ℕ × Answer) × LinkLife
unfolding release
open_link l = release admitted (record l { phase = up })

pub data DropEvent : Type 0 where
  close disconnected : DropEvent

pub drop : LinkLife → Option DropEvent × LinkLife
drop l = if not (is_attached l) then (none, l) else (
  some (if retrying l then disconnected else close),
  record l { phase = down; drops = l.drops + 1 },
)

pub stop : LinkLife → LinkLife
stop l = record l { stopped = true }

pub end_link : LinkLife → (List (ℕ × Answer) × Bool) × LinkLife
unfolding release
end_link l =
    if is_over l
    then (([], false), l)
    else let (answers, after) = release over (record l { phase = ended; stopped = true }) in
      ((answers, true), after)

-- `wait`: the answer at once, or none where the caller is held.
pub wait : ℕ → ℕ → ℕ → Bool → LinkLife → Option Answer × LinkLife
unfolding refusal
wait now deadline caller is_aborted l = if is_up l then (some admitted, l) else elim (refusal l) [
  | some refused ↦ (some refused, l)
  | none ↦
      if is_aborted
      then (some aborted, l)
      else if not (deadline == 0) && leb deadline now
      then (some expired, l)
      else (none, record l { waiting = l.waiting ++ ((caller, deadline - now) ∷ []) })
]

pub waits : ℕ → List (ℕ × ℕ) → Bool
waits caller [] = false
waits caller ((c, left) ∷ ws) = if c == caller then true else waits caller ws

pub without : ℕ → List (ℕ × ℕ) → List (ℕ × ℕ)
without caller [] = []
without caller ((c, left) ∷ ws) = if c == caller then ws else (c, left) ∷ without caller ws

-- The signal of a held caller aborts, or its timer fires: it gets the answer and leaves.
pub cut_short : ℕ → Answer → LinkLife → List (ℕ × Answer) × LinkLife
unfolding waits without
cut_short caller answer l =
    if waits caller l.waiting
    then ((caller, answer) ∷ [], record l { waiting = without caller l.waiting })
    else ([], l)

pub data Call : Type 0 where
  attaches opens drop_calls stops ends : Call
  wait_calls : ℕ → ℕ → ℕ → Bool → Call
  aborts times_out : ℕ → Call

pub step : Call → LinkLife → LinkLife
unfolding attach open_link drop stop end_link wait cut_short
step attaches l = attach l
step opens l = (open_link l).1
step drop_calls l = (drop l).1
step stops l = stop l
step ends l = (end_link l).1
step (wait_calls now deadline caller is_aborted) l = (wait now deadline caller is_aborted l).1
step (aborts caller) l = (cut_short caller aborted l).1
step (times_out caller) l = (cut_short caller expired l).1

pub run : List Call → LinkLife → LinkLife
run [] l = l
run (c ∷ cs) l = run cs (step c l)
