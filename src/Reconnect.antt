-- ===== src/Reconnect.antt =====
-- src/reconnect-loop.ts. The clock is an argument; a timer that fires and a promise that settles are
-- calls. Each socket that `connect` opens is counted, and so is each that is destroyed or handed
-- over to the owner.
pub mod Bounds
mod Tests
use smpp_js.Prelude.{
  ℕ, ◌+◌, ◌*◌, Bool, true, false, ◌||◌, Option, none, some, List, [], ◌∷◌, min, leb, if◌then◌else◌,
}

-- Where the run of an attempt stands: none, in `connect`, in `onConnected`, or done with whether to
-- try again.
pub data Stage : Type 0 where
  resting connecting bringing_up : Stage
  done : Bool → Stage

pub record ReconnectLoop : Type 0 where
  pub max_delay : ℕ
  pub min_delay : ℕ
  pub stage : Stage
  pub delay : ℕ
  pub halted : Bool
  -- the wait that the timer was set to
  pub timer : Option ℕ
  pub up_at : Option ℕ
  pub opened : ℕ
  pub destroyed : ℕ
  pub handed_over : ℕ

abbrev or_else : ℕ → Option ℕ → ℕ
or_else fallback none = fallback
or_else fallback (some n) = n

abbrev pub create : Option ℕ → Option ℕ → ReconnectLoop
create max_delay min_delay = record {
  max_delay = or_else 30000 max_delay;
  min_delay = or_else 1000 min_delay;
  stage = resting;
  delay = or_else 1000 min_delay;
  halted = false;
  timer = none;
  up_at = none;
  opened = 0;
  destroyed = 0;
  handed_over = 0;
}

abbrev pub attempting : Stage → Bool
attempting resting = false
attempting _ = true

abbrev pub is_set : Option ℕ → Bool
is_set none = false
is_set (some _) = true

-- The link had been up for the longest delay at least.
abbrev pub had_settled : ℕ → ℕ → Option ℕ → Bool
had_settled now max_delay none = false
had_settled now max_delay (some at) = leb (at + max_delay) now

unfoldable pub schedule : ℕ → ReconnectLoop → ReconnectLoop
schedule now l =
    let delay = if had_settled now l.max_delay l.up_at then l.min_delay else l.delay in
    if is_set l.timer || (attempting l.stage || l.halted)
    then l
    else record l { up_at = none; timer = some delay; delay = min (delay * 2) l.max_delay }

unfoldable pub stop : ReconnectLoop → ReconnectLoop
stop l = record l { halted = true; timer = none }

-- The timer fires: a new attempt begins, and ends at once where the loop was stopped.
unfoldable pub fire : ReconnectLoop → ReconnectLoop
fire l = elim l.timer [
  | none ↦ l
  | some _ ↦ record l { timer = none; stage = if l.halted then done false else connecting }
]

-- How `connect` settles: with a socket, or with an error or a throw.
unfoldable pub connected : Bool → ReconnectLoop → ReconnectLoop
connected opens l = elim l.stage [
  | connecting ↦
      if opens
      then (if l.halted
          then record l { opened = l.opened + 1; destroyed = l.destroyed + 1; stage = done false }
          else record l { opened = l.opened + 1; stage = bringing_up })
      else record l { stage = done true }
  | _ ↦ l
]

-- How `onConnected` settles: the owner is up on the socket, or the socket is destroyed.
unfoldable pub brought_up : ℕ → Bool → ReconnectLoop → ReconnectLoop
brought_up now comes_up l = elim l.stage [
  | bringing_up ↦
      if comes_up
      then record l { handed_over = l.handed_over + 1; up_at = some now; stage = done false }
      else record l { destroyed = l.destroyed + 1; stage = done true }
  | _ ↦ l
]

-- The end of `run`.
unfoldable pub finish : ℕ → ReconnectLoop → ReconnectLoop
unfolding schedule
finish now l = elim l.stage [
  | done retry ↦
      let rested = record l { stage = resting } in if retry then schedule now rested else rested
  | _ ↦ l
]

pub data Call : Type 0 where
  schedules : ℕ → Call
  stops fires : Call
  connects : Bool → Call
  brings_up : ℕ → Bool → Call
  finishes : ℕ → Call

unfoldable pub step : Call → ReconnectLoop → ReconnectLoop
unfolding schedule stop fire connected brought_up finish
step (schedules now) l = schedule now l
step stops l = stop l
step fires l = fire l
step (connects opens) l = connected opens l
step (brings_up now comes_up) l = brought_up now comes_up l
step (finishes now) l = finish now l

unfoldable pub run : List Call → ReconnectLoop → ReconnectLoop
unfolding step
run [] l = l
run (c ∷ cs) l = run cs (step c l)
