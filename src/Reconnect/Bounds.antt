-- ===== src/Reconnect/Bounds.antt =====
-- What src/reconnect-loop.ts keeps through every call.
use smpp_js.Prelude.{
  ℕ, ◌+◌, ◌≤◌, ◌≡◌, refl, Bool, true, false, ◌&&◌, Option, none, some, List, [], ◌∷◌, arith,
}
use smpp_js.Reconnect.{
  Stage, resting, bringing_up, ReconnectLoop, create, attempting, is_set, schedule, stop, fire,
  connected, brought_up, finish, Call, schedules, stops, fires, connects, brings_up, finishes, step,
  run,
}

abbrev pub IsWithin : ℕ → ℕ → Option ℕ → Type 0
IsWithin low high none = Unit
IsWithin low high (some n) = (low ≤ n) × (n ≤ high)

-- The socket that the loop holds while the owner comes up on it.
abbrev pub held : Stage → ℕ
held bringing_up = 1
held _ = 0

-- There is a timer or an attempt but not both, and no timer once the loop is stopped; the next
-- delay and the wait that is running are in their bounds; and every socket opened was destroyed or
-- handed over, or is the one held.
pub record Inv (l : ReconnectLoop) : Type 0 where
  pub ordered : l.min_delay ≤ l.max_delay
  pub alone : (is_set l.timer && attempting l.stage) ≡ false
  pub halts : (l.halted && is_set l.timer) ≡ false
  pub delay_within : IsWithin l.min_delay l.max_delay (some l.delay)
  pub timer_within : IsWithin l.min_delay l.max_delay l.timer
  pub sockets : l.opened ≡ l.destroyed + l.handed_over + held l.stage

schedule-Inv : (now : ℕ) (l : ReconnectLoop) → Inv l → Inv (schedule now l)
unfolding schedule
schedule-Inv now l v = ground arith

fire-Inv : (l : ReconnectLoop) → Inv l → Inv (fire l)
unfolding fire
fire-Inv l v = ground arith

connected-Inv : (b : Bool) (l : ReconnectLoop) → Inv l → Inv (connected b l)
unfolding connected
connected-Inv b l v = ground arith

brought_up-Inv : (now : ℕ) (b : Bool) (l : ReconnectLoop) → Inv l → Inv (brought_up now b l)
unfolding brought_up
brought_up-Inv now b l v = ground arith

stop-Inv : (l : ReconnectLoop) → Inv l → Inv (stop l)
unfolding stop
stop-Inv l v = ground arith

finish-Inv : (now : ℕ) (l : ReconnectLoop) → Inv l → Inv (finish now l)
unfolding finish schedule
finish-Inv now l v = ground arith

step-kept : (c : Call) (l : ReconnectLoop) → Inv l → Inv (step c l)
unfolding step
step-kept (schedules now) l v = schedule-Inv now l v
step-kept stops l v = stop-Inv l v
step-kept fires l v = fire-Inv l v
step-kept (connects b) l v = connected-Inv b l v
step-kept (brings_up now b) l v = brought_up-Inv now b l v
step-kept (finishes now) l v = finish-Inv now l v

run-kept : (cs : List Call) (l : ReconnectLoop) → Inv l → Inv (run cs l)
unfolding run
run-kept [] l v = v
run-kept (c ∷ cs) l v = run-kept cs (step c l) (step-kept c l v)

-- After any calls on a new loop whose shortest delay is at most its longest: a timer and an attempt
-- never run together, a stopped loop has no timer, every wait is between the two delays, and no
-- socket leaks: each one opened was destroyed or handed over, or is the one held.
pub run-create-Inv :
    (max_delay min_delay : Option ℕ) (cs : List Call)
    → (create max_delay min_delay).min_delay ≤ (create max_delay min_delay).max_delay
    → Inv (run cs (create max_delay min_delay))
run-create-Inv max_delay min_delay cs h = run-kept cs (create max_delay min_delay) (record {
  ordered = h;
  alone = refl;
  halts = refl;
  delay_within = (omega arith, h);
  timer_within = tt;
  sockets = refl;
})

-- How an attempt fails, and when its run ends: in `connect`, or in `onConnected` on the socket.
pub data Failure : Type 0 where
  not_connected not_brought_up : ℕ → Failure

-- The timer fires, the attempt fails, and the run ends.
abbrev pub fail : Failure → ReconnectLoop → ReconnectLoop
fail (not_connected now) l = finish now (connected false (fire l))
fail (not_brought_up now) l = finish now (brought_up now false (connected true (fire l)))

-- The loop after the first `schedule`, at the given time, and these failed attempts, the last first.
abbrev pub failed : ℕ → List Failure → ReconnectLoop → ReconnectLoop
failed now [] l = schedule now l
failed now (f ∷ earlier) l = fail f (failed now earlier l)

-- What holds while the loop waits, for this long now and that long the next time.
abbrev Waits : ℕ → ℕ → ReconnectLoop → ReconnectLoop → Type 0
Waits wait next start l =
    (l.timer ≡ some wait)
    × (l.delay ≡ next)
    × (l.stage ≡ resting)
    × (l.halted ≡ false)
    × (l.up_at ≡ none)
    × (l.max_delay ≡ start.max_delay)
