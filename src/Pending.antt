-- ===== src/Pending.antt =====
-- src/pending-requests.ts. A caller that waits is a number, its promise the answer that a call
-- lists for it. Its timer fires and its signal aborts by the number that it waits under; a timer
-- that was cleared or a listener that was removed does not.
pub mod Answers
mod Tests
use smpp_js.Prelude.{
  ℕ, ◌+◌, Bool, true, false, Option, none, some, List, [], ◌∷◌, ◌++◌, find, erase, put, nat_eq, leb,
  if◌then◌else◌,
}
use smpp_js.Pdu.{max_seq_nr}

-- `{ pduObj }`, or why there is none; the error of `settle` and `settleAll` is the caller's own.
pub data Answer : Type 0 where
  answered aborted expired failed : Answer

pub record PendingRequests : Type 0 where
  pub pending : List (ℕ × ℕ)
  pub our_seq_nr : ℕ

abbrev pub create : PendingRequests
create = record { pending = []; our_seq_nr = 1 }

unfoldable pub next_seq_nr : PendingRequests → ℕ × PendingRequests
next_seq_nr p = (
  p.our_seq_nr,
  record p { our_seq_nr = if leb max_seq_nr p.our_seq_nr then 1 else p.our_seq_nr + 1 },
)

-- `this.pending.get(seqNr)?.settle(result)`: the entry leaves, and its caller has the answer.
unfoldable pub settle : ℕ → Answer → PendingRequests → List (ℕ × Answer) × PendingRequests
settle seq_nr answer p = elim (find seq_nr p.pending) [
  | none ↦ ([], p)
  | some caller ↦ ((caller, answer) ∷ [], record p { pending = erase seq_nr p.pending })
]

-- `wait`, with whether the signal has aborted; an entry that stands under the number is replaced.
unfoldable pub wait : ℕ → ℕ → Bool → PendingRequests → List (ℕ × Answer) × PendingRequests
unfolding settle
wait seq_nr caller is_aborted p =
    let held = record p { pending = put seq_nr caller p.pending } in
    if is_aborted then settle seq_nr aborted held else ([], held)

-- `deliver`, with whether somebody was waiting.
unfoldable pub deliver : ℕ → PendingRequests → (List (ℕ × Answer) × Bool) × PendingRequests
unfolding settle
deliver seq_nr p = elim (find seq_nr p.pending) [
  | none ↦ (([], false), p)
  | some _ ↦ let (answers, after) = settle seq_nr answered p in ((answers, true), after)
]

-- The loop of `settleAll` over the entries that were there when it began.
unfoldable pub settle_each : List (ℕ × ℕ) → PendingRequests → List (ℕ × Answer) × PendingRequests
unfolding settle
settle_each [] p = ([], p)
settle_each ((seq_nr, _) ∷ later) p =
    let (answers, after) = settle seq_nr failed p in
    let (more, last) = settle_each later after in (answers ++ more, last)

unfoldable pub settle_all : PendingRequests → List (ℕ × Answer) × PendingRequests
unfolding settle_each
settle_all p = settle_each p.pending p

pub data Call : Type 0 where
  numbers : Call
  waits : ℕ → ℕ → Bool → Call
  delivers aborts times_out settles : ℕ → Call
  settles_all : Call

unfoldable pub step : Call → PendingRequests → List (ℕ × Answer) × PendingRequests
unfolding next_seq_nr wait deliver settle settle_all
step numbers p = ([], (next_seq_nr p).1)
step (waits seq_nr caller is_aborted) p = wait seq_nr caller is_aborted p
step (delivers seq_nr) p = let ((answers, _), after) = deliver seq_nr p in (answers, after)
step (aborts seq_nr) p = settle seq_nr aborted p
step (times_out seq_nr) p = settle seq_nr expired p
step (settles seq_nr) p = settle seq_nr failed p
step settles_all p = settle_all p

-- The answers of the calls together, in their order.
unfoldable pub run : List Call → PendingRequests → List (ℕ × Answer) × PendingRequests
unfolding step
run [] p = ([], p)
run (c ∷ cs) p =
    let (answers, after) = step c p in let (more, last) = run cs after in (answers ++ more, last)
