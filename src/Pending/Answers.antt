-- ===== src/Pending/Answers.antt =====
-- Who is answered by src/pending-requests.ts, and the numbers it hands out.
use smpp_js.Prelude.{
  ℕ, zero, suc, ◌+◌, ◌%◌, ◌≡◌, refl, sym, subst, ap, ◌∙◌, inl, inr, Bool, true, false, none, some,
  Option-cases, Bool-cases, ==_iff, List, [], ◌∷◌, ◌++◌, find, erase, put, Distinct, nat_eq,
  erase_absent, erase-Distinct, put-Distinct, ◌==◌, if◌then◌else◌, arith,
}
use smpp_js.Pdu.{max_seq_nr}
use smpp_js.Pending.{
  Answer, answered, aborted, expired, failed, PendingRequests, create, next_seq_nr, settle, wait,
  deliver, settle_each, settle_all, Call, numbers, waits, delivers, aborts, times_out, settles,
  settles_all, step, run,
}

-- How often a caller is among the answered, and among those that wait.
abbrev pub answers_to : ℕ → List (ℕ × Answer) → ℕ
answers_to caller [] = 0
answers_to caller ((c, _) ∷ answers) = (if c == caller then 1 else 0) + answers_to caller answers

abbrev pub waits_of : ℕ → List (ℕ × ℕ) → ℕ
waits_of caller [] = 0
waits_of caller ((_, c) ∷ pending) = (if c == caller then 1 else 0) + waits_of caller pending

-- How often a caller asks in a run.
abbrev pub asked_by : ℕ → Call → ℕ
asked_by caller (waits _ c _) = if c == caller then 1 else 0
asked_by caller _ = 0

abbrev pub asks_of : ℕ → List Call → ℕ
asks_of caller [] = 0
asks_of caller (c ∷ cs) = asked_by caller c + asks_of caller cs

-- No call waits under a number that somebody still waits under.
abbrev pub IsFree : Call → PendingRequests → Type 0
IsFree (waits seq_nr _ _) p = find seq_nr p.pending ≡ none
IsFree _ _ = Unit

abbrev pub AreFree : List Call → PendingRequests → Type 0
AreFree [] p = Unit
AreFree (c ∷ cs) p = IsFree c p × AreFree cs (step c p).1

answers_to-append :
    (caller : ℕ) (xs ys : List (ℕ × Answer))
    → answers_to caller (xs ++ ys) ≡ answers_to caller xs + answers_to caller ys
answers_to-append caller [] ys = omega arith
answers_to-append caller ((c, a) ∷ xs) ys = omega (arith, answers_to-append caller xs ys)

waits_of-erase :
    (caller seq_nr c : ℕ) (m : List (ℕ × ℕ))
    → Distinct m
    → find seq_nr m ≡ some c
    → waits_of caller m ≡ (if c == caller then 1 else 0) + waits_of caller (erase seq_nr m)
waits_of-erase caller seq_nr c [] d h = cc
waits_of-erase caller seq_nr c ((j, v) ∷ m) (n, d) h = elim (Bool-cases (j == seq_nr)) [
  | inl same ↦
      let j_is = (==_iff j seq_nr).0 same in
      ground (arith, same, erase_absent seq_nr m (sym (ap (λ k. find k m) j_is) ∙ n))
  | inr other ↦ ground (arith, other, waits_of-erase caller seq_nr c m d)
]

waits_of-put :
    (caller seq_nr c : ℕ) (m : List (ℕ × ℕ))
    → find seq_nr m ≡ none
    → waits_of caller (put seq_nr c m) ≡ waits_of caller m + (if c == caller then 1 else 0)
waits_of-put caller seq_nr c [] h = omega arith
waits_of-put caller seq_nr c ((j, v) ∷ m) h = ground (arith, waits_of-put caller seq_nr c m)

-- What a call does to the callers: nobody is lost, and nobody is answered more than once.
abbrev Keeps : ℕ → PendingRequests → List (ℕ × Answer) × PendingRequests → ℕ → Type 0
Keeps caller p r asked =
    answers_to caller r.0 + waits_of caller r.1.pending ≡ waits_of caller p.pending + asked

settle-Keeps :
    (caller seq_nr : ℕ) (a : Answer) (p : PendingRequests)
    → Distinct p.pending
    → Keeps caller p (settle seq_nr a p) 0
unfolding settle
settle-Keeps caller seq_nr a p d = elim (Option-cases (find seq_nr p.pending)) [
  | inl h ↦ rw (h, settle) (omega arith)
  | inr (c, h) ↦ rw (h, settle) (omega (arith, waits_of-erase caller seq_nr c p.pending d h))
]

wait-Keeps :
    (caller seq_nr c : ℕ) (b : Bool) (p : PendingRequests)
    → Distinct p.pending
    → find seq_nr p.pending ≡ none
    → Keeps caller p (wait seq_nr c b p) (if c == caller then 1 else 0)
unfolding wait
wait-Keeps caller seq_nr c true p d f = omega (
  arith,
  settle-Keeps caller seq_nr aborted (record p { pending = put seq_nr c p.pending })
      (put-Distinct seq_nr c p.pending d),
  waits_of-put caller seq_nr c p.pending f,
)
wait-Keeps caller seq_nr c false p d f = omega (arith, waits_of-put caller seq_nr c p.pending f)

settle-Distinct :
    (seq_nr : ℕ) (a : Answer) (p : PendingRequests)
    → Distinct p.pending
    → Distinct (settle seq_nr a p).1.pending
unfolding settle
settle-Distinct seq_nr a p d = ground (arith, erase-Distinct seq_nr p.pending d)

wait-Distinct :
    (seq_nr c : ℕ) (b : Bool) (p : PendingRequests)
    → Distinct p.pending
    → Distinct (wait seq_nr c b p).1.pending
unfolding wait
wait-Distinct seq_nr c true p d =
    settle-Distinct seq_nr aborted (record p { pending = put seq_nr c p.pending })
      (put-Distinct seq_nr c p.pending d)
wait-Distinct seq_nr c false p d = put-Distinct seq_nr c p.pending d

settle_each-Keeps :
    (caller : ℕ) (later : List (ℕ × ℕ)) (p : PendingRequests)
    → Distinct p.pending
    → Keeps caller p (settle_each later p) 0 × Distinct (settle_each later p).1.pending
unfolding settle_each
settle_each-Keeps caller [] p d = (omega arith, d)
settle_each-Keeps caller ((seq_nr, c) ∷ later) p d =
    let (answers, after) = settle seq_nr failed p in
    let (kept, distinct) =
      settle_each-Keeps caller later after (settle-Distinct seq_nr failed p d) in
    (
      omega (
        arith,
        kept,
        settle-Keeps caller seq_nr failed p d,
        answers_to-append caller (settle seq_nr failed p).0
            (settle_each later (settle seq_nr failed p).1).0,
      ),
      distinct,
    )

-- A response that is delivered settles its request, if there is one.
deliver-settle :
    (seq_nr : ℕ) (p : PendingRequests) → step (delivers seq_nr) p ≡ settle seq_nr answered p
unfolding step deliver settle
deliver-settle seq_nr p = elim (Option-cases (find seq_nr p.pending)) [
  | inl h ↦ rw (h, deliver, settle) refl
  | inr (c, h) ↦ rw (h, deliver) refl
]

step-Keeps :
    (caller : ℕ) (c : Call) (p : PendingRequests)
    → Distinct p.pending
    → IsFree c p
    → Keeps caller p (step c p) (asked_by caller c) × Distinct (step c p).1.pending
unfolding step next_seq_nr deliver settle_all
step-Keeps caller numbers p d f = (omega arith, d)
step-Keeps caller (waits seq_nr c b) p d f =
    (wait-Keeps caller seq_nr c b p d f, wait-Distinct seq_nr c b p d)
step-Keeps caller (delivers seq_nr) p d f =
    subst (λ r. Keeps caller p r 0 × Distinct r.1.pending) (sym (deliver-settle seq_nr p))
      (settle-Keeps caller seq_nr answered p d, settle-Distinct seq_nr answered p d)
step-Keeps caller (aborts seq_nr) p d f =
    (settle-Keeps caller seq_nr aborted p d, settle-Distinct seq_nr aborted p d)
step-Keeps caller (times_out seq_nr) p d f =
    (settle-Keeps caller seq_nr expired p d, settle-Distinct seq_nr expired p d)
step-Keeps caller (settles seq_nr) p d f =
    (settle-Keeps caller seq_nr failed p d, settle-Distinct seq_nr failed p d)
step-Keeps caller settles_all p d f = settle_each-Keeps caller p.pending p d

run-Keeps :
    (caller : ℕ) (cs : List Call) (p : PendingRequests)
    → Distinct p.pending
    → AreFree cs p
    → Keeps caller p (run cs p) (asks_of caller cs)
unfolding run
run-Keeps caller [] p d f = omega arith
run-Keeps caller (c ∷ cs) p d (f, fs) =
    let (kept, distinct) = step-Keeps caller c p d f in
    omega (
      arith,
      kept,
      run-Keeps caller cs (step c p).1 distinct fs,
      answers_to-append caller (step c p).0 (run cs (step c p).1).0,
    )

-- Over any calls on a new store of which none waits under a number that is still waited under,
-- every caller has been answered exactly as often as it asked, less the times that it still waits.
pub run-answers :
    (caller : ℕ) (cs : List Call)
    → AreFree cs create
    → answers_to caller (run cs create).0 + waits_of caller (run cs create).1.pending
      ≡ asks_of caller cs
run-answers caller cs f = omega (arith, run-Keeps caller cs create tt f)

erase_first :
    (seq_nr c : ℕ) (later : List (ℕ × ℕ))
    → Distinct ((seq_nr, c) ∷ later)
    → (find seq_nr ((seq_nr, c) ∷ later) ≡ some c) × (erase seq_nr ((seq_nr, c) ∷ later) ≡ later)
erase_first seq_nr c later (n, d) = ground (arith, erase_absent seq_nr later n)

settle_first :
    (seq_nr c : ℕ) (a : Answer) (later : List (ℕ × ℕ)) (p : PendingRequests)
    → Distinct ((seq_nr, c) ∷ later)
    → p.pending ≡ (seq_nr, c) ∷ later
    → (settle seq_nr a p).1.pending ≡ later
unfolding settle
settle_first seq_nr c a later p d h =
    let (found, erased) = erase_first seq_nr c later d in
    rw (ap (find seq_nr) h ∙ found, settle) (ap (erase seq_nr) h ∙ erased)

settle_each-nobody :
    (later : List (ℕ × ℕ)) (p : PendingRequests)
    → Distinct p.pending
    → p.pending ≡ later
    → (settle_each later p).1.pending ≡ []
unfolding settle_each settle
settle_each-nobody [] p d h = h
settle_each-nobody ((seq_nr, c) ∷ later) p d h =
    let d' = subst Distinct h d in
    let first = settle_first seq_nr c failed later p d' h in
    settle_each-nobody later (settle seq_nr failed p).1 (subst Distinct (sym first) d'.1) first

-- When all are settled, nobody waits any more, and each caller has been answered as often as it
-- waited.
pub settle_all-nobody :
    (caller : ℕ) (p : PendingRequests)
    → Distinct p.pending
    → ((settle_all p).1.pending ≡ [])
      × (answers_to caller (settle_all p).0 ≡ waits_of caller p.pending)
unfolding settle_all
settle_all-nobody caller p d =
    let none_left = settle_each-nobody p.pending p d refl in
    (
      none_left,
      omega (arith, (settle_each-Keeps caller p.pending p d).0, ap (waits_of caller) none_left),
    )

-- The store after these many numbers.
abbrev pub after : ℕ → PendingRequests
after zero = create
after (suc k) = (next_seq_nr (after k)).1

our_seq_nr-after : (k : ℕ) → (after k).our_seq_nr ≡ k % 2147483646 + 1
unfolding next_seq_nr
our_seq_nr-after zero = refl
our_seq_nr-after (suc k) = ground (arith, our_seq_nr-after k)

-- The sequence numbers count from 1 to 2147483646 and then start again at 1: none is 0 or above,
-- and any 2147483646 on end are different.
next_seq_nr-after : (k : ℕ) → (next_seq_nr (after k)).0 ≡ k % max_seq_nr + 1
unfolding next_seq_nr
next_seq_nr-after k = our_seq_nr-after k
