-- ===== src/Window/Fair.antt =====
-- The order and the number of the slots that src/send-window.ts hands out.
use smpp_js.Prelude.{
  ℕ, suc, ◌+◌, ◌≤◌, ◌<◌, ◌≡◌, refl, sym, ap, subst, ◌∙◌, ◌⊎◌, inl, inr, Bool, false, List, [], ◌∷◌,
  ◌++◌, append_assoc, append-nil, length, length-append, List-cases, arith,
}
use smpp_js.Window.{
  Answer, granted, aborted, SendWindow, create, without, has, acquire, release, abort, idle,
  idle_cut, Call, acquires, releases, aborts, idles, idle_cuts, step, run,
}

-- At most `limit` slots are out; callers wait only while all are; and a caller that waits for
-- idleness waits while something is unfinished.
pub record Inv (w : SendWindow) : Type 0 where
  pub positive : 0 < w.limit
  pub bounded : w.in_flight ≤ w.limit
  pub busy : (w.waiting ≡ []) ⊎ (w.in_flight ≡ w.limit)
  pub awake : (w.idle_waiters ≡ []) ⊎ (0 < w.in_flight)

acquire-Inv : (caller : ℕ) (b : Bool) (w : SendWindow) → Inv w → Inv (acquire caller b w).1
unfolding acquire
acquire-Inv caller b w v = ground arith

release-Inv : (w : SendWindow) → Inv w → Inv (release w).1
unfolding release
release-Inv w v = ground arith

abort-Inv : (caller : ℕ) (w : SendWindow) → Inv w → Inv (abort caller w).1
unfolding abort without has
abort-Inv caller w v = ground arith

idle-Inv : (caller : ℕ) (b : Bool) (w : SendWindow) → Inv w → Inv (idle caller b w).1
unfolding idle
idle-Inv caller b w v = ground arith

idle_cut-Inv : (caller : ℕ) (w : SendWindow) → Inv w → Inv (idle_cut caller w).1
unfolding idle_cut
idle_cut-Inv caller w v = ground arith

-- Every call keeps the slots within the limit, lets callers wait only while all slots are out, and
-- leaves nobody waiting for idleness once nothing is on the wire.
step-Inv : (c : Call) (w : SendWindow) → Inv w → Inv (step c w).1
unfolding step
step-Inv (acquires caller b) w v = acquire-Inv caller b w v
step-Inv releases w v = release-Inv w v
step-Inv (aborts caller) w v = abort-Inv caller w v
step-Inv (idles caller b) w v = idle-Inv caller b w v
step-Inv (idle_cuts caller) w v = idle_cut-Inv caller w v

pub create-Inv : (n : ℕ) → 0 < n → Inv (create n)
create-Inv n h = record { positive = h; bounded = omega arith; busy = inl refl; awake = inl refl }

pub run-Inv : (cs : List Call) (w : SendWindow) → Inv w → Inv (run cs w).1
unfolding run
run-Inv [] w v = v
run-Inv (c ∷ cs) w v = run-Inv cs (step c w).1 (step-Inv c w v)

-- The callers that were given a slot.
abbrev pub grants : List (ℕ × Answer) → List ℕ
grants [] = []
grants ((caller, granted) ∷ answers) = caller ∷ grants answers
grants ((caller, aborted) ∷ answers) = grants answers

abbrev pub asker : Call → List ℕ
asker (acquires caller _) = caller ∷ []
asker _ = []

abbrev pub askers : List Call → List ℕ
askers [] = []
askers (c ∷ cs) = asker c ++ askers cs

-- No signal aborts.
abbrev pub IsPatient : Call → Type 0
IsPatient (acquires _ b) = b ≡ false
IsPatient (aborts _) = ⊥
IsPatient _ = Unit

abbrev pub ArePatient : List Call → Type 0
ArePatient [] = Unit
ArePatient (c ∷ cs) = IsPatient c × ArePatient cs

grants-append : (xs ys : List (ℕ × Answer)) → grants (xs ++ ys) ≡ grants xs ++ grants ys
grants-append [] ys = refl
grants-append ((caller, granted) ∷ xs) ys = ap (◌∷◌ caller) (grants-append xs ys)
grants-append ((caller, aborted) ∷ xs) ys = grants-append xs ys

-- What a call grants and then leaves waiting is what waited before and then the caller that asks.
abbrev Serves : Call → SendWindow → Type 0
Serves c w = grants (step c w).0.answers ++ (step c w).1.waiting ≡ w.waiting ++ asker c

acquire-Serves : (caller : ℕ) (w : SendWindow) → Inv w → Serves (acquires caller false) w
unfolding step acquire
acquire-Serves caller w v = ground (arith, append-nil w.waiting)

release-Serves : (w : SendWindow) → Serves releases w
unfolding step release
release-Serves w = elim (List-cases w.waiting) [
  | inl e ↦ ground (arith, append-nil w.waiting)
  | inr (next, rest, e) ↦ ground (arith, append-nil w.waiting)
]

idle_cut-Serves : (caller : ℕ) (w : SendWindow) → Serves (idle_cuts caller) w
unfolding step idle_cut
idle_cut-Serves caller w = ground (arith, append-nil w.waiting)

step-Serves : (c : Call) (w : SendWindow) → Inv w → IsPatient c → Serves c w
unfolding step
step-Serves (acquires caller b) w v p =
    subst (λ z. Serves (acquires caller z) w) (sym p) (acquire-Serves caller w v)
step-Serves releases w v p = release-Serves w
step-Serves (aborts caller) w v p = absurd p
step-Serves (idles caller b) w v p = sym (append-nil w.waiting)
step-Serves (idle_cuts caller) w v p = idle_cut-Serves caller w

-- While no signal aborts, slots are granted in the order in which they were asked for, and nobody
-- is left out: those granted, and then those that still wait, are those that waited before and
-- then those that asked.
pub run-fifo :
    (cs : List Call) (w : SendWindow)
    → Inv w
    → ArePatient cs
    → grants (run cs w).0 ++ (run cs w).1.waiting ≡ w.waiting ++ askers cs
unfolding run
run-fifo [] w v p = sym (append-nil w.waiting)
run-fifo (c ∷ cs) w v (p, ps) =
    let s = step-Serves c w v p in
    let ih = run-fifo cs (step c w).1 (step-Inv c w v) ps in
    ap (λ z. z ++ (run cs (step c w).1).1.waiting)
      (grants-append (step c w).0.answers (run cs (step c w).1).0)
    ∙ append_assoc (grants (step c w).0.answers) _ _
    ∙ ap (◌++◌ (grants (step c w).0.answers)) ih
    ∙ sym (append_assoc (grants (step c w).0.answers) _ _)
    ∙ ap (λ z. z ++ askers cs) s
    ∙ append_assoc w.waiting _ _

-- Each release gives back a slot that is out.
abbrev pub Releases : List Call → SendWindow → Type 0
Releases [] w = Unit
Releases (c ∷ cs) w = (c ≡ releases → 0 < w.in_flight) × Releases cs (step c w).1

abbrev pub release_count : List Call → ℕ
release_count [] = 0
release_count (releases ∷ cs) = suc (release_count cs)
release_count (_ ∷ cs) = release_count cs

step_count :
    (c : Call) (w : SendWindow)
    → (c ≡ releases → 0 < w.in_flight)
    → (step c w).1.in_flight + release_count (c ∷ [])
      ≡ w.in_flight + length (grants (step c w).0.answers)
unfolding step acquire release abort idle idle_cut
step_count (acquires caller b) w h = ground arith
step_count releases w h = ground (arith, h refl)
step_count (aborts caller) w h = ground arith
step_count (idles caller b) w h = ground arith
step_count (idle_cuts caller) w h = ground arith

release_count-cons :
    (c : Call) (cs : List Call) → release_count (c ∷ cs) ≡ release_count (c ∷ []) + release_count cs
release_count-cons releases cs = omega arith
release_count-cons (acquires _ _) cs = omega arith
release_count-cons (aborts _) cs = omega arith
release_count-cons (idles _ _) cs = omega arith
release_count-cons (idle_cuts _) cs = omega arith

-- No slot is lost or made up: the slots out at the end and those released are the slots out at the
-- beginning and those granted, when every release gives back a slot that is out.
pub run_count :
    (cs : List Call) (w : SendWindow)
    → Releases cs w
    → (run cs w).1.in_flight + release_count cs ≡ w.in_flight + length (grants (run cs w).0)
unfolding run
run_count [] w h = refl
run_count (c ∷ cs) w (h, hs) = omega (
  arith,
  release_count-cons c cs,
  step_count c w h,
  run_count cs (step c w).1 hs,
  ap length (grants-append (step c w).0.answers (run cs (step c w).1).0),
  length-append (grants (step c w).0.answers) (grants (run cs (step c w).1).0),
)
