-- ===== src/SessionOptions/Checked.antt =====
-- What the options that src/session-options.ts lets through mean for the parts that a session makes
-- from them.
use smpp_js.Prelude.{ℕ, ◌<◌, ◌≡◌, ◌⊎◌, inl, inr, none, List, [], arith}
use smpp_js.SessionOptions.{
  CheckableOptions, whole, or_default, check_limits, check_session_options,
}
use smpp_js.Window
use smpp_js.Window.Fair.{create-Inv, run-Inv}
use smpp_js.Reconnect
use smpp_js.Reconnect.Bounds

outstanding_positive :
    (o : CheckableOptions) (n : ℕ)
    → check_session_options o ≡ none
    → or_default o.max_outstanding 10 ≡ whole n
    → 0 < n
unfolding check_session_options check_limits
outstanding_positive o n h e = ground (arith, h, e)

-- In the send window that is made with the `maxOutstanding` of options that pass the check, or with
-- its default, after any calls: callers wait for a slot only while a request is on the wire.
pub window_never_stuck :
    (o : CheckableOptions) (n : ℕ) (cs : List Window.Call)
    → check_session_options o ≡ none
    → or_default o.max_outstanding 10 ≡ whole n
    → ((Window.run cs (Window.create n)).1.waiting ≡ [])
      ⊎ (0 < (Window.run cs (Window.create n)).1.in_flight)
window_never_stuck o n cs h e =
    let v = run-Inv cs (Window.create n) (create-Inv n (outstanding_positive o n h e)) in
    elim v.busy [ inl idle ↦ inl idle | inr full ↦ inr (omega (arith, v.positive, full)) ]
