-- ===== src/SessionOptions/Tests.antt =====
-- Options that src/session-options.ts takes and refuses, and its theorems at concrete options.
use smpp_js.Prelude.{◌<◌, ◌≡◌, refl, ◌⊎◌, true, false, none, some, List, [], ◌∷◌, String}
use smpp_js.Prelude.Results.{err}
use smpp_js.SessionOptions.{
  stands_in_for, is_bind_type, bind_type_from_command, declared, check_connect_timeout,
  check_limits, check_reconnect, check_keys, check_from_start, check_delays, check_order,
  check_sms_id_format, check_places,
}
use smpp_js.SessionOptions.{
  receiver, transmitter, esme, smsc, bind_carries, whole, Scalar, undefined, boolean, number, text,
  Value, scalar, object, CheckableOptions, checked_bind, limit_low, delays_crossed,
  declared_version_wrong, check_session_options,
}
use smpp_js.SessionOptions.Checked.{window_never_stuck}
use smpp_js.Window
use smpp_js.Reconnect
use smpp_js.Reconnect.Bounds

abbrev not_given : Value
not_given = scalar undefined

abbrev policy : List (String × Scalar)
policy = ("minDelay", number (whole 20)) ∷ ("fromStart", boolean true) ∷ []

abbrev given : CheckableOptions
given = record {
  connect_timeout = scalar (boolean false);
  from_start = not_given;
  idle_timeout = none;
  max_octets = none;
  max_outstanding = some (whole 2);
  max_reassembly = none;
  reassembly_timeout = none;
  reconnect = object policy;
  response_timeout = some (whole 0);
  shutdown_timeout = none;
  sms_id_format = object (("receipt", text "hex") ∷ []);
}

given-taken : check_session_options given ≡ none
unfolding check_session_options check_connect_timeout check_limits check_reconnect check_keys
    check_from_start check_delays check_order check_sms_id_format check_places
given-taken = refl

no_slots :
    check_session_options (record given { max_outstanding = some (whole 0) })
    ≡ some (limit_low "maxOutstanding" (whole 0) 1)
unfolding check_session_options check_connect_timeout check_limits
no_slots = refl

crossed :
    check_session_options
      (record given { reconnect = object (("maxDelay", number (whole 5)) ∷ []) })
    ≡ some (delays_crossed 1000 5)
unfolding check_session_options check_connect_timeout check_limits check_reconnect check_keys
    check_from_start check_delays check_order
crossed = refl

either_way :
    (bind_carries (some receiver) "data_sm" smsc ≡ false)
    × (bind_carries (some receiver) "data_sm" esme ≡ true)
    × (bind_carries (some transmitter) "deliver_sm" esme ≡ false)
unfolding bind_carries stands_in_for
either_way = (refl, refl, refl)

version_256 :
    checked_bind (scalar (text "receiver")) (scalar (number (whole 256)))
    ≡ err (declared_version_wrong (scalar (number (whole 256))))
unfolding checked_bind is_bind_type bind_type_from_command declared
version_256 = refl

abbrev busy_calls : List Window.Call
busy_calls = Window.acquires 1 false ∷ Window.acquires 2 false ∷ Window.acquires 3 false ∷ []

window_never_stuck_example :
    ((Window.run busy_calls (Window.create 2)).1.waiting ≡ [])
    ⊎ (0 < (Window.run busy_calls (Window.create 2)).1.in_flight)
window_never_stuck_example = window_never_stuck given 2 busy_calls given-taken refl
