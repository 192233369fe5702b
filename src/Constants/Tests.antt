-- ===== src/Constants/Tests.antt =====
-- Runs of the tests of src/defs/constants.ts.
use smpp_js.Prelude.{◌≡◌, refl, true, false, some, [], string_eq, nat_eq, find}
use smpp_js.Constants.{message_state, has_udh, message_type_of, is_submit_messaging_mode, by_value}

flagged : has_udh 0x44 ≡ true
unfolding has_udh
flagged = refl

receipt : message_type_of 0x44 ≡ 0x04
unfolding message_type_of
receipt = refl

no_forwarding : is_submit_messaging_mode "FORWARD" ≡ false
unfolding is_submit_messaging_mode
no_forwarding = refl

delivered : find 2 (by_value message_state []) ≡ some "DELIVERED"
unfolding message_state
delivered = refl
