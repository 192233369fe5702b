-- ===== src/Defs/Tests.antt =====
-- The tables' theorems at concrete names.
use smpp_js.Prelude.{◌+◌, ◌<◌, ◌≡◌, refl, none, some, []}
use smpp_js.Defs.Commands.{specs, command_name_by_id, resp_name_for}
use smpp_js.Defs.Commands.Pairing.{command_name_by_id-specs, resp_bit, id_of, resp_name_for-id}

unknown_command : command_name_by_id 0x0000_0010 ≡ none
unfolding command_name_by_id
unknown_command = refl

unpaired : resp_name_for (some "outbind") ≡ none
unfolding resp_name_for
unpaired = refl

command_name_by_id-specs_example : command_name_by_id 0x15 ≡ some "enquire_link"
unfolding specs
command_name_by_id-specs_example =
    command_name_by_id-specs "enquire_link" (record { id = 0x15; params = [] }) refl

resp_name_for-id_example : (0x15 < resp_bit) × (id_of (some "enquire_link_resp") ≡ 0x15 + resp_bit)
unfolding specs resp_name_for
resp_name_for-id_example =
    resp_name_for-id "enquire_link" "enquire_link_resp" (record { id = 0x15; params = [] }) refl
      refl
