-- ===== src/Defs/Commands.antt =====
-- src/defs/commands.ts: the commands, in the order in which the source lists them, each with its
-- parameters in wire order, and the responses paired with them.
pub mod Pairing
use Prim.Native.String
use smpp_js.Prelude.{
  ℕ, Bool, true, false, Option, none, some, List, [], ◌∷◌, ◌++◌, String, string_eq, nat_eq, find,
  put, if◌then◌else◌,
}
use smpp_js.Wire.{WireType}
use smpp_js.Wire.Ints.{one, int_type}
use smpp_js.Wire.Texts.{cstring, buffer}
use smpp_js.Wire.Arrays.{dest_address_array, unsuccess_sme_array}

-- One parameter: its name and how it is read and written.
abbrev pub Param : Type 0
Param = String × WireType

pub record CommandSpec : Type 0 where
  pub id : ℕ
  pub params : List Param

abbrev int8 : WireType
int8 = int_type one

unfoldable pub bind_params : List Param
bind_params =
    ("system_id", cstring)
    ∷ ("password", cstring)
    ∷ ("system_type", cstring)
    ∷ ("interface_version", int8)
    ∷ ("addr_ton", int8)
    ∷ ("addr_npi", int8)
    ∷ ("address_range", cstring)
    ∷ []

abbrev bare : ℕ → CommandSpec
bare id = record { id = id; params = [] }

abbrev with_params : ℕ → List Param → CommandSpec
with_params id params = record { id = id; params = params }

-- The commands from `alert_notification` to `cancel_sm_resp`.
unfoldable pub early_specs : List (String × CommandSpec)
unfolding bind_params
early_specs =
    (
      "alert_notification",
      with_params 0x00000102 (
          ("source_addr_ton", int8)
          ∷ ("source_addr_npi", int8)
          ∷ ("source_addr", cstring)
          ∷ ("esme_addr_ton", int8)
          ∷ ("esme_addr_npi", int8)
          ∷ ("esme_addr", cstring)
          ∷ []),
    )
    ∷ ("bind_receiver", with_params 0x00000001 bind_params)
    ∷ ("bind_receiver_resp", with_params 0x80000001 (("system_id", cstring) ∷ []))
    ∷ ("bind_transmitter", with_params 0x00000002 bind_params)
    ∷ ("bind_transmitter_resp", with_params 0x80000002 (("system_id", cstring) ∷ []))
    ∷ ("bind_transceiver", with_params 0x00000009 bind_params)
    ∷ ("bind_transceiver_resp", with_params 0x80000009 (("system_id", cstring) ∷ []))
    ∷ (
      "broadcast_sm",
      with_params 0x00000111 (
          ("service_type", cstring)
          ∷ ("source_addr_ton", int8)
          ∷ ("source_addr_npi", int8)
          ∷ ("source_addr", cstring)
          ∷ ("message_id", cstring)
          ∷ ("priority_flag", int8)
          ∷ ("schedule_delivery_time", cstring)
          ∷ ("validity_period", cstring)
          ∷ ("replace_if_present_flag", int8)
          ∷ ("data_coding", int8)
          ∷ ("sm_default_msg_id", int8)
          ∷ []),
    )
    ∷ ("broadcast_sm_resp", with_params 0x80000111 (("message_id", cstring) ∷ []))
    ∷ (
      "cancel_broadcast_sm",
      with_params 0x00000113 (
          ("service_type", cstring)
          ∷ ("message_id", cstring)
          ∷ ("source_addr_ton", int8)
          ∷ ("source_addr_npi", int8)
          ∷ ("source_addr", cstring)
          ∷ []),
    )
    ∷ ("cancel_broadcast_sm_resp", bare 0x80000113)
    ∷ (
      "cancel_sm",
      with_params 0x00000008 (
          ("service_type", cstring)
          ∷ ("message_id", cstring)
          ∷ ("source_addr_ton", int8)
          ∷ ("source_addr_npi", int8)
          ∷ ("source_addr", cstring)
          ∷ ("dest_addr_ton", int8)
          ∷ ("dest_addr_npi", int8)
          ∷ ("destination_addr", cstring)
          ∷ []),
    )
    ∷ ("cancel_sm_resp", bare 0x80000008)
    ∷ []

-- The commands from `data_sm` to `outbind`.
unfoldable pub middle_specs : List (String × CommandSpec)
middle_specs =
    (
      "data_sm",
      with_params 0x00000103 (
          ("service_type", cstring)
          ∷ ("source_addr_ton", int8)
          ∷ ("source_addr_npi", int8)
          ∷ ("source_addr", cstring)
          ∷ ("dest_addr_ton", int8)
          ∷ ("dest_addr_npi", int8)
          ∷ ("destination_addr", cstring)
          ∷ ("esm_class", int8)
          ∷ ("registered_delivery", int8)
          ∷ ("data_coding", int8)
          ∷ []),
    )
    ∷ ("data_sm_resp", with_params 0x80000103 (("message_id", cstring) ∷ []))
    ∷ (
      "deliver_sm",
      with_params 0x00000005 (
          ("service_type", cstring)
          ∷ ("source_addr_ton", int8)
          ∷ ("source_addr_npi", int8)
          ∷ ("source_addr", cstring)
          ∷ ("dest_addr_ton", int8)
          ∷ ("dest_addr_npi", int8)
          ∷ ("destination_addr", cstring)
          ∷ ("esm_class", int8)
          ∷ ("protocol_id", int8)
          ∷ ("priority_flag", int8)
          ∷ ("schedule_delivery_time", cstring)
          ∷ ("validity_period", cstring)
          ∷ ("registered_delivery", int8)
          ∷ ("replace_if_present_flag", int8)
          ∷ ("data_coding", int8)
          ∷ ("sm_default_msg_id", int8)
          ∷ ("sm_length", int8)
          ∷ ("short_message", buffer)
          ∷ []),
    )
    ∷ ("deliver_sm_resp", with_params 0x80000005 (("message_id", cstring) ∷ []))
    ∷ ("enquire_link", bare 0x00000015)
    ∷ ("enquire_link_resp", bare 0x80000015)
    ∷ ("generic_nack", bare 0x80000000)
    ∷ ("outbind", with_params 0x0000000B (("system_id", cstring) ∷ ("password", cstring) ∷ []))
    ∷ []

-- The commands from `query_broadcast_sm` to `unbind_resp`.
unfoldable pub late_specs : List (String × CommandSpec)
late_specs =
    (
      "query_broadcast_sm",
      with_params 0x00000112 (
          ("message_id", cstring)
          ∷ ("source_addr_ton", int8)
          ∷ ("source_addr_npi", int8)
          ∷ ("source_addr", cstring)
          ∷ []),
    )
    ∷ ("query_broadcast_sm_resp", with_params 0x80000112 (("message_id", cstring) ∷ []))
    ∷ (
      "query_sm",
      with_params 0x00000003 (
          ("message_id", cstring)
          ∷ ("source_addr_ton", int8)
          ∷ ("source_addr_npi", int8)
          ∷ ("source_addr", cstring)
          ∷ []),
    )
    ∷ (
      "query_sm_resp",
      with_params 0x80000003 (
          ("message_id", cstring)
          ∷ ("final_date", cstring)
          ∷ ("message_state", int8)
          ∷ ("error_code", int8)
          ∷ []),
    )
    ∷ (
      "replace_sm",
      with_params 0x00000007 (
          ("message_id", cstring)
          ∷ ("source_addr_ton", int8)
          ∷ ("source_addr_npi", int8)
          ∷ ("source_addr", cstring)
          ∷ ("schedule_delivery_time", cstring)
          ∷ ("validity_period", cstring)
          ∷ ("registered_delivery", int8)
          ∷ ("sm_default_msg_id", int8)
          ∷ ("sm_length", int8)
          ∷ ("short_message", buffer)
          ∷ []),
    )
    ∷ ("replace_sm_resp", bare 0x80000007)
    ∷ (
      "submit_multi",
      with_params 0x00000021 (
          ("service_type", cstring)
          ∷ ("source_addr_ton", int8)
          ∷ ("source_addr_npi", int8)
          ∷ ("source_addr", cstring)
          ∷ ("dest_address", dest_address_array)
          ∷ ("esm_class", int8)
          ∷ ("protocol_id", int8)
          ∷ ("priority_flag", int8)
          ∷ ("schedule_delivery_time", cstring)
          ∷ ("validity_period", cstring)
          ∷ ("registered_delivery", int8)
          ∷ ("replace_if_present_flag", int8)
          ∷ ("data_coding", int8)
          ∷ ("sm_default_msg_id", int8)
          ∷ ("sm_length", int8)
          ∷ ("short_message", buffer)
          ∷ []),
    )
    ∷ (
      "submit_multi_resp",
      with_params 0x80000021
          (("message_id", cstring) ∷ ("unsuccess_sme", unsuccess_sme_array) ∷ []),
    )
    ∷ (
      "submit_sm",
      with_params 0x00000004 (
          ("service_type", cstring)
          ∷ ("source_addr_ton", int8)
          ∷ ("source_addr_npi", int8)
          ∷ ("source_addr", cstring)
          ∷ ("dest_addr_ton", int8)
          ∷ ("dest_addr_npi", int8)
          ∷ ("destination_addr", cstring)
          ∷ ("esm_class", int8)
          ∷ ("protocol_id", int8)
          ∷ ("priority_flag", int8)
          ∷ ("schedule_delivery_time", cstring)
          ∷ ("validity_period", cstring)
          ∷ ("registered_delivery", int8)
          ∷ ("replace_if_present_flag", int8)
          ∷ ("data_coding", int8)
          ∷ ("sm_default_msg_id", int8)
          ∷ ("sm_length", int8)
          ∷ ("short_message", buffer)
          ∷ []),
    )
    ∷ ("submit_sm_resp", with_params 0x80000004 (("message_id", cstring) ∷ []))
    ∷ ("unbind", bare 0x00000006)
    ∷ ("unbind_resp", bare 0x80000006)
    ∷ []

unfoldable pub specs : List (String × CommandSpec)
unfolding early_specs middle_specs late_specs
specs = early_specs ++ (middle_specs ++ late_specs)

-- `cmdsById`: a later command of the same id would take the earlier one's place.
abbrev by_id : List (String × CommandSpec) → List (ℕ × String) → List (ℕ × String)
by_id [] found = found
by_id ((command, spec) ∷ later) found = by_id later (put spec.id command found)

unfoldable pub cmds_by_id : List (ℕ × String)
unfolding specs
cmds_by_id = by_id specs []

unfoldable pub is_command_name : String → Bool
unfolding specs
is_command_name name = elim (find name specs) [ none ↦ false | some _ ↦ true ]

unfoldable pub command_name_by_id : ℕ → Option String
unfolding cmds_by_id
command_name_by_id id = find id cmds_by_id

unfoldable pub resp_name_for : Option String → Option String
unfolding is_command_name
resp_name_for none = none
resp_name_for (some cmd_name) =
    let resp_name = String.◌++◌ cmd_name "_resp" in
    if is_command_name resp_name then some resp_name else none
