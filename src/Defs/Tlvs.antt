-- ===== src/Defs/Tlvs.antt =====
-- The table of src/defs/tlvs.ts: the optional parameters, in the order of their tags.
pub mod Codec
pub mod Table
pub mod Values
pub mod Stream
pub mod Keyed
pub mod Sent
pub mod RoundTrip
pub mod Found
pub mod Kinds
mod Tests
use smpp_js.Prelude.{
  ℕ, Bool, true, false, Option, none, some, List, [], ◌∷◌, ◌++◌, map, String, string_eq, nat_eq,
  find, put,
}
use smpp_js.Wire.{WireType}
use smpp_js.Wire.Ints.{Width, one, two, four, tlv_int}
use smpp_js.Wire.Texts.{tlv_cstring, tlv_string}
use smpp_js.Wire.Texts.{buffer as tlv_buffer}

-- The fields of `tlv` that the table uses.
pub data TlvType : Type 0 where
  int : Width → TlvType
  cstring string buffer : TlvType

unfoldable pub wire_type : TlvType → WireType
unfolding tlv_int tlv_cstring tlv_string tlv_buffer
wire_type (int w) = tlv_int w
wire_type cstring = tlv_cstring
wire_type string = tlv_string
wire_type buffer = tlv_buffer

pub record TlvDefinition : Type 0 where
  pub id : ℕ
  pub multiple : Bool
  pub tag : String
  pub type : TlvType

abbrev lone : ℕ → String → TlvType → TlvDefinition
lone id tag type = record { id = id; multiple = false; tag = tag; type = type }

abbrev repeated : ℕ → String → TlvType → TlvDefinition
repeated id tag type = record { id = id; multiple = true; tag = tag; type = type }

-- The tags below 0x0427.
unfoldable pub early_specs : List TlvDefinition
early_specs =
    lone 0x0005 "dest_addr_subunit" (int one)
    ∷ lone 0x0006 "dest_network_type" (int one)
    ∷ lone 0x0007 "dest_bearer_type" (int one)
    ∷ lone 0x0008 "dest_telematics_id" (int two)
    ∷ lone 0x000D "source_addr_subunit" (int one)
    ∷ lone 0x000E "source_network_type" (int one)
    ∷ lone 0x000F "source_bearer_type" (int one)
    ∷ lone 0x0010 "source_telematics_id" (int one)
    ∷ lone 0x0017 "qos_time_to_live" (int four)
    ∷ lone 0x0019 "payload_type" (int one)
    ∷ lone 0x001D "additional_status_info_text" cstring
    ∷ lone 0x001E "receipted_message_id" cstring
    ∷ lone 0x0030 "ms_msg_wait_facilities" (int one)
    ∷ lone 0x0201 "privacy_indicator" (int one)
    ∷ lone 0x0202 "source_subaddress" buffer
    ∷ lone 0x0203 "dest_subaddress" buffer
    ∷ lone 0x0204 "user_message_reference" (int two)
    ∷ lone 0x0205 "user_response_code" (int one)
    ∷ lone 0x020A "source_port" (int two)
    ∷ lone 0x020B "dest_port" (int two)
    ∷ lone 0x020C "sar_msg_ref_num" (int two)
    ∷ lone 0x020D "language_indicator" (int one)
    ∷ lone 0x020E "sar_total_segments" (int one)
    ∷ lone 0x020F "sar_segment_seqnum" (int one)
    ∷ lone 0x0210 "sc_interface_version" (int one)
    ∷ repeated 0x0302 "callback_num_pres_ind" (int one)
    ∷ repeated 0x0303 "callback_num_atag" buffer
    ∷ lone 0x0304 "number_of_messages" (int one)
    ∷ repeated 0x0381 "callback_num" buffer
    ∷ lone 0x0420 "dpf_result" (int one)
    ∷ lone 0x0421 "set_dpf" (int one)
    ∷ lone 0x0422 "ms_availability_status" (int one)
    ∷ lone 0x0423 "network_error_code" buffer
    ∷ lone 0x0424 "message_payload" buffer
    ∷ lone 0x0425 "delivery_failure_reason" (int one)
    ∷ lone 0x0426 "more_messages_to_send" (int one)
    ∷ []

unfoldable pub late_specs : List TlvDefinition
late_specs =
    lone 0x0427 "message_state" (int one)
    ∷ lone 0x0428 "congestion_state" (int one)
    ∷ lone 0x0501 "ussd_service_op" (int one)
    ∷ lone 0x0600 "broadcast_channel_indicator" (int one)
    ∷ lone 0x0601 "broadcast_content_type" buffer
    ∷ lone 0x0602 "broadcast_content_type_info" string
    ∷ lone 0x0603 "broadcast_message_class" (int one)
    ∷ lone 0x0604 "broadcast_rep_num" (int two)
    ∷ lone 0x0605 "broadcast_frequency_interval" buffer
    ∷ repeated 0x0606 "broadcast_area_identifier" buffer
    ∷ repeated 0x0607 "broadcast_error_status" (int four)
    ∷ lone 0x0608 "broadcast_area_success" (int one)
    ∷ lone 0x0609 "broadcast_end_time" string
    ∷ lone 0x060A "broadcast_service_group" string
    ∷ lone 0x060B "billing_identification" buffer
    ∷ lone 0x060D "source_network_id" cstring
    ∷ lone 0x060E "dest_network_id" cstring
    ∷ lone 0x060F "source_node_id" string
    ∷ lone 0x0610 "dest_node_id" string
    ∷ lone 0x0611 "dest_addr_np_resolution" (int one)
    ∷ lone 0x0612 "dest_addr_np_information" string
    ∷ lone 0x0613 "dest_addr_np_country" (int four)
    ∷ lone 0x1201 "display_time" (int one)
    ∷ lone 0x1203 "sms_signal" (int two)
    ∷ lone 0x1204 "ms_validity" buffer
    ∷ lone 0x130C "alert_on_message_delivery" (int one)
    ∷ lone 0x1380 "its_reply_type" (int one)
    ∷ lone 0x1383 "its_session_info" buffer
    ∷ []

unfoldable pub specs : List TlvDefinition
unfolding early_specs late_specs
specs = early_specs ++ late_specs

-- `specs[name]`, since each definition is keyed by its own tag.
unfoldable pub spec_of : String → Option TlvDefinition
unfolding specs
spec_of name = find name (map (λ d. (d.tag, d)) specs)

unfoldable pub alternates : List (String × String)
alternates =
    ("alert_on_msg_delivery", "alert_on_message_delivery")
    ∷ ("failed_broadcast_area_identifier", "broadcast_area_identifier")
    ∷ []

-- The loop that fills `tlvsById`.
unfoldable pub filled : List TlvDefinition → List (ℕ × TlvDefinition) → List (ℕ × TlvDefinition)
filled [] by_id = by_id
filled (d ∷ ds) by_id = filled ds (put d.id d by_id)

unfoldable pub tlvs_by_id : ℕ → Option TlvDefinition
unfolding specs filled
tlvs_by_id id = find id (filled specs [])
