-- ===== src/Constants.antt =====
-- src/defs/constants.ts. The bits of an esm_class are those of a whole number.
mod Tests
use smpp_js.Prelude.{
  ℕ, ◌&&◌, not, Bool, true, false, Option, none, some, List, [], ◌∷◌, String, nat_eq, string_eq,
  bit_and, map, find, put, ◌==◌,
}

-- A group of named values, in the order of the source.
abbrev pub Group : Type 0
Group = List (String × ℕ)

unfoldable pub broadcast_area_format : Group
broadcast_area_format =
    ("ALIAS", 0x00) ∷ ("ELLIPSOID_ARC", 0x01) ∷ ("NAME", 0x00) ∷ ("POLYGON", 0x02) ∷ []

unfoldable pub broadcast_frequency_interval : Group
broadcast_frequency_interval =
    ("DAYS", 0x0B)
    ∷ ("HOURS", 0x0A)
    ∷ ("MAX_POSSIBLE", 0x00)
    ∷ ("MINUTES", 0x09)
    ∷ ("MONTHS", 0x0D)
    ∷ ("SECONDS", 0x08)
    ∷ ("WEEKS", 0x0C)
    ∷ ("YEARS", 0x0E)
    ∷ []

unfoldable pub encoding : Group
encoding =
    ("BINARY", 0x04)
    ∷ ("CYRILLIC", 0x06)
    ∷ ("EXTENDED_KANJI_JIS", 0x0D)
    ∷ ("FLASH", 0x10)
    ∷ ("HEBREW", 0x07)
    ∷ ("IA5", 0x01)
    ∷ ("ISO_2022_JP", 0x0A)
    ∷ ("ISO_8859_1", 0x03)
    ∷ ("ISO_8859_5", 0x06)
    ∷ ("ISO_8859_8", 0x07)
    ∷ ("JIS", 0x05)
    ∷ ("KS_C_5601", 0x0E)
    ∷ ("LATIN1", 0x03)
    ∷ ("PICTOGRAM", 0x09)
    ∷ ("UCS2", 0x08)
    ∷ ("X_0208_1990", 0x05)
    ∷ ("X_0212_1990", 0x0D)
    ∷ []

unfoldable pub esm_class : Group
esm_class =
    ("CONVERSATION_ABORT", 0x18)
    ∷ ("DELIVERY_ACKNOWLEDGEMENT", 0x08)
    ∷ ("INTERMEDIATE_DELIVERY", 0x20)
    ∷ ("MC_DELIVERY_RECEIPT", 0x04)
    ∷ ("SET_REPLY_PATH", 0x80)
    ∷ ("UDH_INDICATOR", 0x40)
    ∷ ("USER_ACKNOWLEDGEMENT", 0x10)
    ∷ []

unfoldable pub message_state : Group
message_state =
    ("ACCEPTED", 6)
    ∷ ("DELETED", 4)
    ∷ ("DELIVERED", 2)
    ∷ ("ENROUTE", 1)
    ∷ ("EXPIRED", 3)
    ∷ ("REJECTED", 8)
    ∷ ("SCHEDULED", 0)
    ∷ ("SKIPPED", 9)
    ∷ ("UNDELIVERABLE", 5)
    ∷ ("UNKNOWN", 7)
    ∷ []

unfoldable pub messaging_mode : Group
messaging_mode =
    ("DATAGRAM", 0x01) ∷ ("FORWARD", 0x02) ∷ ("SMSC_DEFAULT", 0x00) ∷ ("STORE_FORWARD", 0x03) ∷ []

unfoldable pub network : Group
network = ("CDMA", 0x03) ∷ ("GENERIC", 0x00) ∷ ("GSM", 0x01) ∷ ("TDMA", 0x02) ∷ []

unfoldable pub npi : Group
npi =
    ("DATA", 0x03)
    ∷ ("ERMES", 0x0A)
    ∷ ("INTERNET", 0x0E)
    ∷ ("IP", 0x0E)
    ∷ ("ISDN", 0x01)
    ∷ ("LAND_MOBILE", 0x06)
    ∷ ("NATIONAL", 0x08)
    ∷ ("PRIVATE", 0x09)
    ∷ ("TELEX", 0x04)
    ∷ ("UNKNOWN", 0x00)
    ∷ ("WAP", 0x12)
    ∷ []

unfoldable pub registered_delivery : Group
registered_delivery =
    ("DELIVERY_ACKNOWLEDGEMENT", 0x04)
    ∷ ("FAILURE", 0x02)
    ∷ ("FINAL", 0x01)
    ∷ ("INTERMEDIATE", 0x10)
    ∷ ("SUCCESS", 0x03)
    ∷ ("USER_ACKNOWLEDGEMENT", 0x08)
    ∷ []

unfoldable pub ton : Group
ton =
    ("ABBREVIATED", 0x06)
    ∷ ("ALPHANUMERIC", 0x05)
    ∷ ("INTERNATIONAL", 0x01)
    ∷ ("NATIONAL", 0x02)
    ∷ ("NETWORK_SPECIFIC", 0x03)
    ∷ ("SUBSCRIBER_NUMBER", 0x04)
    ∷ ("UNKNOWN", 0x00)
    ∷ []

unfoldable pub consts : List (String × Group)
unfolding broadcast_area_format broadcast_frequency_interval encoding esm_class message_state
    messaging_mode network npi registered_delivery ton
consts =
    ("BROADCAST_AREA_FORMAT", broadcast_area_format)
    ∷ ("BROADCAST_FREQUENCY_INTERVAL", broadcast_frequency_interval)
    ∷ ("ENCODING", encoding)
    ∷ ("ESM_CLASS", esm_class)
    ∷ ("MESSAGE_STATE", message_state)
    ∷ ("MESSAGING_MODE", messaging_mode)
    ∷ ("NETWORK", network)
    ∷ ("NPI", npi)
    ∷ ("REGISTERED_DELIVERY", registered_delivery)
    ∷ ("TON", ton)
    ∷ []

-- `(esmClass & UDH_INDICATOR) === UDH_INDICATOR`
unfoldable pub has_udh : ℕ → Bool
has_udh esm_class = bit_and esm_class 0x40 == 0x40

unfoldable pub message_type_of : ℕ → ℕ
message_type_of esm_class = bit_and esm_class 0x3c

unfoldable pub is_messaging_mode : String → Bool
unfolding messaging_mode
is_messaging_mode value = elim (find value messaging_mode) [ none ↦ false | some _ ↦ true ]

unfoldable pub is_submit_messaging_mode : String → Bool
unfolding is_messaging_mode
is_submit_messaging_mode value = is_messaging_mode value && not (string_eq.beq value "FORWARD")

-- The loop over the entries of a group: a later name of the same value takes the earlier one's
-- place.
abbrev by_value : Group → List (ℕ × String) → List (ℕ × String)
by_value [] found = found
by_value ((name, value) ∷ later) found = by_value later (put value name found)

unfoldable pub consts_by_id : List (String × List (ℕ × String))
unfolding consts
consts_by_id = map (λ (name, group). (name, by_value group [])) consts
