-- ===== src/SessionOptions.antt =====
-- src/session-options.ts: which commands a bind carries, the bind that a session records, and the
-- check of the options that a session is made from. A check that passes, `{}`, is `none`; an error
-- keeps what its text is spelled from.
mod Checked
mod Tests
use Prim.Native.String
use smpp_js.Prelude.Results.{Result, err, ok}
use smpp_js.Prelude.{
  ℕ, ◌+◌, ◌*◌, Bool, true, false, not, ◌||◌, Option, none, some, List, [], ◌∷◌, String, string_eq,
  find, ltb, if◌then◌else◌,
}

pub data BindType : Type 0 where
  receiver transceiver transmitter : BindType

pub data LinkEnd : Type 0 where
  esme smsc : LinkEnd

bind_type_from_command : String → Option BindType
bind_type_from_command cmd_name =
    if string_eq.beq cmd_name "bind_receiver"
    then some receiver
    else if string_eq.beq cmd_name "bind_transceiver"
    then some transceiver
    else if string_eq.beq cmd_name "bind_transmitter"
    then some transmitter
    else none

abbrev message_of : LinkEnd → String
message_of smsc = "submit_sm"
message_of esme = "deliver_sm"

stands_in_for : String → LinkEnd → String
stands_in_for cmd_name link_end =
    if string_eq.beq cmd_name "data_sm" then message_of link_end else cmd_name

bind_carries : Option BindType → String → LinkEnd → Bool
unfolding stands_in_for
bind_carries (some receiver) cmd_name link_end =
    not (string_eq.beq (stands_in_for cmd_name link_end) "submit_sm")
bind_carries (some transmitter) cmd_name link_end =
    not (string_eq.beq (stands_in_for cmd_name link_end) "deliver_sm")
bind_carries _ cmd_name link_end = true

-- A number of JavaScript: a whole one, a whole one below zero by its size, or one that is not an
-- integer, `NaN` and the infinities with it.
pub data Number : Type 0 where
  whole below_zero : ℕ → Number
  not_integer : Number

-- A value of type `unknown` inside an object: what `typeof` tells apart here.
pub data Scalar : Type 0 where
  undefined null_value other : Scalar
  boolean : Bool → Scalar
  number : Number → Scalar
  text : String → Scalar

-- A value of type `unknown`; an object is the list of its entries, an array is `other`.
pub data Value : Type 0 where
  scalar : Scalar → Value
  object : List (String × Scalar) → Value

data OptionError : Type 0 where
  bind_type_unknown declared_version_wrong from_start_misplaced connect_timeout_wrong
        connect_timeout_long :
      Value → OptionError
  limit_low : String → Number → ℕ → OptionError
  reconnect_shape sms_id_format_shape : OptionError
  reconnect_key sms_id_place : String → OptionError
  from_start_kind : Scalar → OptionError
  delays_crossed : ℕ → ℕ → OptionError
  sms_id_notation : String → Scalar → OptionError

record SessionBind : Type 0 where
  bound_as : BindType
  peer_version : ℕ

is_bind_type : Value → Option BindType
unfolding bind_type_from_command
is_bind_type (scalar (text t)) = bind_type_from_command (Prim.Native.String.◌++◌ "bind_" t)
is_bind_type _ = none

-- The bind, or the error; a version that is not declared is 0.
declared : BindType → Value → Result OptionError SessionBind
declared bound_as (scalar undefined) = ok (record { bound_as = bound_as; peer_version = 0 })
declared bound_as (scalar (number (whole n))) =
    if ltb 255 n
    then err (declared_version_wrong (scalar (number (whole n))))
    else ok (record { bound_as = bound_as; peer_version = n })
declared bound_as v = err (declared_version_wrong v)

checked_bind : Value → Value → Result OptionError SessionBind
unfolding is_bind_type declared
checked_bind bind_type version = elim (is_bind_type bind_type) [
  | none ↦ err (bind_type_unknown bind_type)
  | some bound_as ↦ declared bound_as version
]

pub record CheckableOptions : Type 0 where
  pub connect_timeout : Value
  pub from_start : Value
  pub idle_timeout : Option Number
  pub max_octets : Option Number
  pub max_outstanding : Option Number
  pub max_reassembly : Option Number
  pub reassembly_timeout : Option Number
  pub reconnect : Value
  pub response_timeout : Option Number
  pub shutdown_timeout : Option Number
  pub sms_id_format : Value

abbrev pub or_default : Option Number → ℕ → Number
or_default none fallback = whole fallback
or_default (some n) _ = n

-- A limit: its name, its value, and the least that it may be.
abbrev Limit : Type 0
Limit = String × Number × ℕ

abbrev limits_of : CheckableOptions → List Limit
limits_of o =
    ("idleTimeout", or_default o.idle_timeout 0, 0)
    ∷ ("maxOctets", or_default o.max_octets (64 * 1024 * 1024), 1)
    ∷ ("maxOutstanding", or_default o.max_outstanding 10, 1)
    ∷ ("maxReassembly", or_default o.max_reassembly 1000, 1)
    ∷ ("reassemblyTimeout", or_default o.reassembly_timeout 300000, 0)
    ∷ ("responseTimeout", or_default o.response_timeout 30000, 0)
    ∷ ("shutdownTimeout", or_default o.shutdown_timeout 5000, 0)
    ∷ []

abbrev pub is_low : Number → ℕ → Bool
is_low (whole n) least = ltb n least
is_low _ least = true

unfoldable check_limits : List Limit → Option OptionError
check_limits [] = none
check_limits ((name, value, least) ∷ limits) =
    if is_low value least then some (limit_low name value least) else check_limits limits

-- The second check runs where the first passes.
abbrev and_then : Option OptionError → Option OptionError → Option OptionError
and_then (some e) _ = some e
and_then none checked = checked

abbrev max_timer_delay : ℕ
max_timer_delay = 2147483647

check_connect_timeout : Value → Option OptionError
check_connect_timeout (scalar undefined) = none
check_connect_timeout (scalar (boolean false)) = none
check_connect_timeout (scalar (number (whole n))) =
    if ltb n 1
    then some (connect_timeout_wrong (scalar (number (whole n))))
    else if ltb max_timer_delay n
    then some (connect_timeout_long (scalar (number (whole n))))
    else none
check_connect_timeout v = some (connect_timeout_wrong v)

-- A missing entry reads as `undefined`.
abbrev pub entry : String → List (String × Scalar) → Scalar
entry key fields = elim (find key fields) [ none ↦ undefined | some v ↦ v ]

abbrev is_reconnect_key : String → Bool
is_reconnect_key k =
    string_eq.beq k "fromStart" || (string_eq.beq k "maxDelay" || string_eq.beq k "minDelay")

check_keys : List (String × Scalar) → Option OptionError
check_keys [] = none
check_keys ((k, _) ∷ fields) =
    if is_reconnect_key k then check_keys fields else some (reconnect_key k)

check_from_start : Scalar → Option OptionError
check_from_start undefined = none
check_from_start (boolean _) = none
check_from_start v = some (from_start_kind v)

-- What is not a number is `NaN`.
abbrev pub delay_or : Scalar → ℕ → Number
delay_or undefined fallback = whole fallback
delay_or (number n) _ = n
delay_or _ _ = not_integer

unfoldable check_order : Number → Number → Option OptionError
check_order (whole max_delay) (whole min_delay) =
    if ltb max_delay min_delay then some (delays_crossed min_delay max_delay) else none
check_order _ _ = none

abbrev pub max_delay_of : List (String × Scalar) → Number
max_delay_of fields = delay_or (entry "maxDelay" fields) 30000

abbrev pub min_delay_of : List (String × Scalar) → Number
min_delay_of fields = delay_or (entry "minDelay" fields) 1000

unfoldable check_delays : Number → Number → Option OptionError
unfolding check_limits check_order
check_delays max_delay min_delay =
    and_then (check_limits (("maxDelay", max_delay, 1) ∷ ("minDelay", min_delay, 1) ∷ []))
      (check_order max_delay min_delay)

unfoldable check_reconnect : Value → Option OptionError
unfolding check_keys check_from_start check_delays
check_reconnect (scalar undefined) = none
check_reconnect (scalar (boolean false)) = none
check_reconnect (scalar _) = some reconnect_shape
check_reconnect (object fields) = and_then (check_keys fields) (
    and_then (check_from_start (entry "fromStart" fields))
      (check_delays (max_delay_of fields) (min_delay_of fields)))

abbrev is_notation : Scalar → Bool
is_notation undefined = true
is_notation (text t) = string_eq.beq t "decimal" || string_eq.beq t "hex"
is_notation _ = false

check_places : List (String × Scalar) → Option OptionError
check_places [] = none
check_places ((place, n) ∷ fields) =
    if string_eq.beq place "receipt" || string_eq.beq place "submitResp"
    then (if is_notation n then check_places fields else some (sms_id_notation place n))
    else some (sms_id_place place)

check_sms_id_format : Value → Option OptionError
unfolding check_places
check_sms_id_format (scalar undefined) = none
check_sms_id_format (scalar _) = some sms_id_format_shape
check_sms_id_format (object fields) = check_places fields

abbrev check_from_start_place : Value → Option OptionError
check_from_start_place (scalar undefined) = none
check_from_start_place v = some (from_start_misplaced v)

unfoldable check_session_options : CheckableOptions → Option OptionError
unfolding check_connect_timeout check_limits check_reconnect check_sms_id_format
check_session_options o = and_then (check_from_start_place o.from_start) (
    and_then (check_connect_timeout o.connect_timeout) (
      and_then (check_limits (limits_of o))
        (and_then (check_reconnect o.reconnect) (check_sms_id_format o.sms_id_format))))
