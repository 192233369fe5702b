-- ===== src/Wire.antt =====
-- src/defs/types.ts: the values of parameters and the errors of reading and writing them. A Buffer
-- is the list of its octets, a text the list of its UTF-16 code units.
pub mod Ints
pub mod Texts
pub mod Arrays
pub mod Encodes
mod Tests
use smpp_js.Prelude.{
  ℕ, zero, suc, ◌+◌, Bool, true, false, Option, none, some, List, [], ◌∷◌, ◌++◌, map, length, take,
  drop, ltb, leb, ◌==◌, if◌then◌else◌,
}
use smpp_js.Prelude.Digits.{decimal}
use smpp_js.Prelude.Results.{Result, ok, err}

-- A JavaScript number by what the codec asks of it: the integers from 0 that `String` spells in
-- digits alone (below 10 ^ 21), and by their spelling the other integers (negative, or from
-- 10 ^ 21), the other finite numbers, and NaN and the infinities.
pub data JsNumber : Type 0 where
  whole : ℕ → JsNumber
  other_integer fraction non_finite : List ℕ → JsNumber

pub data DestAddress : Type 0 where
  dl_name : List ℕ → DestAddress
  -- `dest_addr_npi`, `dest_addr_ton`, `destination_addr`
  sme_address : JsNumber → JsNumber → List ℕ → DestAddress

pub record UnsuccessSme : Type 0 where
  pub dest_addr_npi : JsNumber
  pub dest_addr_ton : JsNumber
  pub destination_addr : List ℕ
  pub error_status_code : JsNumber

pub data ParamValue : Type 0 where
  bytes : List ℕ → ParamValue
  addresses : List DestAddress → ParamValue
  smes : List UnsuccessSme → ParamValue
  number : JsNumber → ParamValue
  text : List ℕ → ParamValue

-- The errors, each with what its message is computed from, but for a refused value's own spelling.
pub data WireError : Type 0 where
  -- octets needed, offset, octets there
  out_of_range_of : ℕ → ℕ → ℕ → WireError
  expected_an_integer expected_text expected_finite : WireError
  integer_past : ℕ → WireError
  -- the index of the first character refused
  past_latin1_at nul_at : ℕ → WireError
  starts_past : ℕ → ℕ → WireError
  unterminated : WireError
  too_long_for_length_octet : ℕ → WireError
  expected_addresses expected_smes : WireError
  integer_tlv_octets : ℕ → WireError

abbrev pub Fallible : Type 0 → Type 0
Fallible A = Result WireError A

-- The offset and the count are never negative here.
unfoldable pub out_of_range : List ℕ → ℕ → ℕ → Option WireError
out_of_range buf offset needed =
    if ltb (length buf) (offset + needed)
    then some (out_of_range_of needed offset (length buf))
    else none

-- Octets written into a buffer from an offset on; what does not fit is lost.
abbrev pub poke : ℕ → List ℕ → List ℕ → List ℕ
poke zero [] buf = buf
poke zero (x ∷ xs) [] = []
poke zero (x ∷ xs) (b ∷ bs) = x ∷ poke zero xs bs
poke (suc offset) xs [] = []
poke (suc offset) xs (b ∷ bs) = b ∷ poke offset xs bs

-- `typeof value === 'number' ? value : fallback`
unfoldable pub param_number : Option ParamValue → JsNumber → JsNumber
param_number (some (number n)) fallback = n
param_number _ fallback = fallback

unfoldable pub want_int : ParamValue → ℕ → Fallible ℕ
want_int (number (whole n)) max = if ltb max n then err (integer_past max) else ok n
want_int (number (other_integer _)) max = err (integer_past max)
want_int _ max = err expected_an_integer

-- `text.search(/[\u0100-\uFFFF]/)` and `text.indexOf('\u0000')`
abbrev pub index_of : (ℕ → Bool) → List ℕ → Option ℕ
index_of p [] = none
index_of p (c ∷ cs) =
    let rest = index_of p cs in
    if p c then some 0 else (elim rest [ none ↦ none | some i ↦ some (suc i) ])

abbrev pub is_wide : ℕ → Bool
is_wide c = leb 0x100 c

abbrev pub is_nul : ℕ → Bool
is_nul c = c == 0

unfoldable pub past_latin1 : List ℕ → Fallible (List ℕ)
past_latin1 t = elim (index_of is_wide t) [ none ↦ ok t | some i ↦ err (past_latin1_at i) ]

unfoldable pub want_text : ParamValue → Fallible (List ℕ)
unfolding past_latin1
want_text (text t) = past_latin1 t
want_text (number (whole n)) = past_latin1 (decimal n)
want_text (number (other_integer t)) = past_latin1 t
want_text (number (fraction t)) = past_latin1 t
want_text (number (non_finite _)) = err expected_finite
want_text _ = err expected_text

no_nul : List ℕ → Fallible (List ℕ)
no_nul t = elim (index_of is_nul t) [ none ↦ ok t | some i ↦ err (nul_at i) ]

unfoldable pub want_cstring_text : ParamValue → Fallible (List ℕ)
unfolding want_text no_nul
want_cstring_text value = elim (want_text value) [ err e ↦ err e | ok t ↦ no_nul t ]

unfoldable pub want_bytes : ParamValue → Fallible (List ℕ)
unfolding want_text
want_bytes (bytes b) = ok b
want_bytes value = want_text value

-- An `UnsuccessSme` has the fields that `isDestAddress` asks for; a `DestAddress` has no status.
unfoldable pub want_dest_addresses : ParamValue → Fallible (List DestAddress)
want_dest_addresses (addresses a) = ok a
want_dest_addresses (smes s) =
    ok (map (λ x. sme_address x.dest_addr_npi x.dest_addr_ton x.destination_addr) s)
want_dest_addresses _ = err expected_addresses

unfoldable pub want_unsuccess_smes : ParamValue → Fallible (List UnsuccessSme)
want_unsuccess_smes (smes s) = ok s
want_unsuccess_smes (addresses []) = ok []
want_unsuccess_smes _ = err expected_smes

-- One field on the wire: how many octets it read, what writing it takes, and the buffer written.
pub record WireType : Type 0 where
  pub default : ParamValue
  pub read : List ℕ → ℕ → Option ℕ → Fallible (ℕ × ParamValue)
  pub size : ParamValue → Fallible ℕ
  pub write : ParamValue → List ℕ → ℕ → Fallible (List ℕ)
