-- ===== src/Wire/Arrays.antt =====
-- The address arrays of src/defs/types.ts. Each read of an entry gives it with the offset behind it.
use smpp_js.Prelude.{
  ℕ, zero, suc, ◌+◌, ◌-◌, none, some, List, [], ◌∷◌, length, drop, ◌==◌, if◌then◌else◌,
}
use smpp_js.Prelude.Results.{ok, err, ◌>>=◌}
use smpp_js.Wire.{
  JsNumber, whole, DestAddress, dl_name, sme_address, UnsuccessSme, ParamValue, number, text,
  addresses, smes, Fallible, out_of_range, poke, want_int, want_dest_addresses, want_unsuccess_smes,
  WireType,
}
use smpp_js.Wire.Ints.{four, one, read_be, write_be}
use smpp_js.Wire.Texts.{read_cstring, cstring_size, cstring_write}

-- An early `return { err }` where the octets do not reach.
unfoldable pub need : List ℕ → ℕ → ℕ → Fallible (Unit {0})
unfolding out_of_range
need buf offset count = elim (out_of_range buf offset count) [ some e ↦ err e | none ↦ ok tt ]

infixl 5 ◌>>◌
abbrev ◌>>◌ : {B : Type 0} → Fallible (Unit {0}) → Fallible B → Fallible B
m >> k = m >>= λ _. k

-- `readUInt8` of an octet that is there.
unfoldable pub octet_at : List ℕ → ℕ → ℕ
unfolding read_be
octet_at buf offset = read_be one (drop offset buf)

unfoldable pub read_dest_address : List ℕ → ℕ → Fallible (ℕ × DestAddress)
unfolding need octet_at read_cstring
read_dest_address buf offset = do
  need buf offset 1
  let flagged = do
    need buf (offset + 1) 2
    address ← read_cstring buf (offset + 3)
    ok (
      offset + 3 + address.0,
      sme_address (whole (octet_at buf (offset + 2))) (whole (octet_at buf (offset + 1))) address.1,
    )
  let named = do name ← read_cstring buf (offset + 1); ok (offset + 1 + name.0, dl_name name.1)
  if octet_at buf offset == 1 then flagged else named

-- The loop of the array, by the entries that remain.
unfoldable pub read_dest_addresses : ℕ → List ℕ → ℕ → Fallible (ℕ × List DestAddress)
read_dest_addresses zero buf offset = ok (offset, [])
read_dest_addresses (suc remaining) buf offset = do
  entry ← read_dest_address buf offset
  rest ← read_dest_addresses remaining buf entry.0
  ok (rest.0, entry.1 ∷ rest.1)

unfoldable pub dest_addresses_read : List ℕ → ℕ → Fallible (ℕ × ParamValue)
unfolding need octet_at read_dest_addresses read_dest_address
dest_addresses_read buf offset = do
  need buf offset 1
  r ← read_dest_addresses (octet_at buf offset) buf (offset + 1)
  ok (r.0 - offset, addresses r.1)

unfoldable pub dest_address_size : DestAddress → Fallible ℕ
unfolding cstring_size
dest_address_size (dl_name name) = do n ← cstring_size (text name); ok (1 + n)
dest_address_size (sme_address npi ton addr) = do n ← cstring_size (text addr); ok (3 + n)

-- `sizeDestAddresses`, from the size so far.
unfoldable pub size_dest_addresses : ℕ → List DestAddress → Fallible ℕ
size_dest_addresses size [] = ok size
size_dest_addresses size (d ∷ ds) = do n ← dest_address_size d; size_dest_addresses (size + n) ds

unfoldable pub write_int8 : JsNumber → List ℕ → ℕ → Fallible (List ℕ)
unfolding want_int write_be
write_int8 n buf offset = do int ← want_int (number n) 0xFF; ok (poke offset (write_be one int) buf)

unfoldable pub write_int32 : JsNumber → List ℕ → ℕ → Fallible (List ℕ)
unfolding want_int write_be
write_int32 n buf offset = do
  int ← want_int (number n) 0xFFFF_FFFF
  ok (poke offset (write_be four int) buf)

-- `writeSizedCstring`: the size of the text and the buffer with it.
unfoldable pub write_sized_cstring : List ℕ → List ℕ → ℕ → Fallible (ℕ × List ℕ)
unfolding cstring_size cstring_write
write_sized_cstring t buf offset = do
  size ← cstring_size (text t)
  written ← cstring_write (text t) buf offset
  ok (size, written)

unfoldable pub write_dest_address : DestAddress → List ℕ → ℕ → Fallible (ℕ × List ℕ)
unfolding write_int8 write_sized_cstring
write_dest_address (dl_name name) buf offset = do
  r ← write_sized_cstring name (poke offset (2 ∷ []) buf) (offset + 1)
  ok (1 + r.0, r.1)
write_dest_address (sme_address npi ton addr) buf offset = do
  with_ton ← write_int8 ton (poke offset (1 ∷ []) buf) (offset + 1)
  with_npi ← write_int8 npi with_ton (offset + 2)
  r ← write_sized_cstring addr with_npi (offset + 3)
  ok (3 + r.0, r.1)

unfoldable pub write_dest_addresses : List DestAddress → List ℕ → ℕ → Fallible (List ℕ)
write_dest_addresses [] buf offset = ok buf
write_dest_addresses (d ∷ ds) buf offset = do
  r ← write_dest_address d buf offset
  write_dest_addresses ds r.1 (offset + r.0)

unfoldable pub dest_addresses_size : ParamValue → Fallible ℕ
unfolding want_dest_addresses size_dest_addresses dest_address_size
dest_addresses_size value = do ds ← want_dest_addresses value; size_dest_addresses 1 ds

unfoldable pub dest_addresses_write : ParamValue → List ℕ → ℕ → Fallible (List ℕ)
unfolding want_dest_addresses size_dest_addresses dest_address_size need write_int8
dest_addresses_write value buf offset = do
  ds ← want_dest_addresses value
  total ← size_dest_addresses 1 ds
  need buf offset total
  counted ← write_int8 (whole (length ds)) buf offset
  write_dest_addresses ds counted (offset + 1)

unfoldable pub dest_address_array : WireType
dest_address_array = record {
  default = addresses [];
  read = λ buf offset _. dest_addresses_read buf offset;
  size = dest_addresses_size;
  write = dest_addresses_write;
}

unfoldable pub read_unsuccess_sme : List ℕ → ℕ → Fallible (ℕ × UnsuccessSme)
unfolding need octet_at read_cstring read_be
read_unsuccess_sme buf offset = do
  need buf offset 2
  address ← read_cstring buf (offset + 2)
  need buf (offset + 2 + address.0) 4
  ok (
    offset + 2 + address.0 + 4,
    record {
      dest_addr_npi = whole (octet_at buf (offset + 1));
      dest_addr_ton = whole (octet_at buf offset);
      destination_addr = address.1;
      error_status_code = whole (read_be four (drop (offset + 2 + address.0) buf));
    },
  )

unfoldable pub read_unsuccess_smes : ℕ → List ℕ → ℕ → Fallible (ℕ × List UnsuccessSme)
read_unsuccess_smes zero buf offset = ok (offset, [])
read_unsuccess_smes (suc remaining) buf offset = do
  entry ← read_unsuccess_sme buf offset
  rest ← read_unsuccess_smes remaining buf entry.0
  ok (rest.0, entry.1 ∷ rest.1)

unfoldable pub unsuccess_smes_read : List ℕ → ℕ → Fallible (ℕ × ParamValue)
unfolding need octet_at read_unsuccess_smes read_unsuccess_sme
unsuccess_smes_read buf offset = do
  need buf offset 1
  r ← read_unsuccess_smes (octet_at buf offset) buf (offset + 1)
  ok (r.0 - offset, smes r.1)

unfoldable pub size_unsuccess_smes : ℕ → List UnsuccessSme → Fallible ℕ
unfolding cstring_size
size_unsuccess_smes size [] = ok size
size_unsuccess_smes size (s ∷ ss) = do
  n ← cstring_size (text s.destination_addr)
  size_unsuccess_smes (size + (n + 6)) ss

unfoldable pub write_unsuccess_smes : List UnsuccessSme → List ℕ → ℕ → Fallible (List ℕ)
unfolding write_int8 write_sized_cstring write_int32
write_unsuccess_smes [] buf offset = ok buf
write_unsuccess_smes (s ∷ ss) buf offset = do
  with_ton ← write_int8 s.dest_addr_ton buf offset
  with_npi ← write_int8 s.dest_addr_npi with_ton (offset + 1)
  addr ← write_sized_cstring s.destination_addr with_npi (offset + 2)
  with_status ← write_int32 s.error_status_code addr.1 (offset + 2 + addr.0)
  write_unsuccess_smes ss with_status (offset + 2 + addr.0 + 4)

unfoldable pub unsuccess_smes_size : ParamValue → Fallible ℕ
unfolding want_unsuccess_smes size_unsuccess_smes
unsuccess_smes_size value = do ss ← want_unsuccess_smes value; size_unsuccess_smes 1 ss

unfoldable pub unsuccess_smes_write : ParamValue → List ℕ → ℕ → Fallible (List ℕ)
unfolding want_unsuccess_smes size_unsuccess_smes need write_int8 write_unsuccess_smes
unsuccess_smes_write value buf offset = do
  ss ← want_unsuccess_smes value
  total ← size_unsuccess_smes 1 ss
  need buf offset total
  counted ← write_int8 (whole (length ss)) buf offset
  write_unsuccess_smes ss counted (offset + 1)

unfoldable pub unsuccess_sme_array : WireType
unsuccess_sme_array = record {
  default = smes [];
  read = λ buf offset _. unsuccess_smes_read buf offset;
  size = unsuccess_smes_size;
  write = unsuccess_smes_write;
}
