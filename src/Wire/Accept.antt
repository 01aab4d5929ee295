-- ===== src/Wire/Accept.antt =====
-- Which datagrams `parse_datagram` accepts (wire_protocol.cpp), against docs/wire_protocol.md.
use ipc_data_relay.Common.{ℕ, ◌+◌, ◌-◌, ◌≤◌, ◌≡◌, ◌↔◌, arith, length, drop}
use ipc_data_relay.Byteorder.{Bytes, get_u16le, get_u32le}
use ipc_data_relay.Wire.{
  Header, no_error, IsFragment, parse_datagram, check_fields, read_fields, k_magic, k_version,
  k_header_size,
}

check_fields-IsFragment :
    (len n : ℕ) (h : Header) → len ≡ 44 + n → check_fields len h ≡ no_error → IsFragment h n
unfolding check_fields
check_fields-IsFragment len n h e ok = record {
  index = ground arith;
  size = ground arith;
  range = ground arith;
  flag = ground arith;
  single = λ p. ground arith;
  last = λ p q. ground arith;
  middle = λ p q. ground arith;
}

pub IsFragment-check_fields :
    (len n : ℕ) (h : Header) → len ≡ 44 + n → IsFragment h n → check_fields len h ≡ no_error
unfolding check_fields
IsFragment-check_fields len n h e f = ground (arith, f.single, f.last, f.middle)

-- What docs/wire_protocol.md asks of a datagram: room for the header, magic and version, and a
-- header that fits the bytes behind it.
pub record Accepts (bytes : Bytes) : Type 0 where
  pub size : k_header_size ≤ length bytes
  pub magic : get_u32le bytes 0 ≡ k_magic
  pub version : get_u16le bytes 4 ≡ k_version
  pub fragment : IsFragment (read_fields bytes) (length bytes - k_header_size)

-- The parser's result on what it accepts.
abbrev pub Yields : Bytes → Header → Type 0
Yields bytes h =
    ((parse_datagram bytes h).err ≡ no_error)
    × ((parse_datagram bytes h).hdr ≡ read_fields bytes)
    × ((parse_datagram bytes h).payload ≡ drop k_header_size bytes)

parse_datagram-Accepts :
    (bytes : Bytes) (h : Header) → (parse_datagram bytes h).err ≡ no_error → Accepts bytes
unfolding parse_datagram
parse_datagram-Accepts bytes h ok = record {
  size = ground arith;
  magic = ground arith;
  version = ground arith;
  fragment =
      check_fields-IsFragment (length bytes) (length bytes - 44) (read_fields bytes) (ground arith)
        (ground arith);
}

-- Of a datagram of the documented form the parser hands out the fields and the bytes behind the
-- header.
pub Accepts-parse_datagram : (bytes : Bytes) (h : Header) → Accepts bytes → Yields bytes h
unfolding parse_datagram
Accepts-parse_datagram bytes h a = ground (
  arith,
  IsFragment-check_fields (length bytes) (length bytes - 44) (read_fields bytes) (omega arith)
      a.fragment,
)

-- The parser accepts exactly the datagrams of the documented form.
pub parse_datagram_iff :
    (bytes : Bytes) (h : Header) → (((parse_datagram bytes h).err ≡ no_error) ↔ Accepts bytes)
parse_datagram_iff bytes h =
    (parse_datagram-Accepts bytes h, λ a. (Accepts-parse_datagram bytes h a).0)
