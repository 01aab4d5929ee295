-- ===== src/Wire.antt =====
-- include/ipcrelay/common/wire_protocol.hpp and src/common/wire_protocol.cpp: the transport header
-- in front of every UDP datagram, its encoder and the parser that checks it.
pub mod Accept
pub mod RoundTrip
pub mod Fragments
use ipc_data_relay.Common.{
  ℕ, suc, ◌+◌, ◌-◌, ◌*◌, ◌/◌, ◌%◌, ◌^◌, ◌<◌, ◌≤◌, ◌≡◌, Bool, true, false, not, ◌&&◌, ◌||◌, [], ◌++◌,
  ltb, leb, ◌==◌, if◌then◌else◌, length, drop,
}
use Prim.Native.String.{String}
use ipc_data_relay.Byteorder.{
  Bytes, put_u16le, put_u32le, put_u64le, get_u16le, get_u32le, get_u64le,
}

abbrev pub k_magic : ℕ
k_magic = 0x42554D5A

abbrev pub k_version : ℕ
k_version = 1

abbrev pub k_header_size : ℕ
k_header_size = 44

abbrev pub k_flag_fragmented : ℕ
k_flag_fragmented = 0x0001

abbrev pub k_flag_multipart : ℕ
k_flag_multipart = 0x0002

abbrev pub k_max_message_length : ℕ
k_max_message_length = 0xFFFFFFFF

-- (flags & bit) != 0, for a bit that is a power of two
abbrev pub has_flag : ℕ → ℕ → Bool
has_flag flags bit = flags / bit % 2 == 1

-- flags | bit, for a bit that is a power of two
abbrev pub add_flag : ℕ → ℕ → ℕ
add_flag flags bit = if has_flag flags bit then flags else flags + bit

pub record Header : Type 0 where
  pub version : ℕ
  pub flags : ℕ
  pub source_id : ℕ
  pub message_length : ℕ
  pub sequence : ℕ
  pub timestamp_ns : ℕ
  pub fragment_offset : ℕ
  pub fragment_index : ℕ
  pub fragment_count : ℕ
  pub fragment_length : ℕ

-- The member initialisers.
abbrev pub default_header : Header
default_header = record {
  version = k_version;
  flags = 0;
  source_id = 0;
  message_length = 0;
  sequence = 0;
  timestamp_ns = 0;
  fragment_offset = 0;
  fragment_index = 0;
  fragment_count = 1;
  fragment_length = 0;
}

-- The writes cover the 44 bytes without a gap, in this order.
unfoldable pub encode_header : Header → Bytes
unfolding put_u16le put_u32le put_u64le
encode_header h =
    put_u32le k_magic
    ++ (put_u16le h.version
        ++ (put_u16le h.flags
            ++ (put_u32le h.source_id
                ++ (put_u32le h.message_length
                    ++ (put_u64le h.sequence
                        ++ (put_u64le h.timestamp_ns
                            ++ (put_u32le h.fragment_offset
                                ++ (put_u16le h.fragment_index
                                    ++ (put_u16le h.fragment_count
                                        ++ (put_u16le h.fragment_length ++ put_u16le 0))))))))))

-- `no_error` is ParseError::None.
pub data ParseError : Type 0 where
  no_error truncated bad_magic bad_version bad_fragment_count bad_fragment_index : ParseError
  length_mismatch range_error flag_mismatch : ParseError

unfoldable pub to_string : ParseError → String
to_string no_error = "ok"
to_string truncated = "truncated"
to_string bad_magic = "bad_magic"
to_string bad_version = "bad_version"
to_string bad_fragment_count = "bad_fragment_count"
to_string bad_fragment_index = "bad_fragment_index"
to_string length_mismatch = "length_mismatch"
to_string range_error = "range_error"
to_string flag_mismatch = "flag_mismatch"

-- The result and the two out parameters. A null payload is the empty list.
pub record Parsed : Type 0 where
  pub err : ParseError
  pub hdr : Header
  pub payload : Bytes

abbrev pub fail : ParseError → Header → Parsed
fail e h = record { err = e; hdr = h; payload = [] }

-- The assignments to the fields of the out parameter.
unfoldable pub read_fields : Bytes → Header
unfolding get_u16le get_u32le get_u64le
read_fields bytes = record {
  version = get_u16le bytes 4;
  flags = get_u16le bytes 6;
  source_id = get_u32le bytes 8;
  message_length = get_u32le bytes 12;
  sequence = get_u64le bytes 16;
  timestamp_ns = get_u64le bytes 24;
  fragment_offset = get_u32le bytes 32;
  fragment_index = get_u16le bytes 36;
  fragment_count = get_u16le bytes 38;
  fragment_length = get_u16le bytes 40;
}

-- The tests on the fields, for a datagram of `len` bytes. The sum for `end` is a uint64_t.
unfoldable pub check_fields : ℕ → Header → ParseError
check_fields len h =
    let end = h.fragment_offset + h.fragment_length in
    if h.fragment_count == 0
    then bad_fragment_count
    else if leb h.fragment_count h.fragment_index
    then bad_fragment_index
    else if not (len == k_header_size + h.fragment_length)
    then length_mismatch
    else if ltb h.message_length end
    then range_error
    else if h.fragment_count == 1
    then (if not (h.fragment_offset == 0) || not (h.fragment_length == h.message_length)
        then range_error
        else if has_flag h.flags k_flag_fragmented
        then flag_mismatch
        else no_error)
    else if not (has_flag h.flags k_flag_fragmented)
    then flag_mismatch
    else if h.fragment_index + 1 == h.fragment_count
    then (if not (end == h.message_length) then range_error else no_error)
    else if h.fragment_length == 0
    then range_error
    else no_error

abbrev pub finish : ParseError → Header → Bytes → Parsed
finish no_error h bytes = record { err = no_error; hdr = h; payload = drop k_header_size bytes }
finish e h bytes = fail e h

-- `h` is the header that the caller passes in.
unfoldable pub parse_datagram : Bytes → Header → Parsed
unfolding read_fields check_fields get_u16le get_u32le
parse_datagram bytes h =
    if ltb (length bytes) k_header_size
    then fail truncated h
    else if not (get_u32le bytes 0 == k_magic)
    then fail bad_magic h
    else if not (get_u16le bytes 4 == k_version)
    then fail bad_version (record h { version = get_u16le bytes 4 })
    else finish (check_fields (length bytes) (read_fields bytes)) (read_fields bytes) bytes

unfoldable pub fragment_count_for : ℕ → ℕ → ℕ
fragment_count_for message_length fragment_payload =
    if fragment_payload == 0
    then 0
    else if message_length == 0
    then 1
    else (message_length + fragment_payload - 1) / fragment_payload

-- Each field fits its width.
pub record IsHeader (h : Header) : Type 0 where
  pub version : h.version < 2 ^ 16
  pub flags : h.flags < 2 ^ 16
  pub source_id : h.source_id < 2 ^ 32
  pub message_length : h.message_length < 2 ^ 32
  pub sequence : h.sequence < 2 ^ 64
  pub timestamp_ns : h.timestamp_ns < 2 ^ 64
  pub fragment_offset : h.fragment_offset < 2 ^ 32
  pub fragment_index : h.fragment_index < 2 ^ 16
  pub fragment_count : h.fragment_count < 2 ^ 16
  pub fragment_length : h.fragment_length < 2 ^ 16

-- docs/wire_protocol.md: which headers may stand in front of a payload of `n` bytes.
pub record IsFragment (h : Header) (n : ℕ) : Type 0 where
  pub index : h.fragment_index < h.fragment_count
  pub size : h.fragment_length ≡ n
  pub range : h.fragment_offset + h.fragment_length ≤ h.message_length
  pub flag : has_flag h.flags k_flag_fragmented ≡ ltb 1 h.fragment_count
  pub single :
      h.fragment_count ≡ 1 → (h.fragment_offset ≡ 0) × (h.fragment_length ≡ h.message_length)
  pub last :
      1 < h.fragment_count
      → h.fragment_index + 1 ≡ h.fragment_count
      → h.fragment_offset + h.fragment_length ≡ h.message_length
  pub middle :
      1 < h.fragment_count → h.fragment_index + 1 < h.fragment_count → 0 < h.fragment_length
