-- ===== src/Capture.antt =====
-- tools/receiver/include/ipcrelay/capture_format.hpp and tools/receiver/lib/capture_format.cpp: the
-- headers of the capture file and of its records.
pub mod Format
pub mod Writer
pub mod Reader
pub mod File
pub mod Session
use ipc_data_relay.Common.{
  ℕ, ◌+◌, ◌^◌, ◌<◌, ◌≤◌, ◌≡◌, Bool, true, false, not, ◌&&◌, Option, none, some, ◌++◌, ltb, leb,
  ◌==◌, if◌then◌else◌, length, replicate,
}
use ipc_data_relay.Byteorder.{
  Bytes, put_u16le, put_u32le, put_u64le, get_u16le, get_u32le, get_u64le,
}

abbrev pub k_file_magic : ℕ
k_file_magic = 0x50434D5A

abbrev pub k_record_magic : ℕ
k_record_magic = 0x52434D5A

abbrev pub k_format_version : ℕ
k_format_version = 1

abbrev pub k_file_header_size : ℕ
k_file_header_size = 32

abbrev pub k_record_header_size : ℕ
k_record_header_size = 32

pub record FileHeader : Type 0 where
  pub version : ℕ
  pub header_length : ℕ
  pub created_ns : ℕ
  pub wire_version : ℕ

abbrev pub default_file_header : FileHeader
default_file_header = record {
  version = k_format_version;
  header_length = k_file_header_size;
  created_ns = 0;
  wire_version = 0;
}

pub record RecordHeader : Type 0 where
  pub source_id : ℕ
  pub sequence : ℕ
  pub timestamp_ns : ℕ
  pub payload_length : ℕ
  pub flags : ℕ

abbrev pub default_record_header : RecordHeader
default_record_header = record {
  source_id = 0;
  sequence = 0;
  timestamp_ns = 0;
  payload_length = 0;
  flags = 0;
}

-- The memset leaves the last 14 bytes zero.
unfoldable pub encode_file_header : FileHeader → Bytes
unfolding put_u16le put_u32le put_u64le
encode_file_header h =
    put_u32le k_file_magic
    ++ (put_u16le h.version
        ++ (put_u16le h.header_length
            ++ (put_u64le h.created_ns ++ (put_u16le h.wire_version ++ replicate 14 0))))

unfoldable pub encode_record_header : RecordHeader → Bytes
unfolding put_u16le put_u32le put_u64le
encode_record_header h =
    put_u32le k_record_magic
    ++ (put_u32le h.source_id
        ++ (put_u64le h.sequence
            ++ (put_u64le h.timestamp_ns
                ++ (put_u32le h.payload_length ++ (put_u16le h.flags ++ put_u16le 0)))))

unfoldable pub read_file_fields : Bytes → FileHeader
unfolding get_u16le get_u64le
read_file_fields bytes = record {
  version = get_u16le bytes 4;
  header_length = get_u16le bytes 6;
  created_ns = get_u64le bytes 8;
  wire_version = get_u16le bytes 16;
}

-- The result, and the out parameter after the call.
unfoldable pub decode_file_header : Bytes → FileHeader → Bool × FileHeader
unfolding read_file_fields get_u32le
decode_file_header bytes h =
    let h' = read_file_fields bytes in
    if ltb (length bytes) k_file_header_size
    then (false, h)
    else if not (get_u32le bytes 0 == k_file_magic)
    then (false, h)
    else (h'.version == k_format_version && leb k_file_header_size h'.header_length, h')

unfoldable pub read_record_fields : Bytes → RecordHeader
unfolding get_u16le get_u32le get_u64le
read_record_fields bytes = record {
  source_id = get_u32le bytes 4;
  sequence = get_u64le bytes 8;
  timestamp_ns = get_u64le bytes 16;
  payload_length = get_u32le bytes 24;
  flags = get_u16le bytes 28;
}

unfoldable pub decode_record_header : Bytes → RecordHeader → Bool × RecordHeader
unfolding read_record_fields get_u32le
decode_record_header bytes h =
    if ltb (length bytes) k_record_header_size
    then (false, h)
    else if not (get_u32le bytes 0 == k_record_magic)
    then (false, h)
    else (true, read_record_fields bytes)

-- Each field fits its width.
pub record IsRecordHeader (h : RecordHeader) : Type 0 where
  pub source_id : h.source_id < 2 ^ 32
  pub sequence : h.sequence < 2 ^ 64
  pub timestamp_ns : h.timestamp_ns < 2 ^ 64
  pub payload_length : h.payload_length < 2 ^ 32
  pub flags : h.flags < 2 ^ 16

-- A file header that a reader of this version accepts.
pub record IsFileHeader (h : FileHeader) : Type 0 where
  pub version : h.version ≡ k_format_version
  pub header_length : k_file_header_size ≤ h.header_length
  pub header_fits : h.header_length < 2 ^ 16
  pub created_ns : h.created_ns < 2 ^ 64
  pub wire_version : h.wire_version < 2 ^ 16
