-- ===== src/Capture/Reader.antt =====
-- tools/receiver/include/ipcrelay/capture_reader.hpp and tools/receiver/lib/capture_reader.cpp: the
-- sequential reader of a capture file. The ifstream is the list of the bytes that are left.
use Prim.Native.String.{String}
use ipc_data_relay.Common.{
  ℕ, zero, suc, ◌-◌, Bool, true, false, not, ◌&&◌, Option, none, some, List, [], ◌∷◌, ◌++◌, ltb,
  ◌==◌, if◌then◌else◌, length, take, drop, replicate,
}
use ipc_data_relay.Byteorder.{Bytes}
use ipc_data_relay.Capture.{
  FileHeader, RecordHeader, decode_file_header, decode_record_header, k_file_header_size,
  k_record_header_size, default_file_header,
}

-- The texts of error_; `open_failed` has the text of errno.
pub data ReadError : Type 0 where
  open_failed : String → ReadError
  short_file_header bad_file_magic cannot_skip : ReadError
  truncated_record_header bad_record_magic truncated_record_payload : ReadError

pub record CaptureReader : Type 0 where
  pub file : Option Bytes
  pub file_header : FileHeader
  pub error : Option ReadError

abbrev pub new_reader : CaptureReader
new_reader = record { file = none; file_header = default_file_header; error = none }

-- What opening a file gives: its bytes, or the text of errno.
pub data Opened : Type 0 where
  contents : Bytes → Opened
  no_file : String → Opened

-- `open` behind the test of the header: an extended header is skipped, if seekg succeeds.
unfoldable pub skip_header : FileHeader → Bytes → Bool → CaptureReader × Bool
skip_header h rest seek_ok =
    if ltb k_file_header_size h.header_length
    then (if seek_ok
        then (
          record {
            file = some (drop (h.header_length - k_file_header_size) rest);
            file_header = h;
            error = none;
          },
          true,
        )
        else (record { file = some rest; file_header = h; error = some cannot_skip }, false))
    else (record { file = some rest; file_header = h; error = none }, true)

unfoldable pub check_header : Bool × FileHeader → Bytes → Bool → CaptureReader × Bool
unfolding skip_header
check_header (false, h) rest seek_ok =
    (record { file = some rest; file_header = h; error = some bad_file_magic }, false)
check_header (true, h) rest seek_ok = skip_header h rest seek_ok

-- On a new reader.
unfoldable pub open_file : Opened → Bool → CaptureReader × Bool
unfolding check_header
open_file (no_file e) seek_ok = (record new_reader { error = some (open_failed e) }, false)
open_file (contents b) seek_ok =
    let raw = take k_file_header_size b in
    let rest = drop k_file_header_size b in
    if not (length raw == k_file_header_size)
    then (record new_reader { file = some rest; error = some short_file_header }, false)
    else check_header (decode_file_header raw default_file_header) rest seek_ok

-- What `next` returns: the reader, the result and the two out parameters.
pub record Next : Type 0 where
  pub state : CaptureReader
  pub found : Bool
  pub hdr : RecordHeader
  pub payload : Bytes

-- `next` behind the record's header. The buffer is resized first, so a short read leaves zeros.
unfoldable pub read_payload : CaptureReader → RecordHeader → Bytes → Next
read_payload r h rest =
    let n = h.payload_length in
    let got = take n rest in
    if ltb 0 n && not (length got == n)
    then record {
      state = record r { file = some (drop n rest); error = some truncated_record_payload };
      found = false;
      hdr = h;
      payload = got ++ replicate (n - length got) 0;
    }
    else record {
      state = record r { file = some (drop n rest) };
      found = true;
      hdr = h;
      payload = got;
    }

unfoldable pub check_record : CaptureReader → Bool × RecordHeader → Bytes → Bytes → Next
unfolding read_payload
check_record r (false, h) rest payload = record {
  state = record r { file = some rest; error = some bad_record_magic };
  found = false;
  hdr = h;
  payload = payload;
}
check_record r (true, h) rest payload = read_payload r h rest

-- `next` on an open file with no error so far.
unfoldable pub read_record : CaptureReader → Bytes → RecordHeader → Bytes → Next
unfolding check_record
read_record r b hdr payload =
    let raw = take k_record_header_size b in
    let rest = drop k_record_header_size b in
    if length raw == 0
    then record {
      state = record r { file = some rest };
      found = false;
      hdr = hdr;
      payload = payload;
    }
    else if not (length raw == k_record_header_size)
    then record {
      state = record r { file = some rest; error = some truncated_record_header };
      found = false;
      hdr = hdr;
      payload = payload;
    }
    else check_record r (decode_record_header raw hdr) rest payload

unfoldable pub next_from :
    Option Bytes → Option ReadError → CaptureReader → RecordHeader → Bytes → Next
unfolding read_record
next_from none e r hdr payload = record { state = r; found = false; hdr = hdr; payload = payload }
next_from (some b) (some e) r hdr payload = record {
  state = r;
  found = false;
  hdr = hdr;
  payload = payload;
}
next_from (some b) none r hdr payload = read_record r b hdr payload

unfoldable pub next : CaptureReader → RecordHeader → Bytes → Next
unfolding next_from
next r hdr payload = next_from r.file r.error r hdr payload

-- while (reader.next(hdr, payload)) …: the records, and the reader at the end. With more fuel than
-- the file has bytes the loop ends by itself (File).
unfoldable pub read_all :
    ℕ → CaptureReader → RecordHeader → Bytes → List (RecordHeader × Bytes) × CaptureReader
unfolding next
read_all zero r hdr payload = ([], r)
read_all (suc fuel) r hdr payload =
    let x = next r hdr payload in
    let rest = read_all fuel x.state x.hdr x.payload in
    if x.found then ((x.hdr, x.payload) ∷ rest.0, rest.1) else ([], x.state)
