-- ===== src/Capture/Writer.antt =====
-- tools/receiver/include/ipcrelay/capture_writer.hpp and tools/receiver/lib/capture_writer.cpp: the
-- writer of the capture file. The C library is not code of the repository: the result of each call
-- of it is an argument of the method that makes it. An open FILE is the list of the bytes that
-- fwrite took; buffering, setvbuf and the disk behind it are not seen here.
use Prim.Native.String.{String}
use ipc_data_relay.Common.{
  ℕ, ◌+◌, ◌%◌, ◌^◌, Bool, true, false, Option, none, some, [], ◌++◌, ltb, if◌then◌else◌, length,
  take,
}
use ipc_data_relay.Byteorder.{Bytes}
use ipc_data_relay.Capture.{
  FileHeader, RecordHeader, encode_file_header, encode_record_header, k_file_header_size,
  k_record_header_size, default_file_header,
}

-- The text of last_error_, by the call that it names; the text of errno is part of it.
pub data Failure : Type 0 where
  already_open : Failure
  open_failed write_header write_record_header write_record_payload : String → Failure
  flush_failed fsync_failed flush_on_close fsync_on_close close_failed : String → Failure

-- fwrite takes all bytes, or fewer and sets errno; another call succeeds, or sets errno.
pub data WriteResult : Type 0 where
  wrote : WriteResult
  short : ℕ → String → WriteResult

pub data CallResult : Type 0 where
  done : CallResult
  failed_with : String → CallResult

-- fsync also fails with EINVAL or EROFS, which `close` ignores.
pub data SyncResult : Type 0 where
  synced not_supported : SyncResult
  sync_failed : String → SyncResult

pub record CaptureWriter : Type 0 where
  pub file : Option Bytes
  pub path : String
  pub last_error : Option Failure
  pub failed : Bool
  pub records : ℕ
  pub bytes : ℕ

abbrev pub new_writer : CaptureWriter
new_writer = record {
  file = none;
  path = "";
  last_error = none;
  failed = false;
  records = 0;
  bytes = 0;
}

abbrev pub is_open : CaptureWriter → Bool
is_open w = elim w.file [ none ↦ false | some f ↦ true ]

abbrev pub fail : CaptureWriter → Failure → CaptureWriter
fail w e = record w { failed = true; last_error = some e }

-- `open` once the file is there: the header is written, or the file closed again.
unfoldable pub write_file_header : CaptureWriter → ℕ → ℕ → WriteResult → CaptureWriter × Bool
write_file_header w created_ns wire_version (short k e) =
    (record w { failed = true; last_error = some (write_header e); file = none }, false)
write_file_header w created_ns wire_version wrote =
    let h : FileHeader = record default_file_header {
      created_ns = created_ns;
      wire_version = wire_version;
    } in
    (record w { file = some (encode_file_header h); bytes = w.bytes + k_file_header_size }, true)

unfoldable pub start_file :
    CaptureWriter → String → ℕ → ℕ → CallResult → WriteResult → CaptureWriter × Bool
unfolding write_file_header
start_file w path created_ns wire_version (failed_with e) r = (
  record {
    file = none;
    path = path;
    last_error = some (open_failed e);
    failed = true;
    records = 0;
    bytes = 0;
  },
  false,
)
start_file w path created_ns wire_version done r =
    write_file_header
      (record {
        file = some [];
        path = path;
        last_error = none;
        failed = false;
        records = 0;
        bytes = 0;
      })
      created_ns wire_version r

-- The results are those of fopen and fwrite, `created_ns` is what the clock shows.
unfoldable pub open_file :
    CaptureWriter → String → ℕ → ℕ → CallResult → WriteResult → CaptureWriter × Bool
unfolding start_file
open_file w path created_ns wire_version opened r =
    if is_open w
    then (fail w already_open, false)
    else start_file w path created_ns wire_version opened r

-- fwrite on the open file: the file after it.
abbrev pub fwrite : Bytes → Bytes → WriteResult → Bytes
fwrite f b wrote = f ++ b
fwrite f b (short k e) = f ++ take k b

-- write_record behind its guard: the header, then the payload unless it is empty.
unfoldable pub append_record :
    CaptureWriter → Bytes → RecordHeader → Bytes → WriteResult → WriteResult → CaptureWriter × Bool
append_record w f h payload (short k e) r2 = (
  record w {
    file = some (fwrite f (encode_record_header h) (short k e));
    failed = true;
    last_error = some (write_record_header e);
  },
  false,
)
append_record w f h payload wrote (short k e) =
    if ltb 0 (length payload)
    then (
      record w {
        file = some (fwrite (f ++ encode_record_header h) payload (short k e));
        failed = true;
        last_error = some (write_record_payload e);
      },
      false,
    )
    else (
      record w {
        file = some (f ++ encode_record_header h);
        records = (w.records + 1) % 2 ^ 64;
        bytes = (w.bytes + (k_record_header_size + length payload)) % 2 ^ 64;
      },
      true,
    )
append_record w f h payload wrote wrote = (
  record w {
    file = some (f ++ encode_record_header h ++ payload);
    records = (w.records + 1) % 2 ^ 64;
    bytes = (w.bytes + (k_record_header_size + length payload)) % 2 ^ 64;
  },
  true,
)

-- The header with the length of the payload put in.
abbrev pub with_length : RecordHeader → Bytes → RecordHeader
with_length hdr payload = record hdr { payload_length = length payload % 2 ^ 32 }

unfoldable pub write_record :
    CaptureWriter → RecordHeader → Bytes → WriteResult → WriteResult → CaptureWriter × Bool
unfolding append_record
write_record w hdr payload r1 r2 = elim w.file [
  | none ↦ (w, false)
  | some f ↦
      if w.failed then (w, false) else append_record w f (with_length hdr payload) payload r1 r2
]

-- fsync is called only if `sync` is set.
unfoldable pub flush : CaptureWriter → Bool → CallResult → CallResult → CaptureWriter × Bool
flush w sync flushed synced_result = elim w.file [
  | none ↦ (w, false)
  | some f ↦ elim flushed [
    | failed_with e ↦ (fail w (flush_failed e), false)
    | done ↦ elim synced_result [
      | failed_with e ↦ if sync then (fail w (fsync_failed e), false) else (w, true)
      | done ↦ (w, true)
    ]
  ]
]

-- One step of `close`: a failure is noted, and the steps go on.
abbrev pub close_step :
    CaptureWriter × Bool → (String → Failure) → CallResult → CaptureWriter × Bool
close_step (w, ok) what done = (w, ok)
close_step (w, ok) what (failed_with e) = (fail w (what e), false)

abbrev pub sync_step : SyncResult → CallResult
sync_step synced = done
sync_step not_supported = done
sync_step (sync_failed e) = failed_with e

unfoldable pub close : CaptureWriter → CallResult → SyncResult → CallResult → CaptureWriter × Bool
close w flushed synced_result closed = elim w.file [
  | none ↦ (w, true)
  | some f ↦
      let (w1, ok1) = close_step (w, true) flush_on_close flushed in
      let (w2, ok2) = close_step (w1, ok1) fsync_on_close (sync_step synced_result) in
      let (w3, ok3) = close_step (w2, ok2) close_failed closed in (record w3 { file = none }, ok3)
]
