-- ===== src/Tests/CaptureTests.antt =====
-- The capture file (tools/receiver/lib/capture_*.cpp) on concrete records.
use ipc_data_relay.Common.{◌≡◌, ◌+◌, refl, true, [], ◌∷◌, ◌++◌, some, arith, take}
use ipc_data_relay.Byteorder.{Bytes}
use ipc_data_relay.Capture.{
  RecordHeader, IsFileHeader, IsRecordHeader, default_file_header, default_record_header,
  encode_file_header,
}
use ipc_data_relay.Capture.File.{file_bytes, whole}
use ipc_data_relay.Capture.Reader
use ipc_data_relay.Capture.Reader.{contents, read_all}
use ipc_data_relay.Capture.Session.{
  Records, recording, recording_header, stored, recording_survives, recording-file,
}
use ipc_data_relay.Tests.Data.{three_bytes}

abbrev record_five : RecordHeader
record_five = record {
  source_id = 7;
  sequence = 5;
  timestamp_ns = 100;
  payload_length = 3;
  flags = 1;
}

abbrev one_record : Records
one_record = (record_five, three_bytes) ∷ []

record_five-IsRecordHeader : IsRecordHeader record_five
record_five-IsRecordHeader = record {
  source_id = omega arith;
  sequence = omega arith;
  timestamp_ns = omega arith;
  payload_length = omega arith;
  flags = omega arith;
}

default_file_header-IsFileHeader : IsFileHeader default_file_header
default_file_header-IsFileHeader = record {
  version = refl;
  header_length = omega arith;
  header_fits = omega arith;
  created_ns = omega arith;
  wire_version = omega arith;
}

abbrev one_file : Bytes
one_file = encode_file_header (recording_header 1 1) ++ file_bytes (stored one_record)

one_file-recording : (recording "capture.bin" 1 1 one_record).file ≡ some one_file
one_file-recording = recording-file "capture.bin" 1 1 one_record

recording_survives_example :
    ((Reader.open_file (contents (take (32 + 40) one_file)) true).1 ≡ true)
    × ((read_all 5
          (Reader.open_file (contents (take (32 + 40) one_file)) true).0
          default_record_header
          []).0
        ≡ take (whole 40 (stored one_record)) (stored one_record))
recording_survives_example =
    recording_survives "capture.bin" 1 1 one_record 40 one_file one_file-recording 5
      default_record_header [] (omega arith) (omega arith)
      (record_five-IsRecordHeader, omega arith, tt) (omega arith)
