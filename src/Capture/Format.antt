-- ===== src/Capture/Format.antt =====
-- Decoding what the encoders of the capture format wrote (capture_format.cpp).
use ipc_data_relay.Common.{◌≡◌, refl, ap, ◌∙◌, true, ◌&&◌, arith, length, leb, ◌==◌}
use ipc_data_relay.Capture.{
  FileHeader, RecordHeader, IsFileHeader, IsRecordHeader, encode_file_header, encode_record_header,
  decode_file_header, decode_record_header, read_file_fields, read_record_fields, k_format_version,
  k_file_header_size,
}

pub length-encode_record_header : (h : RecordHeader) → length (encode_record_header h) ≡ 32
unfolding encode_record_header
length-encode_record_header h = refl

pub length-encode_file_header : (h : FileHeader) → length (encode_file_header h) ≡ 32
unfolding encode_file_header
length-encode_file_header h = refl

RecordHeader_ext :
    (a b : RecordHeader)
    → a.source_id ≡ b.source_id
    → a.sequence ≡ b.sequence
    → a.timestamp_ns ≡ b.timestamp_ns
    → a.payload_length ≡ b.payload_length
    → a.flags ≡ b.flags
    → a ≡ b
RecordHeader_ext a b e0 e1 e2 e3 e4 = λ i. record {
  source_id = e0 i;
  sequence = e1 i;
  timestamp_ns = e2 i;
  payload_length = e3 i;
  flags = e4 i;
}

FileHeader_ext :
    (a b : FileHeader)
    → a.version ≡ b.version
    → a.header_length ≡ b.header_length
    → a.created_ns ≡ b.created_ns
    → a.wire_version ≡ b.wire_version
    → a ≡ b
FileHeader_ext a b e0 e1 e2 e3 =
    λ i. record { version = e0 i; header_length = e1 i; created_ns = e2 i; wire_version = e3 i }

read_record_fields-encode :
    (h : RecordHeader) → IsRecordHeader h → read_record_fields (encode_record_header h) ≡ h
unfolding read_record_fields encode_record_header
read_record_fields-encode h w =
    RecordHeader_ext _ h (omega arith) (omega arith) (omega arith) (omega arith) (omega arith)

read_file_fields-encode :
    (h : FileHeader) → IsFileHeader h → read_file_fields (encode_file_header h) ≡ h
unfolding read_file_fields encode_file_header
read_file_fields-encode h w =
    FileHeader_ext _ h (omega arith) (omega arith) (omega arith) (omega arith)

-- The header of a record is decoded back, whatever the out parameter held.
pub decode-encode_record_header :
    (h h0 : RecordHeader)
    → IsRecordHeader h
    → decode_record_header (encode_record_header h) h0 ≡ (true, h)
unfolding decode_record_header encode_record_header
decode-encode_record_header h h0 w = ap (λ x. (true, x)) (read_record_fields-encode h w)

-- So is the header of the file.
pub decode-encode_file_header :
    (h h0 : FileHeader) → IsFileHeader h → decode_file_header (encode_file_header h) h0 ≡ (true, h)
unfolding decode_file_header encode_file_header
decode-encode_file_header h h0 w =
    ap
      (λ (x : FileHeader).
        (x.version == k_format_version && leb k_file_header_size x.header_length, x))
      (read_file_fields-encode h w)
    ∙ ap (λ b. (b, h)) (ground arith)
