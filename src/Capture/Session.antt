-- ===== src/Capture/Session.antt =====
-- A recording from `open` to the file that a reader finds, also after a crash that left only the
-- first bytes of it (capture_writer.cpp, capture_reader.cpp).
use Prim.Native.String.{String}
use ipc_data_relay.Common.{
  ℕ, suc, ◌+◌, ◌^◌, ◌<◌, ◌≡◌, refl, sym, ap, ◌∙◌, true, false, none, some, List, [], ◌∷◌, ◌++◌,
  append_assoc, append-nil, arith, length, take, take-append_more, take-append, drop-append,
  some-inj,
}
use ipc_data_relay.Byteorder.{Bytes}
use ipc_data_relay.Capture.{
  FileHeader, RecordHeader, IsFileHeader, IsRecordHeader, encode_file_header, encode_record_header,
  default_file_header,
}
use ipc_data_relay.Capture.Format.{length-encode_file_header, decode-encode_file_header}
use ipc_data_relay.Capture.File.{AllRecords, file_bytes, whole, read_all-take}
use ipc_data_relay.Capture.Writer
use ipc_data_relay.Capture.Writer.{
  CaptureWriter, new_writer, wrote, done, write_file_header, start_file, append_record,
  write_record, with_length,
}
use ipc_data_relay.Capture.Reader
use ipc_data_relay.Capture.Reader.{contents, read_all, new_reader}

abbrev pub Records : Type 0
Records = List (RecordHeader × Bytes)

-- write_record for each record, every fwrite succeeding.
pub write_records : CaptureWriter → Records → CaptureWriter
write_records w [] = w
write_records w ((h, p) ∷ rs) = write_records (write_record w h p wrote wrote).0 rs

-- The records as they are in the file.
abbrev pub stored : Records → Records
stored [] = []
stored ((h, p) ∷ rs) = (with_length h p, p) ∷ stored rs

-- Every field fits its width, the lengths of the payloads included.
abbrev pub AllFit : Records → Type 0
AllFit [] = Unit {0}
AllFit ((h, p) ∷ rs) = IsRecordHeader (with_length h p) × (length p < 2 ^ 32) × AllFit rs

length-stored : (rs : Records) → length (stored rs) ≡ length rs
length-stored [] = refl
length-stored ((h, p) ∷ rs) = ap suc (length-stored rs)

stored-AllRecords : (rs : Records) → AllFit rs → AllRecords (stored rs)
stored-AllRecords [] w = tt
stored-AllRecords ((h, p) ∷ rs) w =
    (record { header = w.0; size = omega (arith, w.1) }, stored-AllRecords rs w.2)

write_record-file :
    (w : CaptureWriter) (f : Bytes) (h : RecordHeader) (p : Bytes)
    → w.file ≡ some f
    → w.failed ≡ false
    → ((write_record w h p wrote wrote).0.file
        ≡ some (f ++ encode_record_header (with_length h p) ++ p))
      × ((write_record w h p wrote wrote).0.failed ≡ false)
unfolding write_record append_record
write_record-file w f h p e ok = ground arith

write_records-file :
    (w : CaptureWriter) (f : Bytes) (rs : Records)
    → w.file ≡ some f
    → w.failed ≡ false
    → (write_records w rs).file ≡ some (f ++ file_bytes (stored rs))
unfolding write_records file_bytes
write_records-file w f [] e ok = e ∙ ap some (sym (append-nil f))
write_records-file w f ((h, p) ∷ rs) e ok =
    let (e', ok') = write_record-file w f h p e ok in
    let hb = encode_record_header (with_length h p) in
    write_records-file (write_record w h p wrote wrote).0 (f ++ hb ++ p) rs e' ok'
    ∙ ap some (
        append_assoc (f ++ hb) p (file_bytes (stored rs))
        ∙ append_assoc f hb (p ++ file_bytes (stored rs)))

abbrev pub recording_header : ℕ → ℕ → FileHeader
recording_header created_ns wire_version = record default_file_header {
  created_ns = created_ns;
  wire_version = wire_version;
}

-- A recording that went well: open, then the records.
abbrev pub recording : String → ℕ → ℕ → Records → CaptureWriter
recording path created_ns wire_version rs =
    write_records (Writer.open_file new_writer path created_ns wire_version done wrote).0 rs

pub recording-file :
    (path : String) (created_ns wire_version : ℕ) (rs : Records)
    → (recording path created_ns wire_version rs).file
      ≡ some
          (encode_file_header (recording_header created_ns wire_version) ++ file_bytes (stored rs))
unfolding Writer.open_file
recording-file path created_ns wire_version rs =
    write_records-file (Writer.open_file new_writer path created_ns wire_version done wrote).0
      (encode_file_header (recording_header created_ns wire_version)) rs refl refl

-- Opening a file that begins with a header of this version leaves the reader behind the header.
open_file-header :
    (h : FileHeader) (b : Bytes)
    → IsFileHeader h
    → h.header_length ≡ 32
    → Reader.open_file (contents (encode_file_header h ++ b)) true
      ≡ (record { file = some b; file_header = h; error = none }, true)
unfolding Reader.open_file
open_file-header h b w e =
    let raw = take-append 32 (encode_file_header h) b (length-encode_file_header h) in
    let rest = drop-append 32 (encode_file_header h) b (length-encode_file_header h) in
    rw (raw, rest, length-encode_file_header h, decode-encode_file_header h default_file_header w)
      (ground (arith, e))

module _ (path : String) (created_ns wire_version : ℕ) (rs : Records) (n : ℕ) (file : Bytes)
    (is_file : (recording path created_ns wire_version rs).file ≡ some file) where
  abbrev header_bytes : Bytes
  header_bytes = encode_file_header (recording_header created_ns wire_version)

  recorded : file ≡ header_bytes ++ file_bytes (stored rs)
  recorded = some-inj (sym is_file ∙ recording-file path created_ns wire_version rs)

  -- A recording whose fields fit their widths, and every write of which succeeded, of which a crash left
  -- the file header and the n bytes behind it: the reader opens it and, with fuel above the number of
  -- records, gets exactly the records that are whole in those bytes, in order, each with the length of
  -- its payload filled in.
  pub recording_survives :
      (fuel : ℕ) (h0 : RecordHeader) (p0 : Bytes)
      → created_ns < 2 ^ 64
      → wire_version < 2 ^ 16
      → AllFit rs
      → length rs < fuel
      → ((Reader.open_file (contents (take (32 + n) file)) true).1 ≡ true)
        × ((read_all fuel (Reader.open_file (contents (take (32 + n) file)) true).0 h0 p0).0
            ≡ take (whole n (stored rs)) (stored rs))
  recording_survives fuel h0 p0 c v w lt =
      let h = recording_header created_ns wire_version in
      let valid : IsFileHeader h = record {
        version = refl;
        header_length = omega arith;
        header_fits = omega arith;
        created_ns = c;
        wire_version = v;
      } in
      let left : take (32 + n) file ≡ header_bytes ++ take n (file_bytes (stored rs)) =
        ap (take (32 + n)) recorded
        ∙ take-append_more (32 + n) n header_bytes (file_bytes (stored rs))
            (omega (arith, length-encode_file_header h)) in
      let opened = open_file-header h (take n (file_bytes (stored rs))) valid refl in
      rw (left, opened)
        (
          refl,
          read_all-take fuel n (record new_reader { file_header = h }) h0 p0 (stored rs)
              (stored-AllRecords rs w) (omega (arith, length-stored rs)),
        )
