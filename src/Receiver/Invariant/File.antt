-- ===== src/Receiver/Invariant/File.antt =====
-- Which calls of the capture writer (tools/receiver/lib/capture_writer.cpp) leave its file open.
use ipc_data_relay.Common.{
  ℕ, ◌≡◌, refl, sym, Bool, true, false, some, inl, inr, arith, Bool-cases, Option-cases, not-true,
}
use ipc_data_relay.Byteorder.{Bytes}
use ipc_data_relay.Capture.{RecordHeader}
use ipc_data_relay.Capture.Writer.{
  CaptureWriter, WriteResult, wrote, short, CallResult, done, failed_with, is_open, write_record,
  append_record, flush, open_file, start_file, write_file_header,
}
use Prim.Native.String.{String}

-- Writing to a file leaves it open.
append_record-open :
    (w : CaptureWriter) (f : Bytes) (h : RecordHeader) (p : Bytes) (r1 r2 : WriteResult)
    → is_open (append_record w f h p r1 r2).0 ≡ true
unfolding append_record
append_record-open w f h p (short k e) r2 = refl
append_record-open w f h p wrote (short k e) = ground arith
append_record-open w f h p wrote wrote = refl

pub write_record-open :
    (w : CaptureWriter) (h : RecordHeader) (p : Bytes) (r1 r2 : WriteResult)
    → is_open w ≡ true
    → is_open (write_record w h p r1 r2).0 ≡ true
unfolding write_record
write_record-open w h p r1 r2 o = elim (Option-cases w.file) [
  | inl e ↦ not-true (sym (rw e at o))
  | inr (f, e) ↦ elim (Bool-cases w.failed) [
    | inl bad ↦ rw (e, bad) refl
    | inr good ↦
        rw (e, good) (append_record-open (record w { file = some f; failed = false }) f _ p r1 r2)
  ]
]

pub flush-file :
    (w : CaptureWriter) (sync : Bool) (c d : CallResult) → (flush w sync c d).0.file ≡ w.file
unfolding flush
flush-file w sync (failed_with x) d = elim (Option-cases w.file) [
  | inl e ↦ rw e refl
  | inr (f, e) ↦ rw e refl
]
flush-file w sync done done = elim (Option-cases w.file) [
  | inl e ↦ rw e refl
  | inr (f, e) ↦ rw e refl
]
flush-file w true done (failed_with x) = elim (Option-cases w.file) [
  | inl e ↦ rw e refl
  | inr (f, e) ↦ rw e refl
]
flush-file w false done (failed_with x) = elim (Option-cases w.file) [
  | inl e ↦ rw e refl
  | inr (f, e) ↦ rw e refl
]

start_file-open :
    (w : CaptureWriter) (path : String) (t v : ℕ) (c : CallResult) (r : WriteResult)
    → (start_file w path t v c r).1 ≡ true
    → is_open (start_file w path t v c r).0 ≡ true
unfolding start_file write_file_header
start_file-open w path t v (failed_with e) r h = not-true (sym h)
start_file-open w path t v done (short k e) h = not-true (sym h)
start_file-open w path t v done wrote h = refl

pub open_file-open :
    (w : CaptureWriter) (path : String) (t v : ℕ) (c : CallResult) (r : WriteResult)
    → (open_file w path t v c r).1 ≡ true
    → is_open (open_file w path t v c r).0 ≡ true
unfolding open_file
open_file-open w path t v c r = elim (Bool-cases (is_open w)) [
  | inl o ↦ rw o (λ h. not-true (sym h))
  | inr o ↦ rw o (start_file-open w path t v c r)
]
