-- ===== src/Receiver/Invariant/Datagram.antt =====
-- Receiver::handle_datagram (tools/receiver/receiver.cpp) always ends, and leaves a running receiver.
use ipc_data_relay.Common.{
  ℕ, ◌≡◌, refl, sym, Bool, true, false, Option, some, inl, inr, arith, Bool-cases, not-true, length,
}
use ipc_data_relay.Byteorder.{Bytes}
use ipc_data_relay.Wire.{
  Header, default_header, parse_datagram, ParseError, no_error, truncated, bad_magic, bad_version,
  bad_fragment_count, bad_fragment_index, length_mismatch, range_error, flag_mismatch, to_string,
}
use ipc_data_relay.Reassembler.{
  CompletedMessage, Result, complete, incomplete, duplicate, malformed, add,
}
use ipc_data_relay.Reassembler.Room.{add-IsBounded}
use ipc_data_relay.Capture.Writer.{CaptureWriter, WriteResult, is_open, write_record}
use Prim.Native.String.{String}
use ipc_data_relay.Receiver.State.{Receiver, refresh_capture_stats}
use ipc_data_relay.Receiver.Datagram.{
  handle_datagram, take_parsed, after_add, take_result, observe_sequence, on_complete, after_write,
  note_malformed, skips, record_header, count_message, count_datagram, has_source,
}
use ipc_data_relay.Receiver.Invariant.File.{write_record-open}
use ipc_data_relay.Receiver.Invariant.Running.{IsRunning}

-- The parts of handle_datagram that are no write to the file.
pub note_malformed-IsRunning :
    (r : Receiver) (reason : String) (id : ℕ) (have_source : Bool)
    → IsRunning r
    → IsRunning (note_malformed r reason id have_source)
unfolding note_malformed
note_malformed-IsRunning r reason id have_source h = record {
  bounded = h.bounded;
  open_file = h.open_file;
}

observe_sequence-IsRunning :
    (r : Receiver) (hdr : Header) (new : Bool)
    → IsRunning r
    → IsRunning (observe_sequence r hdr new)
unfolding observe_sequence
observe_sequence-IsRunning r hdr true h = record { bounded = h.bounded; open_file = h.open_file }
observe_sequence-IsRunning r hdr false h = h

after_write-IsRunning :
    (r : Receiver) (id : ℕ) (w : CaptureWriter × Bool)
    → IsRunning r
    → is_open w.0 ≡ true
    → IsRunning (after_write r id w)
unfolding after_write refresh_capture_stats
after_write-IsRunning r id (w, true) h o = record { bounded = h.bounded; open_file = λ _. o }
after_write-IsRunning r id (w, false) h o = record {
  bounded = h.bounded;
  open_file = λ bad. not-true (sym bad);
}

on_complete-IsRunning :
    (r : Receiver) (m : CompletedMessage) (r1 r2 : WriteResult)
    → IsRunning r
    → IsRunning (on_complete r m r1 r2)
unfolding on_complete
on_complete-IsRunning r m r1 r2 h = elim (Bool-cases (skips r)) [
  | inl skip ↦ rw skip (record { bounded = h.bounded; open_file = h.open_file })
  | inr kept ↦
      let o : is_open r.writer ≡ true = ground (arith, kept) in
      rw kept (
        after_write-IsRunning (record r { stats = count_message r.stats m }) m.source_id
          (write_record r.writer (record_header m) m.bytes r1 r2)
          (record { bounded = h.bounded; open_file = h.open_file })
          (write_record-open r.writer (record_header m) m.bytes r1 r2 o))
]

take_result-IsRunning :
    (r : Receiver) (hdr : Header) (x : Result) (m : CompletedMessage) (r1 r2 : WriteResult)
    → IsRunning r
    → IsRunning (take_result r hdr x m r1 r2)
unfolding take_result note_malformed
take_result-IsRunning r hdr complete m r1 r2 h = on_complete-IsRunning r m r1 r2 h
take_result-IsRunning r hdr incomplete m r1 r2 h = h
take_result-IsRunning r hdr duplicate m r1 r2 h = record {
  bounded = h.bounded;
  open_file = h.open_file;
}
take_result-IsRunning r hdr malformed m r1 r2 h = record {
  bounded = h.bounded;
  open_file = h.open_file;
}

-- A result that is there, and the invariant in it.
Runs : Option Receiver → Type 0
Runs o = (q : Receiver) × (o ≡ some q) × IsRunning q

after_add-Runs :
    (r : Receiver) (hdr : Header) (payload : Bytes) (now_ns : ℕ) (r1 r2 : WriteResult)
    → IsRunning r
    → Runs (after_add r hdr (add r.reassembler hdr payload now_ns) r1 r2)
unfolding after_add Runs
after_add-Runs r hdr payload now_ns r1 r2 h =
    let (a, found, bounded) = add-IsBounded r.reassembler hdr payload now_ns h.bounded in
    rw found (
      _,
      refl,
      take_result-IsRunning
          (observe_sequence (record r { reassembler = a.state }) hdr a.new_message) hdr a.result
          a.out r1 r2
          (observe_sequence-IsRunning (record r { reassembler = a.state }) hdr a.new_message
            (record { bounded = bounded; open_file = h.open_file })),
    )

take_parsed-Runs :
    (r : Receiver) (len : ℕ) (e : ParseError) (hdr : Header) (payload : Bytes) (now_ns : ℕ)
    (r1 r2 : WriteResult)
    → IsRunning r
    → Runs (take_parsed r len e hdr payload now_ns r1 r2)
unfolding take_parsed Runs
take_parsed-Runs r len no_error hdr payload now_ns r1 r2 h =
    unfold Runs in
    (after_add-Runs (record r { stats = count_datagram r.stats hdr.source_id len }) hdr payload
      now_ns r1 r2 (record { bounded = h.bounded; open_file = h.open_file }))
take_parsed-Runs r len truncated hdr payload now_ns r1 r2 h = (
  _,
  refl,
  note_malformed-IsRunning r (to_string truncated) hdr.source_id (has_source truncated) h,
)
take_parsed-Runs r len bad_magic hdr payload now_ns r1 r2 h = (
  _,
  refl,
  note_malformed-IsRunning r (to_string bad_magic) hdr.source_id (has_source bad_magic) h,
)
take_parsed-Runs r len bad_version hdr payload now_ns r1 r2 h = (
  _,
  refl,
  note_malformed-IsRunning r (to_string bad_version) hdr.source_id (has_source bad_version) h,
)
take_parsed-Runs r len bad_fragment_count hdr payload now_ns r1 r2 h = (
  _,
  refl,
  note_malformed-IsRunning r (to_string bad_fragment_count) hdr.source_id
      (has_source bad_fragment_count) h,
)
take_parsed-Runs r len bad_fragment_index hdr payload now_ns r1 r2 h = (
  _,
  refl,
  note_malformed-IsRunning r (to_string bad_fragment_index) hdr.source_id
      (has_source bad_fragment_index) h,
)
take_parsed-Runs r len length_mismatch hdr payload now_ns r1 r2 h = (
  _,
  refl,
  note_malformed-IsRunning r (to_string length_mismatch) hdr.source_id (has_source length_mismatch)
      h,
)
take_parsed-Runs r len range_error hdr payload now_ns r1 r2 h = (
  _,
  refl,
  note_malformed-IsRunning r (to_string range_error) hdr.source_id (has_source range_error) h,
)
take_parsed-Runs r len flag_mismatch hdr payload now_ns r1 r2 h = (
  _,
  refl,
  note_malformed-IsRunning r (to_string flag_mismatch) hdr.source_id (has_source flag_mismatch) h,
)

-- A running receiver handles every datagram to the end, and runs on.
pub handle_datagram-IsRunning :
    (r : Receiver) (bytes : Bytes) (now_ns : ℕ) (r1 r2 : WriteResult)
    → IsRunning r
    → (q : Receiver) × (handle_datagram r bytes now_ns r1 r2 ≡ some q) × IsRunning q
unfolding handle_datagram
handle_datagram-IsRunning r bytes now_ns r1 r2 h =
    let p = parse_datagram bytes default_header in
    unfold Runs in (take_parsed-Runs r (length bytes) p.err p.hdr p.payload now_ns r1 r2 h)
