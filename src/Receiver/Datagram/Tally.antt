-- ===== src/Receiver/Datagram/Tally.antt =====
-- The counters of datagrams and messages of the receiver (tools/receiver/receiver_stats.hpp), and
-- what each part of Receiver::handle_datagram (receiver.cpp) does to them.
use ipc_data_relay.Common.{ℕ, ◌≡◌, inl, inr, refl, Bool, true, false, Bool-cases, if◌then◌else◌}
use ipc_data_relay.Wire.{Header}
use ipc_data_relay.Reassembler.{
  Reassembler, CompletedMessage, Result, complete, incomplete, duplicate, malformed,
}
use ipc_data_relay.SequenceTracker.{Outcome, first, in_order, gap, out_of_order, observe}
use ipc_data_relay.Capture.Writer.{CaptureWriter, WriteResult, write_record}
use ipc_data_relay.Receiver.Stats.{ReceiverStats, plus64, update_source}
use ipc_data_relay.Receiver.State.{Receiver, refresh_capture_stats}
use ipc_data_relay.Receiver.Datagram.{
  take_result, observe_sequence, count_outcome, on_complete, after_write, note_malformed,
  record_header, skips, count_message,
}

-- The counters of datagrams and messages.
pub record Tally : Type 0 where
  pub datagrams : ℕ
  pub datagram_bytes : ℕ
  pub messages : ℕ
  pub malformed : ℕ
  pub duplicates : ℕ

abbrev pub tally : ReceiverStats → Tally
tally s = record {
  datagrams = s.datagrams;
  datagram_bytes = s.datagram_bytes;
  messages = s.messages;
  malformed = s.malformed;
  duplicates = s.duplicates;
}

-- The counters after an accepted datagram, by what became of its fragment.
abbrev pub counted : Result → Tally → Tally
counted complete t = record t { messages = plus64 t.messages 1 }
counted incomplete t = t
counted duplicate t = record t { duplicates = plus64 t.duplicates 1 }
counted malformed t = record t { malformed = plus64 t.malformed 1 }

after_write-tally :
    (r : Receiver) (id : ℕ) (w : CaptureWriter × Bool)
    → tally (after_write r id w).stats ≡ tally r.stats
unfolding after_write update_source refresh_capture_stats
after_write-tally r id (w, true) = refl
after_write-tally r id (w, false) = refl

on_complete-tally :
    (r : Receiver) (m : CompletedMessage) (r1 r2 : WriteResult)
    → tally (on_complete r m r1 r2).stats ≡ counted complete (tally r.stats)
unfolding on_complete update_source
on_complete-tally r m r1 r2 = elim (Bool-cases (skips r)) [
  | inl skip ↦ rw skip refl
  | inr kept ↦ rw kept (
      after_write-tally (record r { stats = count_message r.stats m }) m.source_id
        (write_record r.writer (record_header m) m.bytes r1 r2))
]

pub take_result-tally :
    (r : Receiver) (hdr : Header) (x : Result) (m : CompletedMessage) (r1 r2 : WriteResult)
    → tally (take_result r hdr x m r1 r2).stats ≡ counted x (tally r.stats)
unfolding take_result note_malformed update_source
take_result-tally r hdr complete m r1 r2 = on_complete-tally r m r1 r2
take_result-tally r hdr incomplete m r1 r2 = refl
take_result-tally r hdr duplicate m r1 r2 = refl
take_result-tally r hdr malformed m r1 r2 = refl

count_outcome-tally :
    (s : ReceiverStats) (id : ℕ) (o : Outcome × ℕ) → tally (count_outcome s id o) ≡ tally s
unfolding count_outcome update_source
count_outcome-tally s id (first, n) = refl
count_outcome-tally s id (in_order, n) = refl
count_outcome-tally s id (gap, n) = refl
count_outcome-tally s id (out_of_order, n) = refl

pub observe_sequence-tally :
    (r : Receiver) (hdr : Header) (new : Bool)
    → tally (observe_sequence r hdr new).stats ≡ tally r.stats
unfolding observe_sequence
observe_sequence-tally r hdr true =
    let o = observe r.sequences hdr.source_id hdr.sequence in
    count_outcome-tally r.stats hdr.source_id (o.1, o.2)
observe_sequence-tally r hdr false = refl

after_write-reassembler :
    (r : Receiver) (id : ℕ) (w : CaptureWriter × Bool)
    → (after_write r id w).reassembler ≡ r.reassembler
unfolding after_write refresh_capture_stats
after_write-reassembler r id (w, true) = refl
after_write-reassembler r id (w, false) = refl

-- What `on_complete` does to the capture file: nothing if the message is skipped.
abbrev pub writer_after :
    Receiver → Result → CompletedMessage → WriteResult → WriteResult → CaptureWriter
writer_after r complete m r1 r2 =
    if skips r then r.writer else (write_record r.writer (record_header m) m.bytes r1 r2).0
writer_after r incomplete m r1 r2 = r.writer
writer_after r duplicate m r1 r2 = r.writer
writer_after r malformed m r1 r2 = r.writer

after_write-writer :
    (r : Receiver) (id : ℕ) (w : CaptureWriter × Bool) → (after_write r id w).writer ≡ w.0
unfolding after_write refresh_capture_stats
after_write-writer r id (w, true) = refl
after_write-writer r id (w, false) = refl

pub take_result-writer :
    (r : Receiver) (hdr : Header) (x : Result) (m : CompletedMessage) (r1 r2 : WriteResult)
    → (take_result r hdr x m r1 r2).writer ≡ writer_after r x m r1 r2
unfolding take_result note_malformed on_complete
take_result-writer r hdr complete m r1 r2 = elim (Bool-cases (skips r)) [
  | inl skip ↦ rw skip refl
  | inr kept ↦ rw kept (
      after_write-writer (record r { stats = count_message r.stats m }) m.source_id
        (write_record r.writer (record_header m) m.bytes r1 r2))
]
take_result-writer r hdr incomplete m r1 r2 = refl
take_result-writer r hdr duplicate m r1 r2 = refl
take_result-writer r hdr malformed m r1 r2 = refl

-- Neither the switch on the result nor what it calls touches the reassembler.
pub take_result-reassembler :
    (r : Receiver) (hdr : Header) (x : Result) (m : CompletedMessage) (r1 r2 : WriteResult)
    → (take_result r hdr x m r1 r2).reassembler ≡ r.reassembler
unfolding take_result note_malformed on_complete after_write refresh_capture_stats
take_result-reassembler r hdr complete m r1 r2 = elim (Bool-cases (skips r)) [
  | inl skip ↦ rw skip refl
  | inr kept ↦ rw kept (
      after_write-reassembler (record r { stats = count_message r.stats m }) m.source_id
        (write_record r.writer (record_header m) m.bytes r1 r2))
]
take_result-reassembler r hdr incomplete m r1 r2 = refl
take_result-reassembler r hdr duplicate m r1 r2 = refl
take_result-reassembler r hdr malformed m r1 r2 = refl

pub observe_sequence-reassembler :
    (r : Receiver) (hdr : Header) (new : Bool)
    → (observe_sequence r hdr new).reassembler ≡ r.reassembler
unfolding observe_sequence
observe_sequence-reassembler r hdr true = refl
observe_sequence-reassembler r hdr false = refl

-- Neither does it touch what decides on a recording.
pub writer_after-observe_sequence :
    (r : Receiver) (hdr : Header) (new : Bool) (x : Result) (m : CompletedMessage)
    (r1 r2 : WriteResult)
    → writer_after (observe_sequence r hdr new) x m r1 r2 ≡ writer_after r x m r1 r2
unfolding observe_sequence
writer_after-observe_sequence r hdr true complete m r1 r2 = refl
writer_after-observe_sequence r hdr true incomplete m r1 r2 = refl
writer_after-observe_sequence r hdr true duplicate m r1 r2 = refl
writer_after-observe_sequence r hdr true malformed m r1 r2 = refl
writer_after-observe_sequence r hdr false x m r1 r2 = refl

pub writer_after-stats :
    (r : Receiver) (s : ReceiverStats) (x : Result) (a : Reassembler) (m : CompletedMessage)
    (r1 r2 : WriteResult)
    → writer_after (record r { stats = s; reassembler = a }) x m r1 r2 ≡ writer_after r x m r1 r2
writer_after-stats r s complete a m r1 r2 = refl
writer_after-stats r s incomplete a m r1 r2 = refl
writer_after-stats r s duplicate a m r1 r2 = refl
writer_after-stats r s malformed a m r1 r2 = refl
