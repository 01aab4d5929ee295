-- ===== src/Receiver/Datagram.antt =====
-- Receiver::handle_datagram and what it calls (tools/receiver/receiver.cpp). `now_ns` is what the
-- clock shows; `r1` and `r2` are what fwrite returns for the header and the payload of a record.
pub mod Tally
pub mod Counts
use Prim.Native.String.{String}
use ipc_data_relay.Common.{
  ℕ, ◌-◌, Bool, true, false, not, ◌||◌, Option, none, some, if◌then◌else◌, length,
}
use ipc_data_relay.Common.Assoc.{assign}
use ipc_data_relay.Common.NatKey.{ℕ-eq}
use ipc_data_relay.Common.StringKey.{String-eq}
use ipc_data_relay.Byteorder.{Bytes}
use ipc_data_relay.Wire.{
  Header, default_header, ParseError, no_error, truncated, bad_magic, bad_version, to_string,
  Parsed, parse_datagram,
}
use ipc_data_relay.Reassembler.{
  Added, CompletedMessage, Result, complete, incomplete, duplicate, malformed, add,
}
use ipc_data_relay.SequenceTracker.{Outcome, first, in_order, gap, out_of_order, observe}
use ipc_data_relay.Capture.{RecordHeader}
use ipc_data_relay.Capture.Writer.{CaptureWriter, WriteResult, is_open, write_record}
use ipc_data_relay.Receiver.Stats.{
  ReceiverStats, ReceiverSourceStats, plus64, reason_count, update_source,
}
use ipc_data_relay.Receiver.State.{Receiver, refresh_capture_stats}

-- ++stats_.malformed; ++stats_.malformed_by_reason[reason]
abbrev pub count_reason : ReceiverStats → String → ReceiverStats
count_reason s reason = record s {
  malformed = plus64 s.malformed 1;
  malformed_by_reason = assign s.malformed_by_reason reason (plus64 (reason_count s reason) 1);
}

abbrev pub count_source_malformed : ReceiverStats → ℕ → ReceiverStats
count_source_malformed s source_id =
    update_source s source_id (λ ss. record ss { malformed = plus64 ss.malformed 1 })

-- The budget stops at 0 in the source, too.
unfoldable pub note_malformed : Receiver → String → ℕ → Bool → Receiver
unfolding update_source
note_malformed r reason source_id have_source =
    let s = count_reason r.stats reason in
    record r {
      stats = if have_source then count_source_malformed s source_id else s;
      malformed_log_budget = r.malformed_log_budget - 1;
    }

-- The start of `on_complete`.
abbrev pub count_message : ReceiverStats → CompletedMessage → ReceiverStats
count_message s m =
    update_source
      (record s { messages = plus64 s.messages 1; payload_bytes = plus64 s.payload_bytes m.size })
      m.source_id
      (λ ss. record ss {
        messages = plus64 ss.messages 1;
        payload_bytes = plus64 ss.payload_bytes m.size;
        last_sequence = m.sequence;
        last_timestamp_ns = m.timestamp_ns;
      })

abbrev pub record_header : CompletedMessage → RecordHeader
record_header m = record {
  payload_length = 0;
  source_id = m.source_id;
  sequence = m.sequence;
  timestamp_ns = m.timestamp_ns;
  flags = m.flags;
}

-- `on_complete` after `write_record`.
unfoldable pub after_write : Receiver → ℕ → CaptureWriter × Bool → Receiver
unfolding update_source refresh_capture_stats
after_write r source_id (w, true) = record r {
  writer = w;
  stats =
      update_source r.stats source_id
        (λ ss. record ss { records_written = plus64 ss.records_written 1 });
}
after_write r source_id (w, false) = refresh_capture_stats (record r {
  writer = w;
  stats = record r.stats { write_errors = plus64 r.stats.write_errors 1 };
  recording = false;
})

-- Is the message not recorded?
abbrev pub skips : Receiver → Bool
skips r = not r.recording || (not (is_open r.writer) || r.writer.failed)

unfoldable pub on_complete : Receiver → CompletedMessage → WriteResult → WriteResult → Receiver
unfolding after_write update_source
on_complete r m r1 r2 =
    let r' = record r { stats = count_message r.stats m } in
    if skips r
    then record r' {
      stats = record r'.stats { records_skipped = plus64 r'.stats.records_skipped 1 };
    }
    else after_write r' m.source_id (write_record r.writer (record_header m) m.bytes r1 r2)

-- The switch on what `observe` returns.
unfoldable pub count_outcome : ReceiverStats → ℕ → Outcome × ℕ → ReceiverStats
unfolding update_source
count_outcome s source_id (first, n) = s
count_outcome s source_id (in_order, n) = s
count_outcome s source_id (gap, n) =
    update_source s source_id
      (λ ss. record ss { gap_events = plus64 ss.gap_events 1; missing = plus64 ss.missing n })
count_outcome s source_id (out_of_order, n) =
    update_source s source_id (λ ss. record ss { out_of_order = plus64 ss.out_of_order 1 })

unfoldable pub observe_sequence : Receiver → Header → Bool → Receiver
unfolding count_outcome
observe_sequence r hdr new_message =
    let o = observe r.sequences hdr.source_id hdr.sequence in
    if new_message
    then record r { sequences = o.0; stats = count_outcome r.stats hdr.source_id (o.1, o.2) }
    else r

-- The switch on what `add` returns.
unfoldable pub take_result :
    Receiver → Header → Result → CompletedMessage → WriteResult → WriteResult → Receiver
unfolding on_complete note_malformed update_source
take_result r hdr complete m r1 r2 = on_complete r m r1 r2
take_result r hdr incomplete m r1 r2 = r
take_result r hdr duplicate m r1 r2 = record r {
  stats =
      update_source (record r.stats { duplicates = plus64 r.stats.duplicates 1 }) hdr.source_id
        (λ ss. record ss { duplicates = plus64 ss.duplicates 1 });
}
take_result r hdr malformed m r1 r2 = note_malformed r "fragment_inconsistent" hdr.source_id true

unfoldable pub after_add :
    Receiver → Header → Option Added → WriteResult → WriteResult → Option Receiver
unfolding observe_sequence take_result
after_add r hdr none r1 r2 = none
after_add r hdr (some a) r1 r2 = some (
    take_result (observe_sequence (record r { reassembler = a.state }) hdr a.new_message) hdr
      a.result a.out r1 r2)

-- The header is known to belong to a source once its version was read and accepted.
abbrev pub has_source : ParseError → Bool
has_source truncated = false
has_source bad_magic = false
has_source bad_version = false
has_source e = true

-- A datagram with a valid header is counted before it is looked at.
abbrev pub count_datagram : ReceiverStats → ℕ → ℕ → ReceiverStats
count_datagram s source_id len =
    update_source
      (record s { datagrams = plus64 s.datagrams 1; datagram_bytes = plus64 s.datagram_bytes len })
      source_id (λ ss. record ss { datagrams = plus64 ss.datagrams 1 })

unfoldable pub take_parsed :
    Receiver → ℕ → ParseError → Header → Bytes → ℕ → WriteResult → WriteResult → Option Receiver
unfolding update_source note_malformed after_add
take_parsed r len no_error hdr payload now_ns r1 r2 =
    after_add (record r { stats = count_datagram r.stats hdr.source_id len }) hdr
      (add r.reassembler hdr payload now_ns) r1 r2
take_parsed r len e hdr payload now_ns r1 r2 =
    some (note_malformed r (to_string e) hdr.source_id (has_source e))

-- `none`: the reassembler's loop did not end.
unfoldable pub handle_datagram : Receiver → Bytes → ℕ → WriteResult → WriteResult → Option Receiver
unfolding take_parsed
handle_datagram r bytes now_ns r1 r2 =
    let p = parse_datagram bytes default_header in
    take_parsed r (length bytes) p.err p.hdr p.payload now_ns r1 r2
