-- ===== src/Receiver/Stats.antt =====
-- tools/receiver/receiver_stats.hpp: the statistics. Every counter is a uint64_t. std::map is an
-- association list; `operator[]` gives a key that is not there a zero.
use Prim.Native.String.{String}
use ipc_data_relay.Common.{ℕ, ◌+◌, ◌%◌, ◌^◌, Bool, false, List, [], Option, none, some}
use ipc_data_relay.Common.Assoc.{find, assign}
use ipc_data_relay.Common.NatKey.{ℕ-eq}
use ipc_data_relay.Common.StringKey.{String-eq}
use ipc_data_relay.Capture.Writer.{Failure}

pub record ReceiverSourceStats : Type 0 where
  pub datagrams : ℕ
  pub messages : ℕ
  pub payload_bytes : ℕ
  pub gap_events : ℕ
  pub missing : ℕ
  pub out_of_order : ℕ
  pub incomplete : ℕ
  pub duplicates : ℕ
  pub malformed : ℕ
  pub records_written : ℕ
  pub last_sequence : ℕ
  pub last_timestamp_ns : ℕ

abbrev pub no_source_stats : ReceiverSourceStats
no_source_stats = record {
  datagrams = 0;
  messages = 0;
  payload_bytes = 0;
  gap_events = 0;
  missing = 0;
  out_of_order = 0;
  incomplete = 0;
  duplicates = 0;
  malformed = 0;
  records_written = 0;
  last_sequence = 0;
  last_timestamp_ns = 0;
}

pub record ReceiverStats : Type 0 where
  pub start_monotonic_ns : ℕ
  pub start_realtime_ns : ℕ
  pub datagrams : ℕ
  pub datagram_bytes : ℕ
  pub messages : ℕ
  pub payload_bytes : ℕ
  pub malformed : ℕ
  pub malformed_by_reason : List (String × ℕ)
  pub incomplete : ℕ
  pub duplicates : ℕ
  pub oversize : ℕ
  pub recv_errors : ℕ
  pub kernel_drops : ℕ
  pub records_written : ℕ
  pub record_bytes : ℕ
  pub write_errors : ℕ
  pub records_skipped : ℕ
  pub commands : ℕ
  pub stats_published : ℕ
  pub stats_publish_failures : ℕ
  pub reassembly_pending : ℕ
  pub recording_enabled : Bool
  pub capture_open : Bool
  pub capture_failed : Bool
  pub capture_error : Option Failure
  pub capture_file : String
  pub sources : List (ℕ × ReceiverSourceStats)

abbrev pub no_stats : ReceiverStats
no_stats = record {
  start_monotonic_ns = 0;
  start_realtime_ns = 0;
  datagrams = 0;
  datagram_bytes = 0;
  messages = 0;
  payload_bytes = 0;
  malformed = 0;
  malformed_by_reason = [];
  incomplete = 0;
  duplicates = 0;
  oversize = 0;
  recv_errors = 0;
  kernel_drops = 0;
  records_written = 0;
  record_bytes = 0;
  write_errors = 0;
  records_skipped = 0;
  commands = 0;
  stats_published = 0;
  stats_publish_failures = 0;
  reassembly_pending = 0;
  recording_enabled = false;
  capture_open = false;
  capture_failed = false;
  capture_error = none;
  capture_file = "";
  sources = [];
}

-- a += n on uint64_t
abbrev pub plus64 : ℕ → ℕ → ℕ
plus64 a n = (a + n) % 2 ^ 64

abbrev pub found_or_zero : Option ℕ → ℕ
found_or_zero none = 0
found_or_zero (some n) = n

-- malformed_by_reason[reason]
abbrev pub reason_count : ReceiverStats → String → ℕ
reason_count s reason = found_or_zero (find s.malformed_by_reason reason)

abbrev pub found_or_new : Option ReceiverSourceStats → ReceiverSourceStats
found_or_new none = no_source_stats
found_or_new (some s) = s

-- sources[source_id], read
abbrev pub source_stats : ReceiverStats → ℕ → ReceiverSourceStats
source_stats s source_id = found_or_new (find s.sources source_id)

-- sources[source_id], changed through the reference
unfoldable pub update_source :
    ReceiverStats → ℕ → (ReceiverSourceStats → ReceiverSourceStats) → ReceiverStats
update_source s source_id f = record s {
  sources = assign s.sources source_id (f (source_stats s source_id));
}
