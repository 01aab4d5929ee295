-- ===== src/Receiver/State.antt =====
-- tools/receiver/receiver.hpp: the object `Receiver`, and the method of receiver.cpp that copies the
-- state of the capture file into the statistics. Of ReceiverConfig (receiver_config.hpp) the fields
-- that the methods read.
use Prim.Native.String.{String}
use ipc_data_relay.Common.{ℕ, ◌*◌, ◌+◌, ◌/◌, ◌%◌, ◌^◌, max, Bool, false, [], length}
use ipc_data_relay.Reassembler.{Config, Reassembler}
use ipc_data_relay.Reassembler
use ipc_data_relay.SequenceTracker.{Tracker}
use ipc_data_relay.Capture.Writer.{CaptureWriter, new_writer, is_open}
use ipc_data_relay.Receiver.Stats.{ReceiverStats, no_stats}

-- An int of the configuration is not negative (receiver_config.cpp checks the ranges).
pub record ReceiverConfig : Type 0 where
  pub max_datagrams_per_poll : ℕ
  pub capture_file : String
  pub record_on_start : Bool
  pub capture_flush_interval_ms : ℕ
  pub capture_sync_on_flush : Bool
  pub reassembly_timeout_ms : ℕ
  pub reassembly_max_pending : ℕ
  pub reassembly_max_message_bytes : ℕ
  pub stats_interval_ms : ℕ

-- kNsPerMs of time_util.hpp
abbrev pub k_ns_per_ms : ℕ
k_ns_per_ms = 1000000

pub record Receiver : Type 0 where
  pub cfg : ReceiverConfig
  pub reassembler : Reassembler
  pub sequences : Tracker
  pub writer : CaptureWriter
  pub recording : Bool
  pub stats : ReceiverStats
  pub kernel_drops_raw : ℕ
  pub next_stats_ns : ℕ
  pub next_sweep_ns : ℕ
  pub next_flush_ns : ℕ
  pub malformed_log_budget : ℕ

unfoldable pub reassembler_config : ReceiverConfig → Config
reassembler_config cfg = record {
  max_pending = cfg.reassembly_max_pending;
  timeout_ns = (cfg.reassembly_timeout_ms * k_ns_per_ms) % 2 ^ 64;
  max_message_length = cfg.reassembly_max_message_bytes;
}

-- The constructor.
unfoldable pub new_receiver : ReceiverConfig → Receiver
unfolding reassembler_config
new_receiver cfg = record {
  cfg = cfg;
  reassembler = Reassembler.init (reassembler_config cfg);
  sequences = [];
  writer = new_writer;
  recording = false;
  stats = record no_stats { capture_file = cfg.capture_file };
  kernel_drops_raw = 0;
  next_stats_ns = 0;
  next_sweep_ns = 0;
  next_flush_ns = 0;
  malformed_log_budget = 20;
}

-- now + interval_ms * kNsPerMs, a deadline in uint64_t
abbrev pub after_ms : ℕ → ℕ → ℕ
after_ms now interval_ms = (now + interval_ms * k_ns_per_ms) % 2 ^ 64

-- The period of the sweep, in milliseconds.
abbrev pub sweep_interval_ms : ReceiverConfig → ℕ
sweep_interval_ms cfg = max 10 (cfg.reassembly_timeout_ms / 4)

-- The deadlines that `init` sets.
unfoldable pub start_timers : Receiver → ℕ → Receiver
start_timers r now = record r {
  next_stats_ns = after_ms now r.cfg.stats_interval_ms;
  next_sweep_ns = after_ms now (sweep_interval_ms r.cfg);
  next_flush_ns = after_ms now r.cfg.capture_flush_interval_ms;
}

-- The statistics with the state of the capture file, as refresh_capture_stats and stats_json put it.
abbrev pub with_capture : Receiver → ReceiverStats → ReceiverStats
with_capture r s = record s {
  recording_enabled = r.recording;
  capture_open = is_open r.writer;
  capture_failed = r.writer.failed;
  capture_error = r.writer.last_error;
  records_written = r.writer.records;
  record_bytes = r.writer.bytes;
  reassembly_pending = length r.reassembler.entries;
}

unfoldable pub refresh_capture_stats : Receiver → Receiver
refresh_capture_stats r = record r { stats = with_capture r r.stats }
