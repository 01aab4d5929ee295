-- ===== src/Receiver/Run.antt =====
-- Receiver::run (tools/receiver/receiver.cpp), from the first poll to the exit code, and the copy of
-- the statistics that Receiver::stats_json prints.
use ipc_data_relay.Common.{
  ℕ, ◌+◌, ◌-◌, ◌/◌, min, Bool, true, false, List, [], ◌∷◌, Option, none, some, ltb, if◌then◌else◌,
}
use ipc_data_relay.Capture.Writer.{CaptureWriter, CallResult, SyncResult, is_open, close}
use ipc_data_relay.Receiver.Stats.{ReceiverStats, plus64}
use ipc_data_relay.Receiver.State.{Receiver, with_capture, k_ns_per_ms}
use ipc_data_relay.Receiver.Poll.{World, poll_once, sweep_reassembly}

-- The statistics as stats_json prints them.
unfoldable pub snapshot : Receiver → ReceiverStats
snapshot r = with_capture r r.stats

-- How long a poll may wait, in milliseconds.
unfoldable pub poll_timeout : Receiver → ℕ → ℕ
poll_timeout r now =
    let first = min r.next_stats_ns r.next_sweep_ns in
    let next = if ltb 0 r.cfg.capture_flush_interval_ms then min first r.next_flush_ns else first in
    if ltb now next then (next - now) / k_ns_per_ms + 1 else 0

-- The loop: one world for each poll, until the list ends with a signal, or a poll fails.
abbrev pub keep_polling : (Receiver → Option Receiver) → Option Receiver × Bool → Option Receiver
keep_polling next (none, going) = none
keep_polling next (some r, true) = next r
keep_polling next (some r, false) = some r

unfoldable pub poll_all : Receiver → List World → Option Receiver
unfolding poll_once
poll_all r [] = some r
poll_all r (w ∷ ws) = keep_polling (λ q. poll_all q ws) (poll_once r w)

-- What the C library returns when the file is closed.
pub record Closing : Type 0 where
  pub flushed : CallResult
  pub synced : SyncResult
  pub closed : CallResult

-- The object and the exit code after `close`.
unfoldable pub after_close : Receiver → CaptureWriter × Bool → Receiver × ℕ
after_close r (w, true) = (record r { writer = w }, 0)
after_close r (w, false) = (
  record r { writer = w; stats = record r.stats { write_errors = plus64 r.stats.write_errors 1 } },
  1,
)

-- What follows the loop.
unfoldable pub shut_down : Receiver → ℕ → Closing → Receiver × ℕ
unfolding sweep_reassembly after_close
shut_down r now_ns c =
    let q = sweep_reassembly r now_ns in
    if is_open q.writer then after_close q (close q.writer c.flushed c.synced c.closed) else (q, 0)

abbrev pub shut_down_all : Option Receiver → ℕ → Closing → Option (Receiver × ℕ)
shut_down_all none now_ns c = none
shut_down_all (some r) now_ns c = some (shut_down r now_ns c)

unfoldable pub run : Receiver → List World → ℕ → Closing → Option (Receiver × ℕ)
unfolding poll_all shut_down
run r ws now_ns c = shut_down_all (poll_all r ws) now_ns c
