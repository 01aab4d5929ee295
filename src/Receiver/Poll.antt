-- ===== src/Receiver/Poll.antt =====
-- The loop of the receiver (tools/receiver/receiver.cpp): Receiver::drain_udp, drain_commands,
-- sweep_reassembly, publish_stats and poll_once. What the sockets hold is a list of the results of
-- the calls that read them, in order; a socket of which the list is used up is empty.
use ipc_data_relay.Common.{
  ℕ, zero, suc, Bool, true, false, not, ◌&&◌, List, [], ◌∷◌, Option, none, some, ltb, leb,
  if◌then◌else◌,
}
use ipc_data_relay.Byteorder.{Bytes}
use ipc_data_relay.Reassembler.{ExpiredMessage, expire}
use ipc_data_relay.Capture.Writer.{WriteResult, CallResult}
use ipc_data_relay.Receiver.Stats.{ReceiverStats, plus64, update_source}
use ipc_data_relay.Receiver.State.{Receiver, after_ms, sweep_interval_ms}
use ipc_data_relay.Receiver.Datagram.{handle_datagram, note_malformed}
use ipc_data_relay.Receiver.Command.{Disk, handle_command, try_flush}

-- What udp_.receive returns: nothing to read, an error, a datagram that the buffer is too small for,
-- or one that it took.
pub data UdpResult : Type 0 where
  nothing recv_error too_long : UdpResult
  datagram : Bytes → UdpResult

-- One call of udp_.receive: its result, the drop counter it leaves, and what the clock and the file
-- do while the datagram is handled.
pub record Arrival : Type 0 where
  pub result : UdpResult
  pub drops : ℕ
  pub now_ns : ℕ
  pub header_write : WriteResult
  pub payload_write : WriteResult

-- One round of `drain_udp` that goes on: the object after it.
unfoldable pub take_datagram : Receiver → Arrival → Bytes → Option Receiver
unfolding handle_datagram
take_datagram r a bytes = handle_datagram r bytes a.now_ns a.header_write a.payload_write

unfoldable pub note_too_long : Receiver → Receiver
unfolding note_malformed
note_too_long r =
    note_malformed (record r { stats = record r.stats { oversize = plus64 r.stats.oversize 1 } })
      "oversize" 0 false

-- What is left in the socket, and the object. `none`: handle_datagram did not end.
abbrev pub Drained : Type 0
Drained = List Arrival × Option Receiver

abbrev pub drain_on : (Receiver → Drained) → List Arrival → Option Receiver → Drained
drain_on next rest none = (rest, none)
drain_on next rest (some r) = next r

-- One round, by what receive returned; `next` is the rest of the loop.
unfoldable pub drain_step :
    (Receiver → Drained) → List Arrival → Receiver → Arrival → UdpResult → Drained
unfolding take_datagram note_too_long
drain_step next rest r a nothing = (rest, some r)
drain_step next rest r a recv_error = (
  rest,
  some (record r { stats = record r.stats { recv_errors = plus64 r.stats.recv_errors 1 } }),
)
drain_step next rest r a too_long = next (note_too_long r)
drain_step next rest r a (datagram bytes) = drain_on next rest (take_datagram r a bytes)

-- The loop of `drain_udp`; the budget is max_datagrams_per_poll.
unfoldable pub drain_loop : ℕ → List Arrival → Receiver → Drained
unfolding drain_step
drain_loop zero arrivals r = (arrivals, some r)
drain_loop (suc budget) [] r = ([], some r)
drain_loop (suc budget) (a ∷ arrivals) r =
    drain_step (λ q. drain_loop budget arrivals q) arrivals
      (record r { kernel_drops_raw = a.drops }) a a.result

abbrev pub note_drops : Option Receiver → Option Receiver
note_drops none = none
note_drops (some r) =
    some (record r { stats = record r.stats { kernel_drops = r.kernel_drops_raw } })

unfoldable pub drain_udp : Receiver → List Arrival → Drained
unfolding drain_loop
drain_udp r arrivals =
    let (rest, q) = drain_loop r.cfg.max_datagrams_per_poll arrivals r in (rest, note_drops q)

-- What zmq_recv_multipart_nowait returns: nothing, an error, or a message of one frame and others.
pub data CommandResult : Type 0 where
  no_command command_error : CommandResult
  frames : Bytes → List Bytes → Disk → CommandResult

-- [command] or [topic][command]
abbrev pub command_frame : Bytes → List Bytes → Bytes
command_frame f [] = f
command_frame f (g ∷ gs) = g

unfoldable pub command_loop : ℕ → List CommandResult → Receiver → List CommandResult × Receiver
unfolding handle_command
command_loop zero results r = (results, r)
command_loop (suc rounds) [] r = ([], r)
command_loop (suc rounds) (no_command ∷ results) r = (results, r)
command_loop (suc rounds) (command_error ∷ results) r = (results, r)
command_loop (suc rounds) (frames f fs disk ∷ results) r =
    command_loop rounds results (handle_command r (command_frame f fs) disk).0

unfoldable pub drain_commands : Receiver → List CommandResult → List CommandResult × Receiver
unfolding command_loop
drain_commands r results = command_loop 64 results r

abbrev pub count_incomplete : ReceiverStats → ExpiredMessage → ReceiverStats
count_incomplete s e =
    update_source (record s { incomplete = plus64 s.incomplete 1 }) e.source_id
      (λ ss. record ss { incomplete = plus64 ss.incomplete 1 })

-- The calls of the callback, in order.
unfoldable pub count_expired : ReceiverStats → List ExpiredMessage → ReceiverStats
unfolding update_source
count_expired s [] = s
count_expired s (e ∷ es) = count_expired (count_incomplete s e) es

unfoldable pub sweep_reassembly : Receiver → ℕ → Receiver
unfolding count_expired
sweep_reassembly r now_ns =
    let x = expire now_ns r.reassembler in
    record r { reassembler = x.state; stats = count_expired r.stats x.reported }

-- `sent` is none without a socket, otherwise whether the frames were taken.
unfoldable pub publish_stats : Receiver → Option Bool → Receiver
publish_stats r none = r
publish_stats r (some true) = record r {
  stats = record r.stats { stats_published = plus64 r.stats.stats_published 1 };
}
publish_stats r (some false) = record r {
  stats = record r.stats { stats_publish_failures = plus64 r.stats.stats_publish_failures 1 };
}

unfoldable pub sweep_if_due : Receiver → ℕ → ℕ → Receiver
unfolding sweep_reassembly
sweep_if_due r now sweep_now =
    if leb r.next_sweep_ns now
    then record (sweep_reassembly r sweep_now) {
      next_sweep_ns = after_ms now (sweep_interval_ms r.cfg);
    }
    else r

unfoldable pub flush_if_due : Receiver → ℕ → CallResult → CallResult → Receiver
unfolding try_flush
flush_if_due r now flushed synced =
    let q =
      if not r.writer.failed
      then (try_flush r r.cfg.capture_sync_on_flush flushed synced).0
      else r in
    if ltb 0 r.cfg.capture_flush_interval_ms && leb r.next_flush_ns now
    then record q { next_flush_ns = after_ms now r.cfg.capture_flush_interval_ms }
    else r

unfoldable pub publish_if_due : Receiver → ℕ → Option Bool → Receiver
unfolding publish_stats
publish_if_due r now sent =
    if leb r.next_stats_ns now
    then record (publish_stats r sent) { next_stats_ns = after_ms now r.cfg.stats_interval_ms }
    else r

-- What zmq_poll returns: an interrupt, another error, or which sockets are ready.
pub data PollResult : Type 0 where
  interrupted poll_failed : PollResult
  ready : Bool → Bool → PollResult

-- What happens outside during one call of `poll_once`. `sweep_now` is the clock as the sweep reads it.
pub record World : Type 0 where
  pub polled : PollResult
  pub arrivals : List Arrival
  pub commands : List CommandResult
  pub now : ℕ
  pub sweep_now : ℕ
  pub flushed : CallResult
  pub synced : CallResult
  pub sent : Option Bool

-- The timers, after the sockets.
unfoldable pub run_timers : Receiver → World → Receiver
unfolding sweep_if_due flush_if_due publish_if_due
run_timers r w =
    publish_if_due (flush_if_due (sweep_if_due r w.now w.sweep_now) w.now w.flushed w.synced) w.now
      w.sent

abbrev pub after_udp : Option Receiver → Bool → World → Option Receiver
after_udp none cmd w = none
after_udp (some r) cmd w = some (run_timers (if cmd then (drain_commands r w.commands).1 else r) w)

abbrev pub on_ready : Receiver → PollResult → World → Option Receiver × Bool
on_ready r interrupted w = (some r, true)
on_ready r poll_failed w = (some r, false)
on_ready r (ready udp cmd) w =
    (after_udp (if udp then (drain_udp r w.arrivals).1 else some r) cmd w, true)

-- The object, and what `poll_once` returns.
unfoldable pub poll_once : Receiver → World → Option Receiver × Bool
unfolding run_timers drain_udp drain_commands
poll_once r w = on_ready r w.polled w
