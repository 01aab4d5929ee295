-- ===== src/Receiver/Invariant/Loop.antt =====
-- The timers and one round of the loop of the receiver (tools/receiver/receiver.cpp).
use ipc_data_relay.Common.{
  ℕ, suc, zero, ◌≡◌, refl, Bool, true, false, ltb, leb, ◌&&◌, not, List, [], ◌∷◌, Option, none,
  some,
}
use ipc_data_relay.Reassembler.Room.{expire-IsBounded}
use ipc_data_relay.Capture.Writer.{CallResult}
use ipc_data_relay.Receiver.State.{Receiver}
use ipc_data_relay.Receiver.Stats.{plus64}
use ipc_data_relay.Receiver.Invariant.Running.{IsRunning}
use ipc_data_relay.Receiver.Invariant.Datagram.{note_malformed-IsRunning, handle_datagram-IsRunning}
use ipc_data_relay.Receiver.Poll.{
  UdpResult, nothing, recv_error, too_long, datagram, Arrival, Drained, drain_loop, drain_udp,
  take_datagram, note_too_long, drain_on, drain_step, drain_commands, sweep_reassembly,
  sweep_if_due, flush_if_due, publish_if_due, publish_stats, run_timers, World, PollResult,
  after_udp, on_ready, interrupted, poll_failed, ready, poll_once,
}
use ipc_data_relay.Receiver.Invariant.Command.{
  try_flush-IsRunning, if-IsRunning, command_loop-IsRunning,
}

-- A round of the loop ends, and the invariant holds after it.
abbrev Runs : Option Receiver → Type 0
Runs o = (q : Receiver) × (o ≡ some q) × IsRunning q

drain_on-Runs :
    (next : Receiver → Drained) (rest : List Arrival) (o : Option Receiver)
    → Runs o
    → ((q : Receiver) → IsRunning q → Runs (next q).1)
    → Runs (drain_on next rest o).1
drain_on-Runs next rest o (q, e, h) go = rw e (go q h)

drain_step-Runs :
    (next : Receiver → Drained) (rest : List Arrival) (r : Receiver) (a : Arrival) (u : UdpResult)
    → IsRunning r
    → ((q : Receiver) → IsRunning q → Runs (next q).1)
    → Runs (drain_step next rest r a u).1
unfolding drain_step take_datagram note_too_long
drain_step-Runs next rest r a nothing h go = (_, refl, h)
drain_step-Runs next rest r a recv_error h go =
    (_, refl, record { bounded = h.bounded; open_file = h.open_file })
drain_step-Runs next rest r a too_long h go = go _ (
    note_malformed-IsRunning
      (record r { stats = record r.stats { oversize = plus64 r.stats.oversize 1 } }) "oversize" 0
      false (record { bounded = h.bounded; open_file = h.open_file }))
drain_step-Runs next rest r a (datagram bytes) h go =
    drain_on-Runs next rest (take_datagram r a bytes)
      (handle_datagram-IsRunning r bytes a.now_ns a.header_write a.payload_write h) go

drain_loop-Runs :
    (budget : ℕ) (arrivals : List Arrival) (r : Receiver)
    → IsRunning r
    → Runs (drain_loop budget arrivals r).1
unfolding drain_loop
drain_loop-Runs zero arrivals r h = (r, refl, h)
drain_loop-Runs (suc budget) [] r h = (r, refl, h)
drain_loop-Runs (suc budget) (a ∷ arrivals) r h =
    drain_step-Runs (λ q. drain_loop budget arrivals q) arrivals
      (record r { kernel_drops_raw = a.drops }) a a.result
      (record { bounded = h.bounded; open_file = h.open_file })
      (λ q k. drain_loop-Runs budget arrivals q k)

drain_udp-Runs :
    (r : Receiver) (arrivals : List Arrival) → IsRunning r → Runs (drain_udp r arrivals).1
unfolding drain_udp
drain_udp-Runs r arrivals h =
    let (q, e, k) = drain_loop-Runs r.cfg.max_datagrams_per_poll arrivals r h in
    rw e (_, refl, record { bounded = k.bounded; open_file = k.open_file })

sweep_if_due-IsRunning :
    (r : Receiver) (now sweep_now : ℕ) → IsRunning r → IsRunning (sweep_if_due r now sweep_now)
unfolding sweep_if_due sweep_reassembly
sweep_if_due-IsRunning r now sweep_now h =
    if-IsRunning (leb r.next_sweep_ns now) _ r
      (record {
        bounded = expire-IsBounded sweep_now r.reassembler h.bounded;
        open_file = h.open_file;
      })
      h

flush_if_due-IsRunning :
    (r : Receiver) (now : ℕ) (c d : CallResult) → IsRunning r → IsRunning (flush_if_due r now c d)
unfolding flush_if_due
flush_if_due-IsRunning r now c d h =
    let q =
      if-IsRunning (not r.writer.failed) _ r
        (try_flush-IsRunning r r.cfg.capture_sync_on_flush c d h) h in
    if-IsRunning (ltb 0 r.cfg.capture_flush_interval_ms && leb r.next_flush_ns now) _ r
      (record { bounded = q.bounded; open_file = q.open_file }) h

publish_stats-IsRunning :
    (r : Receiver) (sent : Option Bool) → IsRunning r → IsRunning (publish_stats r sent)
unfolding publish_stats
publish_stats-IsRunning r none h = h
publish_stats-IsRunning r (some true) h = record { bounded = h.bounded; open_file = h.open_file }
publish_stats-IsRunning r (some false) h = record { bounded = h.bounded; open_file = h.open_file }

publish_if_due-IsRunning :
    (r : Receiver) (now : ℕ) (sent : Option Bool)
    → IsRunning r
    → IsRunning (publish_if_due r now sent)
unfolding publish_if_due
publish_if_due-IsRunning r now sent h =
    let q = publish_stats-IsRunning r sent h in
    if-IsRunning (leb r.next_stats_ns now) _ r
      (record { bounded = q.bounded; open_file = q.open_file }) h

run_timers-IsRunning : (r : Receiver) (w : World) → IsRunning r → IsRunning (run_timers r w)
unfolding run_timers
run_timers-IsRunning r w h = publish_if_due-IsRunning _ w.now w.sent (
    flush_if_due-IsRunning _ w.now w.flushed w.synced
      (sweep_if_due-IsRunning r w.now w.sweep_now h))

after_udp-Runs : (o : Option Receiver) (cmd : Bool) (w : World) → Runs o → Runs (after_udp o cmd w)
unfolding drain_commands
after_udp-Runs o cmd w (r, e, h) = rw e (
  _,
  refl,
  run_timers-IsRunning _ w (if-IsRunning cmd _ r (command_loop-IsRunning 64 w.commands r h) h),
)

on_ready-Runs : (r : Receiver) (p : PollResult) (w : World) → IsRunning r → Runs (on_ready r p w).0
on_ready-Runs r interrupted w h = (r, refl, h)
on_ready-Runs r poll_failed w h = (r, refl, h)
on_ready-Runs r (ready true cmd) w h =
    after_udp-Runs (drain_udp r w.arrivals).1 cmd w (drain_udp-Runs r w.arrivals h)
on_ready-Runs r (ready false cmd) w h = after_udp-Runs (some r) cmd w (r, refl, h)

-- From a running receiver, one call of `poll_once` ends, whatever the sockets, the clock and the disk
-- do, and the receiver after it is running: its reassembler is within its bound, and it records only
-- into an open file.
pub poll_once-IsRunning :
    (r : Receiver) (w : World)
    → IsRunning r
    → (q : Receiver) × ((poll_once r w).0 ≡ some q) × IsRunning q
unfolding poll_once
poll_once-IsRunning r w h = on_ready-Runs r w.polled w h
