-- ===== src/ControlServer/Poll.antt =====
-- drain_stats, poll_once and the end of run of tools/ctl/backend/control_server.cpp. What zmq_poll, the
-- sockets and the clocks answer is an argument.
pub mod Rounds
use ipc_data_relay.Common.{
  ℕ, zero, suc, ◌+◌, ◌*◌, ◌%◌, ◌^◌, Bool, true, false, not, ◌&&◌, ◌||◌, List, [], ◌∷◌, ◌++◌, Option,
  none, some, ltb, leb, if◌then◌else◌,
}
use ipc_data_relay.Byteorder.{Bytes}
use ipc_data_relay.Text.{Text, codes}
use ipc_data_relay.JsonValue.{Document, accepted, object, parse}
use ipc_data_relay.WebSocket.{ws_encode_frame, ws_close_payload, k_close, k_going_away}
use ipc_data_relay.ControlServer.{Client, ControlServer, World, Turn, k_ns_per_ms}
use ipc_data_relay.ControlServer.Browser.{is_empty, put_out}
use ipc_data_relay.ControlServer.Clients.{
  Accepted, accept_clients, Recv, Send, read_client, write_client, close_client, State, in_front,
  broadcast_stats,
}

-- A message of the statistics socket, and the time when it is looked at.
pub record Message : Type 0 where
  pub frames : List Text
  pub at : ℕ

-- [json] or [topic][json]
abbrev pub stats_frame : List Text → Text
stats_frame [] = []
stats_frame (f ∷ []) = f
stats_frame (f ∷ g ∷ rest) = g

abbrev pub is_object : Document → Bool
is_object (accepted (object ms)) = true
is_object d = false

unfoldable pub take_stats : ControlServer → Message → ControlServer
unfolding parse
take_stats s m =
    if is_object (parse (stats_frame m.frames) 64)
    then record s {
      latest_stats = stats_frame m.frames;
      latest_stats_ns = m.at;
      stats_received = (s.stats_received + 1) % 2 ^ 64;
    }
    else record s { stats_invalid = (s.stats_invalid + 1) % 2 ^ 64 }

-- The server, and `got`.
pub record Drained : Type 0 where
  pub server : ControlServer
  pub got : Bool

-- The loop of drain_stats, with `rounds` left; it ends when there is no message, or an error.
unfoldable pub drain_loop : ℕ → ControlServer → Bool → List Message → Drained
unfolding take_stats parse
drain_loop zero s got ms = record { server = s; got = got }
drain_loop (suc rounds) s got [] = record { server = s; got = got }
drain_loop (suc rounds) s got (m ∷ ms) =
    drain_loop rounds (take_stats s m) (got || is_object (parse (stats_frame m.frames) 64)) ms

abbrev pub after_drain : World → List Client → Drained → State
after_drain w clients d =
    if d.got && d.server.push_on_next_stats
    then broadcast_stats w
        (record { server = record d.server { push_on_next_stats = false }; clients = clients })
    else record { server = d.server; clients = clients }

unfoldable pub drain_stats : World → State → List Message → State
unfolding drain_loop broadcast_stats
drain_stats w t ms = after_drain w t.clients (drain_loop 64 t.server false ms)

-- revents of a client, with the answers of its socket while they are dealt with.
pub record Event : Type 0 where
  pub can_read : Bool
  pub can_write : Bool
  pub has_error : Bool
  pub recvs : List Recv
  pub sends : List Send

abbrev pub fail_client : Client → Client
fail_client c = record c { dead = true }

abbrev pub write_if : Bool → Client → List Send → Client
write_if true c sends = write_client c sends
write_if false c sends = c

abbrev pub after_read : Turn → Event → Turn
after_read t e =
    let c = write_if (not t.client.dead && e.can_write) t.client e.sends in
    record t { client = if e.has_error then fail_client c else c }

-- One round of the loop over the clients that were polled.
unfoldable pub on_event : World → ControlServer → Client → Event → Turn
unfolding read_client write_client
on_event w s c e =
    if e.can_read
    then after_read (read_client w s c e.recvs) e
    else after_read (record { server = s; client = c }) e

-- A client without an entry has no event.
unfoldable pub on_events : World → State → List Event → State
unfolding on_event
on_events w t es = go t.server t.clients es
  where
    go : ControlServer → List Client → List Event → State
    go s [] es = record { server = s; clients = [] }
    go s (c ∷ cs) [] = record { server = s; clients = c ∷ cs }
    go s (c ∷ cs) (e ∷ es) = let u = on_event w s c e in in_front u.client (go u.server cs es)

abbrev pub interval_ns : ControlServer → ℕ
interval_ns s = s.cfg.update_interval_ms * k_ns_per_ms % 2 ^ 64

abbrev pub next_after : ControlServer → ℕ → ℕ
next_after s now =
    let next = (s.next_update_ns + interval_ns s) % 2 ^ 64 in
    if leb next now then (now + interval_ns s) % 2 ^ 64 else next

abbrev pub set_next : State → ℕ → State
set_next t next = record t { server = record t.server { next_update_ns = next } }

-- The timer of poll_once.
unfoldable pub tick : World → State → ℕ → State
unfolding broadcast_stats
tick w t now =
    if leb t.server.next_update_ns now
    then (let u = broadcast_stats w t in set_next u (next_after u.server now))
    else t

abbrev pub close_if_dead : ControlServer → Client → Turn
close_if_dead s c = if c.dead then close_client s c else record { server = s; client = c }

-- What the last loop does with a client.
unfoldable pub flush_client : ControlServer → Client → List Send → Turn
unfolding write_client close_client
flush_client s c sends =
    close_if_dead s (if not c.dead && not (is_empty c.out) then write_client c sends else c)

abbrev pub kept_with : Option ℕ → Client → State → State
kept_with none c rest = rest
kept_with (some fd) c rest = in_front c rest

abbrev pub kept : Client → State → State
kept c rest = kept_with c.fd c rest

-- The last loop, and the removal of the clients without a socket. A client without an entry would
-- block.
unfoldable pub sweep : ControlServer → List Client → List (List Send) → State
unfolding flush_client
sweep s [] sends = record { server = s; clients = [] }
sweep s (c ∷ cs) [] = let u = flush_client s c [] in kept u.client (sweep u.server cs [])
sweep s (c ∷ cs) (a ∷ sends) = let u = flush_client s c a in kept u.client (sweep u.server cs sends)

-- What one call of poll_once meets: the worlds of its parts, the messages of the statistics socket, the
-- events of the clients, the connections that wait, the time, and the answers to the last writes.
pub record Round : Type 0 where
  pub during_drain : World
  pub during_events : World
  pub during_tick : World
  pub messages : List Message
  pub events : List Event
  pub waiting : List Accepted
  pub now : ℕ
  pub last_sends : List (List Send)

-- The answer of zmq_poll.
pub data Answer : Type 0 where
  ready : Round → Answer
  interrupted failed : Answer

pub record Polled : Type 0 where
  pub state : State
  pub ok : Bool

abbrev pub accept_waiting : State → List Accepted → State
accept_waiting t waiting = record t { clients = accept_clients t.server t.clients waiting }

abbrev pub sweep_state : State → List (List Send) → State
sweep_state t sends = sweep t.server t.clients sends

-- The parts of poll_once when zmq_poll has returned: up to the last loop, and with it.
unfoldable pub before_sweep : State → Round → State
unfolding drain_stats on_events accept_clients tick
before_sweep t r =
    let drained = drain_stats r.during_drain t r.messages in
    let served = on_events r.during_events drained r.events in
    let accepted = accept_waiting served r.waiting in tick r.during_tick accepted r.now

unfoldable pub poll_round : State → Round → State
unfolding before_sweep sweep
poll_round t r = sweep_state (before_sweep t r) r.last_sends

unfoldable pub poll_once : State → Answer → Polled
unfolding poll_round
poll_once t (ready r) = record { state = poll_round t r; ok = true }
poll_once t interrupted = record { state = t; ok = true }
poll_once t failed = record { state = t; ok = false }

-- The last loop of run.
unfoldable pub say_goodbye : Client → List Send → Client
unfolding write_client ws_encode_frame ws_close_payload
say_goodbye c sends =
    if c.websocket && not c.dead
    then write_client
        (put_out c
          (ws_encode_frame k_close (ws_close_payload k_going_away (codes "server shutting down"))))
        sends
    else c
