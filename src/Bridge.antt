-- ===== src/Bridge.antt =====
-- include/ipcrelay/bridge/{bridge,bridge_config}.hpp and src/bridge/bridge.cpp: the loop that takes
-- messages from the ZeroMQ subscriptions and sends them as UDP datagrams.
-- The sockets are not code of the repository. What `zmq_msg_recv` returns on a source's socket is a
-- list of results, one for each call (`would_block` when it is used up); so is what the UDP socket
-- returns, and there a call succeeds when the list is used up. `wire` is what was sent.
-- Log output is not modelled, except for the budget that limits it.
pub mod Config
pub mod Rounds
pub mod Send
pub mod Service
use ipc_data_relay.Common.{
  ℕ, zero, suc, ◌+◌, ◌-◌, ◌%◌, ◌^◌, Bool, true, false, not, ◌||◌, List, [], ◌∷◌, ◌++◌, ltb, ◌==◌,
  if◌then◌else◌, length, take, drop, get_elem?, set, Option, none, some,
}
use ipc_data_relay.Byteorder.{Bytes}
use ipc_data_relay.Wire.{
  Header, encode_header, fragment_count_for, add_flag, k_version, k_max_message_length,
  k_flag_fragmented, k_flag_multipart,
}
use Config.{BridgeConfig, fragment_payload}

pub record BridgeSourceStats : Type 0 where
  pub messages : ℕ
  pub bytes : ℕ
  pub multipart : ℕ
  pub datagrams : ℕ
  pub fragmented : ℕ
  pub recv_errors : ℕ
  pub send_errors : ℕ
  pub send_timeouts : ℕ
  pub oversize : ℕ
  pub next_sequence : ℕ

pub record BridgeStats : Type 0 where
  pub datagrams_sent : ℕ
  pub bytes_sent : ℕ
  pub send_errors : ℕ
  pub send_timeouts : ℕ
  pub poll_errors : ℕ
  pub poll_iterations : ℕ
  pub max_batch_hits : ℕ

-- A uint64_t counter.
abbrev pub plus64 : ℕ → ℕ → ℕ
plus64 a b = (a + b) % 2 ^ 64

-- A call of zmq_msg_recv: EAGAIN, EINTR, another error, or a frame with its bytes, zmq_msg_more and
-- the time that the clock shows afterwards.
pub data RecvResult : Type 0 where
  would_block interrupted recv_failed : RecvResult
  frame : Bytes → Bool → ℕ → RecvResult

-- A call of UdpMulticastSender::send: the bytes sent, EAGAIN or EWOULDBLOCK, or another error.
pub data SendResult : Type 0 where
  sent : ℕ → SendResult
  timed_out send_failed : SendResult

pub record Net : Type 0 where
  pub results : List SendResult
  pub wire : List Bytes

-- One call of `send`, given the results to come and what was sent. A datagram is sent whole.
unfoldable pub send_next : List SendResult → List Bytes → Bytes → Net × SendResult
send_next [] wire d = (record { results = []; wire = wire ++ d ∷ [] }, sent (length d))
send_next (timed_out ∷ rs) wire d = (record { results = rs; wire = wire }, timed_out)
send_next (send_failed ∷ rs) wire d = (record { results = rs; wire = wire }, send_failed)
send_next (sent k ∷ rs) wire d = (record { results = rs; wire = wire ++ d ∷ [] }, sent k)

unfoldable pub send : Net → Bytes → Net × SendResult
unfolding send_next
send n d = send_next n.results n.wire d

-- What `transmit` changes: the counters of the source and of the bridge, the log budget, the socket.
pub record Link : Type 0 where
  pub st : BridgeSourceStats
  pub stats : BridgeStats
  pub send_error_log_budget : ℕ
  pub net : Net

abbrev pub spend : ℕ → ℕ
spend budget = if ltb 0 budget then budget - 1 else budget

-- The counters after a failed send.
unfoldable pub note_timeout : Link → Link
note_timeout l = record l {
  st = record l.st { send_timeouts = plus64 l.st.send_timeouts 1 };
  stats = record l.stats { send_timeouts = plus64 l.stats.send_timeouts 1 };
  send_error_log_budget = spend l.send_error_log_budget;
}

unfoldable pub note_error : Link → Link
note_error l = record l {
  st = record l.st { send_errors = plus64 l.st.send_errors 1 };
  stats = record l.stats { send_errors = plus64 l.stats.send_errors 1 };
  send_error_log_budget = spend l.send_error_log_budget;
}

unfoldable pub note_sent : Link → ℕ → Link
note_sent l k = record l {
  st = record l.st { datagrams = plus64 l.st.datagrams 1 };
  stats = record l.stats {
    datagrams_sent = plus64 l.stats.datagrams_sent 1;
    bytes_sent = plus64 l.stats.bytes_sent k;
  };
}

-- n: the bytes of the next fragment. The offset never passes the length.
abbrev pub piece : ℕ → ℕ → ℕ → ℕ
piece len chunk offset = if ltb (len - offset) chunk then len - offset else chunk

-- The header of round i, with the casts to the widths of its fields.
abbrev pub round_header : Header → ℕ → ℕ → ℕ → Header
round_header h i offset n = record h {
  fragment_index = i % 2 ^ 16;
  fragment_offset = offset % 2 ^ 32;
  fragment_length = n % 2 ^ 16;
}

-- The datagram of a round: the header, and the bytes if there are any.
abbrev pub datagram : Header → Bytes → ℕ → ℕ → ℕ → Bytes
datagram h bytes i offset n =
    encode_header (round_header h i offset n) ++ take n (drop offset bytes)

-- The rest of a round, once `send` has returned: give up, or go on with `next`.
unfoldable pub after_send : (Link → Link × Bool) → Link → Net × SendResult → Link × Bool
after_send next l (net, timed_out) = (note_timeout (record l { net = net }), false)
after_send next l (net, send_failed) = (note_error (record l { net = net }), false)
after_send next l (net, sent k) = next (note_sent (record l { net = net }) k)

-- The loop of `transmit`, with the rounds that are left.
unfoldable pub send_rounds : ℕ → ℕ → ℕ → Header → Bytes → ℕ → Link → Link × Bool
unfolding send after_send
send_rounds zero i offset h bytes chunk l = (l, true)
send_rounds (suc rounds) i offset h bytes chunk l =
    let n = piece (length bytes) chunk offset in
    after_send (send_rounds rounds (i + 1) (offset + n) h bytes chunk) l
      (send l.net (datagram h bytes i offset n))

-- The counters that `transmit` raises first.
unfoldable pub note_message : Link → ℕ → Link
note_message l len = record l {
  st = record l.st {
    messages = plus64 l.st.messages 1;
    bytes = plus64 l.st.bytes len;
    next_sequence = plus64 l.st.next_sequence 1;
  };
}

abbrev pub note_oversize : Link → Link
note_oversize l = record l { st = record l.st { oversize = plus64 l.st.oversize 1 } }

abbrev pub note_fragmented : Link → ℕ → Link
note_fragmented l count =
    if ltb 1 count
    then record l { st = record l.st { fragmented = plus64 l.st.fragmented 1 } }
    else l

-- The header that all fragments of a message share.
abbrev pub message_header : ℕ → ℕ → ℕ → ℕ → ℕ → ℕ → Header
message_header id flags sequence timestamp_ns len count = record {
  version = k_version;
  flags = if ltb 1 count then add_flag flags k_flag_fragmented else flags;
  source_id = id;
  message_length = len % 2 ^ 32;
  sequence = sequence;
  timestamp_ns = timestamp_ns;
  fragment_offset = 0;
  fragment_index = 0;
  fragment_count = count % 2 ^ 16;
  fragment_length = 0;
}

unfoldable pub transmit : BridgeConfig → ℕ → Link → Bytes → ℕ → ℕ → Link × Bool
unfolding send_rounds note_message
transmit cfg id l bytes flags timestamp_ns =
    let len = length bytes in
    let sequence = l.st.next_sequence in
    let l1 = note_message l len in
    let chunk = fragment_payload cfg in
    let count = fragment_count_for len chunk in
    if ltb k_max_message_length len || ltb 0xFFFF count
    then (note_oversize l1, false)
    else send_rounds count 0 0 (message_header id flags sequence timestamp_ns len count) bytes chunk
        (note_fragmented l1 count)

abbrev pub note_recv_error : Link → Link
note_recv_error l = record l { st = record l.st { recv_errors = plus64 l.st.recv_errors 1 } }

-- The inner loop of service_source: the frames behind the first one, and whether all came.
unfoldable pub gather : List RecvResult → Bytes → List RecvResult × Bytes × Bool
gather [] concat = ([], concat, false)
gather (interrupted ∷ rs) concat = gather rs concat
gather (would_block ∷ rs) concat = (rs, concat, false)
gather (recv_failed ∷ rs) concat = (rs, concat, false)
gather (frame d true ts ∷ rs) concat = gather rs (concat ++ d)
gather (frame d false ts ∷ rs) concat = (rs, concat ++ d, true)

abbrev pub note_multipart : Link → Link
note_multipart l = record l { st = record l.st { multipart = plus64 l.st.multipart 1 } }

abbrev pub note_batch : Link → Link
note_batch l = record l {
  stats = record l.stats { max_batch_hits = plus64 l.stats.max_batch_hits 1 };
}

-- The loop of service_source, with the budget that is left; it returns what is left to receive.
unfoldable pub service_loop : BridgeConfig → ℕ → ℕ → List RecvResult → Link → List RecvResult × Link
unfolding transmit gather
service_loop cfg id zero rs l = (rs, note_batch l)
service_loop cfg id (suc budget) [] l = ([], l)
service_loop cfg id (suc budget) (would_block ∷ rs) l = (rs, l)
service_loop cfg id (suc budget) (interrupted ∷ rs) l = service_loop cfg id budget rs l
service_loop cfg id (suc budget) (recv_failed ∷ rs) l = (rs, note_recv_error l)
service_loop cfg id (suc budget) (frame d false ts ∷ rs) l =
    service_loop cfg id budget rs (transmit cfg id l d 0 ts).0
service_loop cfg id (suc budget) (frame d true ts ∷ rs) l =
    let (rest, concat, all) = gather rs d in
    let next =
      service_loop cfg id budget rest
        (transmit cfg id (note_multipart l) concat k_flag_multipart ts).0 in
    if all then next else (rest, note_recv_error l)

-- A source with its counters and its socket; the bridge.
pub record Source : Type 0 where
  pub id : ℕ
  pub st : BridgeSourceStats
  pub inbox : List RecvResult

pub record Bridge : Type 0 where
  pub cfg : BridgeConfig
  pub sources : List Source
  pub stats : BridgeStats
  pub send_error_log_budget : ℕ
  pub net : Net

abbrev pub link : Bridge → Source → Link
link b s = record {
  st = s.st;
  stats = b.stats;
  send_error_log_budget = b.send_error_log_budget;
  net = b.net;
}

unfoldable pub service : Bridge → Source → Bridge × Source
unfolding service_loop
service b s =
    let (rs, l) = service_loop b.cfg s.id b.cfg.max_messages_per_poll s.inbox (link b s) in
    (
      record b { stats = l.stats; send_error_log_budget = l.send_error_log_budget; net = l.net },
      record s { st = l.st; inbox = rs },
    )

-- The loop of poll_once over the sources, with the readiness that zmq_poll reported for each.
unfoldable pub service_ready : Bridge → List Bool → List Source → Bridge × List Source
unfolding service
service_ready b ready [] = (b, [])
service_ready b [] (s ∷ ss) = (b, s ∷ ss)
service_ready b (true ∷ ready) (s ∷ ss) =
    let (b1, s1) = service b s in let (b2, rest) = service_ready b1 ready ss in (b2, s1 ∷ rest)
service_ready b (false ∷ ready) (s ∷ ss) =
    let (b2, rest) = service_ready b ready ss in (b2, s ∷ rest)

-- A call of zmq_poll: an error, EINTR and EAGAIN apart, or the readiness of each source.
pub data PollResult : Type 0 where
  poll_interrupted poll_again poll_failed : PollResult
  ready : List Bool → PollResult

abbrev pub note_poll : Bridge → Bridge
note_poll b = record b {
  stats = record b.stats { poll_iterations = plus64 b.stats.poll_iterations 1 };
}

abbrev pub note_poll_error : Bridge → Bridge
note_poll_error b = record b {
  stats = record b.stats { poll_errors = plus64 b.stats.poll_errors 1 };
}

-- With rc == 0 no source is ready. The result is false on a fatal error.
unfoldable pub poll_once : Bridge → PollResult → Bridge × Bool
unfolding service_ready
poll_once b poll_interrupted = (note_poll b, true)
poll_once b poll_again = (note_poll_error (note_poll b), true)
poll_once b poll_failed = (note_poll_error (note_poll b), false)
poll_once b (ready bits) =
    let (b', ss) = service_ready (note_poll b) bits b.sources in (record b' { sources = ss }, true)
