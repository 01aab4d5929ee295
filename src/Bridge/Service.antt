-- ===== src/Bridge/Service.antt =====
-- `Bridge::service_source` (bridge.cpp) on a socket that holds whole messages, and whose calls may be
-- interrupted: how many are taken, in which order, and what becomes of multipart messages.
use ipc_data_relay.Common.{
  ℕ, zero, suc, ◌+◌, ◌%◌, ◌^◌, ◌≡◌, refl, ◌∙◌, true, false, List, [], ◌∷◌, ◌++◌, arith, ltb,
  if◌then◌else◌, length, take, drop,
}
use ipc_data_relay.Byteorder.{Bytes}
use ipc_data_relay.Wire.{k_flag_multipart}
use ipc_data_relay.Bridge.Config.{BridgeConfig}
use ipc_data_relay.Bridge.{
  Link, RecvResult, interrupted, frame, transmit, note_multipart, gather, service_loop,
}

-- A frame behind the first one, and how often the call that takes it is interrupted before.
pub record Later : Type 0 where
  pub interruptions : ℕ
  pub bytes : Bytes

-- What comes to a source: a message of ZeroMQ, with its first frame, the others, and the time at which
-- the first one is taken; or a call for a first frame that is interrupted.
pub data Arrival : Type 0 where
  message : Bytes → List Later → ℕ → Arrival
  interruption : Arrival

abbrev pub interrupt : ℕ → List RecvResult → List RecvResult
interrupt zero rs = rs
interrupt (suc n) rs = interrupted ∷ interrupt n rs

-- What zmq_msg_recv returns for the frames of a message, one call after the other.
abbrev pub later_frames : Bytes → List Later → ℕ → List RecvResult → List RecvResult
later_frames d [] ts rs = frame d false ts ∷ rs
later_frames d (e ∷ es) ts rs =
    frame d true ts ∷ interrupt e.interruptions (later_frames e.bytes es ts rs)

-- The answers to all calls; then the socket would block.
abbrev pub inbox : List Arrival → List RecvResult
inbox [] = []
inbox (message d es ts ∷ ms) = later_frames d es ts (inbox ms)
inbox (interruption ∷ ms) = interrupted ∷ inbox ms

abbrev pub joined : Bytes → List Later → Bytes
joined d [] = d
joined d (e ∷ es) = joined (d ++ e.bytes) es

-- One message, forwarded: a single frame as it is, more frames joined and marked.
pub forward_one : BridgeConfig → ℕ → Link → Bytes → List Later → ℕ → Link
forward_one cfg id l first [] ts = (transmit cfg id l first 0 ts).0
forward_one cfg id l first (e ∷ es) ts =
    (transmit cfg id (note_multipart l) (joined first (e ∷ es)) k_flag_multipart ts).0

-- The messages, forwarded one after the other.
pub forward : BridgeConfig → ℕ → Link → List Arrival → Link
forward cfg id l [] = l
forward cfg id l (message d es ts ∷ ms) = forward cfg id (forward_one cfg id l d es ts) ms
forward cfg id l (interruption ∷ ms) = forward cfg id l ms

gather-interrupt :
    (n : ℕ) (rs : List RecvResult) (acc : Bytes) → gather (interrupt n rs) acc ≡ gather rs acc
unfolding gather
gather-interrupt zero rs acc = refl
gather-interrupt (suc n) rs acc = gather-interrupt n rs acc

gather-later_frames :
    (e : Later) (es : List Later) (ts : ℕ) (rs : List RecvResult) (acc : Bytes)
    → gather (later_frames e.bytes es ts rs) acc ≡ (rs, joined acc (e ∷ es), true)
unfolding gather
gather-later_frames e [] ts rs acc = refl
gather-later_frames e (x ∷ es) ts rs acc =
    gather-interrupt x.interruptions (later_frames x.bytes es ts rs) (acc ++ e.bytes)
    ∙ gather-later_frames x es ts rs (acc ++ e.bytes)

-- One round of the loop on a whole message.
service_round :
    (cfg : BridgeConfig) (id budget : ℕ) (d : Bytes) (es : List Later) (ts : ℕ)
    (rs : List RecvResult) (l : Link)
    → service_loop cfg id (suc budget) (later_frames d es ts rs) l
      ≡ service_loop cfg id budget rs (forward_one cfg id l d es ts)
unfolding service_loop forward_one
service_round cfg id budget d [] ts rs l = refl
service_round cfg id budget d (e ∷ es) ts rs l =
    rw
      (
        gather-interrupt e.interruptions (later_frames e.bytes es ts rs) d,
        gather-later_frames e es ts rs d,
      )
      refl

-- The link with one more hit of the batch limit, a uint64_t.
abbrev pub with_batch_hit : Link → Link
with_batch_hit l = record l {
  stats = record l.stats { max_batch_hits = (l.stats.max_batch_hits + 1) % 2 ^ 64 };
}

-- Of a socket that holds whole messages, no call of which fails but by an interruption, and which then
-- would block. A message takes one unit of the budget, however many frames it has and however often the
-- calls for its later frames are interrupted, and so does an interrupted call for a first frame. With
-- fewer of these than the budget all messages are forwarded, in order, and the batch limit is not
-- counted. Otherwise those within the budget are, the others stay in the socket, and max_batch_hits goes
-- up by one. The frames of a multipart message become one message.
pub service_loop_forwards :
    (cfg : BridgeConfig) (id budget : ℕ) (ms : List Arrival) (l : Link)
    → service_loop cfg id budget (inbox ms) l ≡ (
        if ltb (length ms) budget
        then ([], forward cfg id l ms)
        else (inbox (drop budget ms), with_batch_hit (forward cfg id l (take budget ms))))
unfolding service_loop forward
service_loop_forwards cfg id zero ms l = ground arith
service_loop_forwards cfg id (suc budget) [] l = ground arith
service_loop_forwards cfg id (suc budget) (message d es ts ∷ ms) l =
    service_round cfg id budget d es ts (inbox ms) l
    ∙ service_loop_forwards cfg id budget ms (forward_one cfg id l d es ts)
    ∙ ground arith
service_loop_forwards cfg id (suc budget) (interruption ∷ ms) l =
    service_loop_forwards cfg id budget ms l ∙ ground arith
