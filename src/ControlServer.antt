-- ===== src/ControlServer.antt =====
-- tools/ctl/backend/control_server.hpp and control_server.cpp: the server between the receiver and the
-- browsers. Its children hold the messages, the frames of a browser, HTTP, the clients and the poll.
pub mod Messages
pub mod Browser
pub mod Chunks
pub mod Reads
pub mod Assembly
pub mod Serve
pub mod Clients
pub mod Limits
pub mod Poll
use ipc_data_relay.Common.{ℕ, Bool, true, false, List, [], Option, none, some}
use ipc_data_relay.Byteorder.{Bytes}
use ipc_data_relay.Text.{Text}

abbrev pub k_max_header_bytes : ℕ
k_max_header_bytes = 16384

abbrev pub k_max_ws_message : ℕ
k_max_ws_message = 65536

abbrev pub k_max_output_backlog : ℕ
k_max_output_backlog = 1048576

abbrev pub k_protocol_version : ℕ
k_protocol_version = 1

abbrev pub k_ns_per_ms : ℕ
k_ns_per_ms = 1000000

pub record ControlServerConfig : Type 0 where
  pub update_interval_ms : ℕ
  pub stale_after_ms : ℕ
  pub stats_endpoint : Text
  pub command_endpoint : Text
  pub command_topic : Text
  pub web_root : Text
  pub max_clients : ℕ

-- `fd` is `none` for -1.
pub record Client : Type 0 where
  pub fd : Option ℕ
  pub peer : Text
  pub websocket : Bool
  pub close_after_write : Bool
  pub dead : Bool
  pub input : Bytes
  pub out : Bytes
  pub message : Bytes
  pub in_message : Bool

-- The member initialisers, with the socket that accept_clients sets.
abbrev pub new_client : ℕ → Text → Client
new_client fd peer = record {
  fd = some fd;
  peer = peer;
  websocket = false;
  close_after_write = false;
  dead = false;
  input = [];
  out = [];
  message = [];
  in_message = false;
}

-- The members but for the clients and the sockets. `sent` is what the command socket has taken, and
-- `closed` the descriptors of clients that have been given to close, the last first.
pub record ControlServer : Type 0 where
  pub cfg : ControlServerConfig
  pub latest_stats : Text
  pub latest_stats_ns : ℕ
  pub stats_received : ℕ
  pub stats_invalid : ℕ
  pub updates_sent : ℕ
  pub next_update_ns : ℕ
  pub push_on_next_stats : Bool
  pub sent : List (List Text)
  pub closed : List ℕ

pub record WebAsset : Type 0 where
  pub path : Text
  pub content_type : Text
  pub bytes : Bytes

-- What strtod makes of a number: a whole one, with its sign and size, or one that is not whole or not
-- finite; and the text that JsonWriter prints for the double.
pub data Double : Type 0 where
  whole : Bool → ℕ → Text → Double
  broken : Text → Double

-- What the server has from elsewhere while it handles a call: the clocks; the answer of
-- zmq_send_frames, an error text if it fails; the double that strtod reads; the
-- version and the files that the build embeds; and the files below web_root.
pub record World : Type 0 where
  pub monotonic_ns : ℕ
  pub realtime_ns : ℕ
  pub zmq_send_frames : List Text → Option Text
  pub strtod : Text → Double
  pub tool_version : Text
  pub web_assets : List WebAsset
  pub read_file : Text → Option Bytes

-- The server and the client that a call is about.
pub record Turn : Type 0 where
  pub server : ControlServer
  pub client : Client
