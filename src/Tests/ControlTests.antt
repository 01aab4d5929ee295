-- ===== src/Tests/ControlTests.antt =====
-- The control server (tools/ctl/backend/control_server.cpp) on concrete inputs.
use ipc_data_relay.Common.{
  ℕ, ◌-◌, ◌≡◌, ◌⊎◌, refl, inl, inr, List, [], ◌∷◌, ◌++◌, none, true, false, map, take, drop, arith,
}
use ipc_data_relay.Byteorder.{Bytes}
use ipc_data_relay.Text.{Text, codes}
use ipc_data_relay.JsonValue.{parse}
use ipc_data_relay.WebSocket.{WsFrame}
use ipc_data_relay.WebSocket.Masks.{Mask}
use ipc_data_relay.WebSocket.Frames.{client_frame}
use ipc_data_relay.ControlServer.{
  ControlServerConfig, ControlServer, Client, World, Turn, new_client, whole,
}
use ipc_data_relay.ControlServer.Messages.{handle_ws_message, with_topic}
use ipc_data_relay.ControlServer.Browser.{handle_ws_frames}
use ipc_data_relay.ControlServer.Chunks.{extend}
use ipc_data_relay.ControlServer.Reads.{AgreeOn, read, read_each, read_client_whole}
use ipc_data_relay.ControlServer.Assembly.{
  IsRecord, IsAssembling, handle_ws_message_commands, handle_ws_frames-IsAssembling,
}
use ipc_data_relay.ControlServer.Clients.{Accepted, accept_clients, closed, received}
use ipc_data_relay.ControlServer.Limits.{admit, turn_away, accept_clients_admits}
use ipc_data_relay.ControlServer.Poll.{Round, before_sweep, poll_round}
use ipc_data_relay.ControlServer.Poll.Rounds.{AllLive, held, poll_round-AllLive}

abbrev config : ControlServerConfig
config = record {
  update_interval_ms = 1000;
  stale_after_ms = 3000;
  stats_endpoint = codes "s";
  command_endpoint = codes "c";
  command_topic = [];
  web_root = [];
  max_clients = 2;
}

abbrev idle_server : ControlServer
idle_server = record {
  cfg = config;
  latest_stats = [];
  latest_stats_ns = 0;
  stats_received = 0;
  stats_invalid = 0;
  updates_sent = 0;
  next_update_ns = 500;
  push_on_next_stats = false;
  sent = [];
  closed = [];
}

-- The command socket takes every command.
abbrev world : World
world = record {
  monotonic_ns = 1000;
  realtime_ns = 5000;
  zmq_send_frames = λ frames. none;
  strtod = λ t. whole false 1 t;
  tool_version = codes "1.0";
  web_assets = [];
  read_file = λ path. none;
}

abbrev browser : Client
browser = record (new_client 7 (codes "peer")) { websocket = true }

abbrev record_on : Text
record_on = codes "{\"type\":\"record\",\"enabled\":true,\"id\":1}"

abbrev mask : Mask
mask = record { m0 = 1; m1 = 2; m2 = 3; m3 = 4 }

abbrev command_frame : WsFrame
command_frame = record { fin = true; opcode = 1; payload = record_on }

abbrev command_bytes : Bytes
command_bytes = client_frame command_frame mask

-- The first seven bytes of the frame have arrived.
abbrev halfway : Turn
halfway = record { server = idle_server; client = record browser { input = take 7 command_bytes } }

-- The other half completes the command.
halfway_completed :
    (handle_ws_frames world (extend halfway (drop 7 command_bytes))).server.sent
    ≡ (codes "record on" ∷ []) ∷ []
unfolding handle_ws_frames client_frame
halfway_completed = refl

-- The rest comes in two reads.
abbrev two_reads : List Bytes
two_reads = take 30 (drop 7 command_bytes) ∷ drop 37 command_bytes ∷ []

read_client_whole_example :
    AgreeOn
      (read_each world halfway ([] ∷ two_reads ∷ (command_bytes ∷ []) ∷ []))
      (read world halfway (two_reads ++ command_bytes ∷ []))
read_client_whole_example =
    read_client_whole world halfway [] (two_reads ∷ (command_bytes ∷ []) ∷ []) refl

handle_ws_message_commands_example :
    ((handle_ws_message world idle_server browser record_on).server.sent ≡ [])
    ⊎ ((command : Text) × IsRecord (parse record_on 64) command
        × ((handle_ws_message world idle_server browser record_on).server.sent
            ≡ with_topic [] command ∷ []))
handle_ws_message_commands_example = handle_ws_message_commands world idle_server browser record_on

handle_ws_frames-IsAssembling_example : IsAssembling (handle_ws_frames world halfway).client
handle_ws_frames-IsAssembling_example =
    handle_ws_frames-IsAssembling world halfway
      (record { bound = inl (omega arith); idle = inr (inl refl) })

abbrev two_clients : List Client
two_clients = browser ∷ new_client 8 (codes "http") ∷ []

abbrev waiting : List Accepted
waiting = record { fd = 9; peer = codes "a" } ∷ record { fd = 10; peer = codes "b" } ∷ []

accept_clients_admits_example :
    accept_clients idle_server (browser ∷ []) waiting
    ≡ (browser ∷ []) ++ (map admit (take (2 - 1) waiting) ++ map turn_away (drop (2 - 1) waiting))
accept_clients_admits_example = accept_clients_admits idle_server (browser ∷ []) waiting

-- The first client sends half a frame and then closes; a new one comes; an update is due.
abbrev busy_round : Round
busy_round = record {
  during_drain = world;
  during_events = world;
  during_tick = world;
  messages = record { frames = codes "{}" ∷ []; at = 900 } ∷ [];
  events =
      record {
        can_read = true;
        can_write = false;
        has_error = false;
        recvs = received (take 7 command_bytes) ∷ closed ∷ [];
        sends = [];
      }
      ∷ [];
  waiting = take 1 waiting;
  now = 1000;
  last_sends = [];
}

poll_round-AllLive_example :
    AllLive (poll_round (record { server = idle_server; clients = two_clients }) busy_round).clients
    × ((x : ℕ)
        → held x (poll_round (record { server = idle_server; clients = two_clients }) busy_round)
          ≡ held x
              (before_sweep (record { server = idle_server; clients = two_clients }) busy_round))
poll_round-AllLive_example =
    poll_round-AllLive (record { server = idle_server; clients = two_clients }) busy_round
