-- ===== src/Lib.antt =====
-- ipc-data-relay: a bridge takes messages from ZeroMQ publishers and sends them as UDP multicast
-- datagrams, cut into fragments; a receiver puts the fragments together, watches the sequence
-- numbers and appends the messages to a capture file, which a reader reads back. The receiver
-- publishes statistics and takes commands over ZeroMQ; a control server shows the statistics to
-- browsers over HTTP and WebSocket and passes their commands on. A test publisher simulates data.
--
-- Which file models which part (paths from the repository's root):
-- - Byteorder: include/ipcrelay/common/byteorder.hpp.
-- - Wire: include/ipcrelay/common/wire_protocol.hpp and src/common/wire_protocol.cpp, the header of
--   a datagram, encode_header and parse_datagram.
-- - Bridge: src/bridge/bridge.cpp. `transmit` and `service_loop` are Bridge::transmit and the loop of
--   Bridge::service_source; Bridge/Config is include/ipcrelay/bridge/bridge_config.hpp.
-- - Reassembler: tools/receiver/lib/reassembler.cpp. `add` and `expire` are the methods; Tracks, Room,
--   Entries, Sound, Stores, Delivers, Whole and Kept are about them.
-- - SequenceTracker: tools/receiver/lib/sequence_tracker.cpp.
-- - Capture: tools/receiver/lib/capture_format.cpp, with Capture/Writer and Capture/Reader for
--   capture_writer.cpp and capture_reader.cpp.
-- - Receiver: tools/receiver/receiver.cpp. Receiver/Stats and Receiver/State are the object,
--   Receiver/Datagram is handle_datagram, Receiver/Command is handle_command and set_recording,
--   Receiver/Poll is poll_once with what it drains and its timers, Receiver/Run is run.
-- - Text and ConfigFile: src/common/config.cpp, the helpers on text and the parser of configuration
--   files; ConfigFile/Override has the overrides of the command line and the parsers of values.
-- - Json: tools/receiver/lib/json_writer.cpp.
-- - WebSocket: tools/ctl/backend/websocket.cpp, ws_parse_frame and ws_encode_frame; WebSocket/Sha1 and
--   WebSocket/Handshake are sha1, base64_encode and websocket_accept_key; WebSocket/Masks,
--   WebSocket/Frames, WebSocket/Server and WebSocket/Prefix are about the frames.
-- - JsonValue: tools/ctl/backend/json_value.cpp; JsonValue/Scan has the tokens, and the others are
--   about the parser.
-- - Http: tools/ctl/backend/http.cpp.
-- - ControlServer: tools/ctl/backend/control_server.cpp. Messages is handle_ws_message with what the
--   server sends, Browser is handle_ws_frames, Serve is handle_http, Clients is accept_clients,
--   read_client, write_client and broadcast_stats, Poll is drain_stats and poll_once; Chunks,
--   Reads, Assembly, Limits and Poll/Rounds are about them.
-- - Telemetry: tools/testpub/telemetry.cpp; Telemetry/Modes is next_mode_status.
-- - Relay and Relay/Transfer: the bridge and the receiver together. Tests: runs, and instances of the
--   theorems.
--
-- Objects are records, passed in and out. Integers are natural numbers, and each operation that wraps
-- is written with its modulus. A map is an association list, a deque and a buffer are lists.
-- Sockets, clocks, files and ZeroMQ are not code of the repository: what a call of them returns is an
-- argument of the step that makes it, so that a theorem holds whatever they return.
-- Fuel: `make_room` runs on the number of entries and one more, and always ends within it, as the
-- theorem on `add` states; `read_all` takes any fuel above the number of records; `decimal` has
-- fuel for the twenty digits of a uint64_t. The JSON parser runs on three units for each byte of the
-- text, and one, and `parse_terminates` shows that this is enough; a string runs on its length;
-- `ws_loop` runs on the length of the input, and one, and ws_loop_more shows that more changes nothing;
-- so do read_headers_enough for the header lines and token_loop-pieces for the tokens of a header, which
-- run on the length of the text, and one; pad_zeros-length shows that 64 rounds pad a block. The loops
-- of the drains are bounded in the source.
--
-- Not modelled: logging, signals, socket options and the set-up of sockets, the settings that are read
-- from a configuration file, the layout of the receiver's statistics in JSON, the floating-point part
-- of the simulated data, the command lines, the web page and the export to CSV.
mod Common
pub mod Byteorder
pub mod Wire
pub mod Reassembler
pub mod Bridge
pub mod SequenceTracker
pub mod Capture
pub mod Text
pub mod WebSocket
pub mod JsonValue
pub mod Http
pub mod ConfigFile
pub mod Json
pub mod Receiver
pub mod Relay
pub mod ControlServer
pub mod Telemetry
pub mod Tests
