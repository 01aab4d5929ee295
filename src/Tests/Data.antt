-- ===== src/Tests/Data.antt =====
-- The inputs of the tests: a message of three bytes, sent in fragments of two bytes.
use ipc_data_relay.Common.{true, [], ◌∷◌, ◌++◌}
use ipc_data_relay.Byteorder.{Bytes}
use ipc_data_relay.Wire.{Header, encode_header, k_version}
use ipc_data_relay.Bridge.{Link}
use ipc_data_relay.Bridge.Config.{BridgeConfig, info}
use ipc_data_relay.Bridge.Rounds.{message}
use ipc_data_relay.Reassembler.{Config, Reassembler}
use ipc_data_relay.Reassembler.Sound.{Sent}
use ipc_data_relay.Receiver.State.{ReceiverConfig}

abbrev pub three_bytes : Bytes
three_bytes = 10 ∷ 20 ∷ 30 ∷ []

-- A datagram has room for two bytes of payload.
abbrev pub bridge_config : BridgeConfig
bridge_config = record {
  multicast_group_text = "239.1.1.1";
  multicast_group = 0xEF010101;
  multicast_port = 5000;
  multicast_interface_text = "";
  multicast_interface = 0;
  multicast_ttl = 1;
  multicast_loopback = true;
  max_datagram_size = 46;
  send_buffer_bytes = 0;
  send_timeout_ms = 10;
  zmq_io_threads = 1;
  zmq_recv_hwm = 1000;
  max_messages_per_poll = 2;
  reconnect_ivl_ms = 100;
  stats_interval_ms = 1000;
  log_level = info;
  sources = [];
}

abbrev pub quiet_link : Link
quiet_link = record {
  st = record {
    messages = 0;
    bytes = 0;
    multipart = 0;
    datagrams = 0;
    fragmented = 0;
    recv_errors = 0;
    send_errors = 0;
    send_timeouts = 0;
    oversize = 0;
    next_sequence = 5;
  };
  stats = record {
    datagrams_sent = 0;
    bytes_sent = 0;
    send_errors = 0;
    send_timeouts = 0;
    poll_errors = 0;
    poll_iterations = 0;
    max_batch_hits = 0;
  };
  send_error_log_budget = 10;
  net = record { results = []; wire = [] };
}

-- Every key has the same message.
abbrev pub sent_three : Sent
sent_three k = message 7 2 0 5 100 three_bytes

-- The first of its two fragments.
abbrev pub first_header : Header
first_header = record {
  version = k_version;
  flags = 1;
  source_id = 7;
  message_length = 3;
  sequence = 5;
  timestamp_ns = 100;
  fragment_offset = 0;
  fragment_index = 0;
  fragment_count = 2;
  fragment_length = 2;
}

abbrev pub second_header : Header
second_header = record first_header { fragment_offset = 2; fragment_index = 1; fragment_length = 1 }

abbrev pub first_payload : Bytes
first_payload = 10 ∷ 20 ∷ []

abbrev pub second_payload : Bytes
second_payload = 30 ∷ []

abbrev pub first_datagram : Bytes
first_datagram = encode_header first_header ++ first_payload

abbrev pub small_config : Config
small_config = record { max_pending = 4; timeout_ns = 10; max_message_length = 100 }

abbrev pub small_reassembler : Reassembler
small_reassembler = record {
  cfg = small_config;
  entries = [];
  order = [];
  completed = [];
  evictions = 0;
}

abbrev pub receiver_config : ReceiverConfig
receiver_config = record {
  max_datagrams_per_poll = 64;
  capture_file = "capture.bin";
  record_on_start = true;
  capture_flush_interval_ms = 1000;
  capture_sync_on_flush = true;
  reassembly_timeout_ms = 500;
  reassembly_max_pending = 4;
  reassembly_max_message_bytes = 100;
  stats_interval_ms = 1000;
}
