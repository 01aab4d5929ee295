-- ===== src/Bridge/Config.antt =====
-- include/ipcrelay/bridge/bridge_config.hpp: the settings, and the payload of a datagram
-- (src/bridge/bridge_config.cpp). The int fields are not negative: build_bridge_config bounds them.
use Prim.Native.String.{String}
use ipc_data_relay.Common.{ℕ, ◌-◌, Bool, List, ltb, if◌then◌else◌}
use ipc_data_relay.Wire.{k_header_size}

pub data LogLevel : Type 0 where
  error warn info debug : LogLevel

pub record BridgeSourceConfig : Type 0 where
  pub id : ℕ
  pub endpoint : String
  pub filters : List String
  pub recv_hwm : ℕ
  pub name : String

pub record BridgeConfig : Type 0 where
  pub multicast_group_text : String
  pub multicast_group : ℕ
  pub multicast_port : ℕ
  pub multicast_interface_text : String
  pub multicast_interface : ℕ
  pub multicast_ttl : ℕ
  pub multicast_loopback : Bool
  pub max_datagram_size : ℕ
  pub send_buffer_bytes : ℕ
  pub send_timeout_ms : ℕ
  pub zmq_io_threads : ℕ
  pub zmq_recv_hwm : ℕ
  pub max_messages_per_poll : ℕ
  pub reconnect_ivl_ms : ℕ
  pub stats_interval_ms : ℕ
  pub log_level : LogLevel
  pub sources : List BridgeSourceConfig

unfoldable pub fragment_payload : BridgeConfig → ℕ
fragment_payload cfg =
    if ltb k_header_size cfg.max_datagram_size then cfg.max_datagram_size - k_header_size else 0
