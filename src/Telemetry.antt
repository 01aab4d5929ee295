-- ===== src/Telemetry.antt =====
-- tools/testpub/telemetry.hpp and telemetry.cpp: the simulated data of the test publisher. A float and a
-- signed integer are kept as the bits that the encoder writes (put_f32le, put_i64le). An encoder that
-- fills a buffer from front to back is the list that it writes.
pub mod RoundTrip
pub mod Modes
use ipc_data_relay.Common.{
  ℕ, zero, suc, ◌+◌, ◌-◌, ◌*◌, ◌/◌, ◌%◌, ◌^◌, ◌<◌, ◌≡◌, Bool, not, List, [], ◌∷◌, ◌++◌, ltb, leb,
  ◌==◌, if◌then◌else◌, length, take, drop,
}
use ipc_data_relay.Byteorder.{
  Bytes, IsBytes, put_u8, put_u16le, put_u32le, put_u64le, get_u8, get_u16le, get_u32le, get_u64le,
}

pub record TestHeader : Type 0 where
  pub magic : ℕ
  pub publisher_index : ℕ
  pub message_index : ℕ
  pub payload_length : ℕ
  pub data_type : ℕ
  pub data_length : ℕ

abbrev pub k_num_data_types : ℕ
k_num_data_types = 3

abbrev pub k_num_power_rails : ℕ
k_num_power_rails = 6

abbrev pub k_num_temp_sensors : ℕ
k_num_temp_sensors = 4

pub record PowerRailReading : Type 0 where
  pub voltage_v : ℕ
  pub current_a : ℕ

pub record BoardHealth : Type 0 where
  pub sample_time_ns : ℕ
  pub rails : List PowerRailReading
  pub temperature_c : List ℕ
  pub alarm_flags : ℕ
  pub sample_count : ℕ

pub record ModeStatus : Type 0 where
  pub sample_time_ns : ℕ
  pub uptime_s : ℕ
  pub mode : ℕ
  pub previous_mode : ℕ
  pub mode_change_count : ℕ
  pub status_flags : ℕ
  pub fault_code : ℕ
  pub time_in_mode_s : ℕ
  pub heartbeat : ℕ

pub record PtpStats : Type 0 where
  pub sample_time_ns : ℕ
  pub grandmaster_identity : Bytes
  pub offset_from_master_ns : ℕ
  pub mean_path_delay_ns : ℕ
  pub freq_adjustment_ppb : ℕ
  pub steps_removed : ℕ
  pub current_utc_offset_s : ℕ
  pub port_state : ℕ
  pub servo_state : ℕ
  pub gm_clock_class : ℕ
  pub flags : ℕ
  pub sync_rx_count : ℕ
  pub announce_timeout_count : ℕ
  pub reserved : ℕ

abbrev pub k_data_board_health : ℕ
k_data_board_health = 1

abbrev pub k_data_mode_status : ℕ
k_data_mode_status = 2

abbrev pub k_data_ptp_stats : ℕ
k_data_ptp_stats = 3

unfoldable pub data_type_for_endpoint : ℕ → ℕ
data_type_for_endpoint endpoint_index = 1 + endpoint_index % k_num_data_types

unfoldable pub data_size : ℕ → ℕ
data_size type =
    if type == k_data_board_health
    then 80
    else if type == k_data_mode_status
    then 32
    else if type == k_data_ptp_stats
    then 56
    else 0

-- The loop over the rails, and that over the sensors.
unfoldable pub put_rails : List PowerRailReading → Bytes
unfolding put_u32le
put_rails [] = []
put_rails (r ∷ rs) = put_u32le r.voltage_v ++ (put_u32le r.current_a ++ put_rails rs)

unfoldable pub put_temperatures : List ℕ → Bytes
unfolding put_u32le
put_temperatures [] = []
put_temperatures (c ∷ cs) = put_u32le c ++ put_temperatures cs

unfoldable pub encode_board_health : BoardHealth → Bytes
unfolding put_u64le put_rails put_temperatures put_u32le
encode_board_health d =
    put_u64le d.sample_time_ns
    ++ (put_rails d.rails
        ++ (put_temperatures d.temperature_c
            ++ (put_u32le d.alarm_flags ++ put_u32le d.sample_count)))

unfoldable pub encode_mode_status : ModeStatus → Bytes
unfolding put_u8 put_u16le put_u32le put_u64le
encode_mode_status d =
    put_u64le d.sample_time_ns
    ++ (put_u32le d.uptime_s
        ++ (put_u8 d.mode
            ++ (put_u8 d.previous_mode
                ++ (put_u16le d.mode_change_count
                    ++ (put_u32le d.status_flags
                        ++ (put_u32le d.fault_code
                            ++ (put_u32le d.time_in_mode_s ++ put_u32le d.heartbeat)))))))

unfoldable pub encode_ptp_stats : PtpStats → Bytes
unfolding put_u8 put_u16le put_u32le put_u64le
encode_ptp_stats d =
    put_u64le d.sample_time_ns
    ++ (d.grandmaster_identity
        ++ (put_u64le d.offset_from_master_ns
            ++ (put_u64le d.mean_path_delay_ns
                ++ (put_u32le d.freq_adjustment_ppb
                    ++ (put_u16le d.steps_removed
                        ++ (put_u16le d.current_utc_offset_s
                            ++ (put_u8 d.port_state
                                ++ (put_u8 d.servo_state
                                    ++ (put_u8 d.gm_clock_class
                                        ++ (put_u8 d.flags
                                            ++ (put_u32le d.sync_rx_count
                                                ++ (put_u32le d.announce_timeout_count
                                                    ++ put_u32le d.reserved))))))))))))

unfoldable pub decode_test_header : Bytes → TestHeader
unfolding get_u16le get_u32le get_u64le
decode_test_header b = record {
  magic = get_u32le b 0;
  publisher_index = get_u32le b 4;
  message_index = get_u64le b 8;
  payload_length = get_u32le b 16;
  data_type = get_u16le b 20;
  data_length = get_u16le b 22;
}

-- The loops of the decoder, with so many readings left; `p` is the place of the next.
unfoldable pub get_rails : ℕ → Bytes → ℕ → List PowerRailReading
unfolding get_u32le
get_rails zero b p = []
get_rails (suc left) b p =
    record { voltage_v = get_u32le b p; current_a = get_u32le b (p + 4) } ∷ get_rails left b (p + 8)

unfoldable pub get_temperatures : ℕ → Bytes → ℕ → List ℕ
unfolding get_u32le
get_temperatures zero b p = []
get_temperatures (suc left) b p = get_u32le b p ∷ get_temperatures left b (p + 4)

unfoldable pub decode_board_health : Bytes → BoardHealth
unfolding get_u32le get_u64le get_rails get_temperatures
decode_board_health b = record {
  sample_time_ns = get_u64le b 0;
  rails = get_rails k_num_power_rails b 8;
  temperature_c = get_temperatures k_num_temp_sensors b (8 + 8 * k_num_power_rails);
  alarm_flags = get_u32le b (8 + 8 * k_num_power_rails + 4 * k_num_temp_sensors);
  sample_count = get_u32le b (8 + 8 * k_num_power_rails + 4 * k_num_temp_sensors + 4);
}

unfoldable pub decode_mode_status : Bytes → ModeStatus
unfolding get_u8 get_u16le get_u32le get_u64le
decode_mode_status b = record {
  sample_time_ns = get_u64le b 0;
  uptime_s = get_u32le b 8;
  mode = get_u8 b 12;
  previous_mode = get_u8 b 13;
  mode_change_count = get_u16le b 14;
  status_flags = get_u32le b 16;
  fault_code = get_u32le b 20;
  time_in_mode_s = get_u32le b 24;
  heartbeat = get_u32le b 28;
}

unfoldable pub decode_ptp_stats : Bytes → PtpStats
unfolding get_u8 get_u16le get_u32le get_u64le
decode_ptp_stats b = record {
  sample_time_ns = get_u64le b 0;
  grandmaster_identity = take 8 (drop 8 b);
  offset_from_master_ns = get_u64le b 16;
  mean_path_delay_ns = get_u64le b 24;
  freq_adjustment_ppb = get_u32le b 32;
  steps_removed = get_u16le b 36;
  current_utc_offset_s = get_u16le b 38;
  port_state = get_u8 b 40;
  servo_state = get_u8 b 41;
  gm_clock_class = get_u8 b 42;
  flags = get_u8 b 43;
  sync_rx_count = get_u32le b 44;
  announce_timeout_count = get_u32le b 48;
  reserved = get_u32le b 52;
}
