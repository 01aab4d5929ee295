-- ===== src/Tests/TelemetryTests.antt =====
-- The simulated data (tools/testpub/telemetry.cpp) at concrete values.
use ipc_data_relay.Common.{◌≡◌, refl, [], ◌∷◌, ◌++◌, length, arith}
use ipc_data_relay.Telemetry.{
  PtpStats, encode_ptp_stats, decode_ptp_stats, data_size, k_data_ptp_stats, data_type_for_endpoint,
}
use ipc_data_relay.Telemetry.RoundTrip.{decode_ptp_stats-encode_ptp_stats}
use ipc_data_relay.Telemetry.Modes.{
  Simulator, next_mode_status, Reports, IsSimulator, next_mode_status-Reports,
}

abbrev some_ptp : PtpStats
some_ptp = record {
  sample_time_ns = 1;
  grandmaster_identity = 0xEC ∷ 0x46 ∷ 0x70 ∷ 0xFF ∷ 0xFE ∷ 0x0A ∷ 0x12 ∷ 0x34 ∷ [];
  offset_from_master_ns = 2;
  mean_path_delay_ns = 850;
  freq_adjustment_ppb = 3;
  steps_removed = 1;
  current_utc_offset_s = 37;
  port_state = 9;
  servo_state = 2;
  gm_clock_class = 6;
  flags = 15;
  sync_rx_count = 100;
  announce_timeout_count = 0;
  reserved = 0;
}

decode_ptp_stats-encode_ptp_stats_example :
    (decode_ptp_stats (encode_ptp_stats some_ptp ++ 5 ∷ []) ≡ some_ptp)
    × (length (encode_ptp_stats some_ptp) ≡ data_size k_data_ptp_stats)
decode_ptp_stats-encode_ptp_stats_example =
    decode_ptp_stats-encode_ptp_stats some_ptp (5 ∷ []) (record {
      grandmaster_identity = refl;
      sample_time_ns = omega arith;
      offset_from_master_ns = omega arith;
      mean_path_delay_ns = omega arith;
      freq_adjustment_ppb = omega arith;
      steps_removed = omega arith;
      current_utc_offset_s = omega arith;
      port_state = omega arith;
      servo_state = omega arith;
      gm_clock_class = omega arith;
      flags = omega arith;
      sync_rx_count = omega arith;
      announce_timeout_count = omega arith;
      reserved = omega arith;
    })

-- Entered standby 3 s after the start; message 4250 is in the fault mode.
abbrev standing_by : Simulator
standing_by = record {
  start_mono_ns = 1000000000;
  mode = 1;
  previous_mode = 0;
  mode_changes = 1;
  mode_since_mono_ns = 4000000000;
}

next_mode_status-Reports_example :
    Reports 4260 (next_mode_status standing_by 4260 7 9000000000).status
    × IsSimulator (next_mode_status standing_by 4260 7 9000000000).simulator 9000000000
next_mode_status-Reports_example =
    next_mode_status-Reports standing_by 4260 7 9000000000
      (record { started = omega arith; entered = omega arith }) (omega arith)

third_endpoint : data_type_for_endpoint 5 ≡ 3
unfolding data_type_for_endpoint
third_endpoint = refl
