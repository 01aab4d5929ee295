-- ===== src/Telemetry/RoundTrip.antt =====
-- The decoders of tools/testpub/telemetry.cpp undo its encoders.
use ipc_data_relay.Common.{ℕ, ◌^◌, ◌<◌, ◌≡◌, refl, [], ◌∷◌, ◌++◌, length, arith}
use ipc_data_relay.Byteorder.{
  Bytes, put_u8, put_u16le, put_u32le, put_u64le, get_u8, get_u16le, get_u32le, get_u64le,
}
use ipc_data_relay.Telemetry.{
  ModeStatus, encode_mode_status, decode_mode_status, data_size, k_data_mode_status, PtpStats,
  encode_ptp_stats, decode_ptp_stats, k_data_ptp_stats,
}

-- Each field fits its width.
pub record IsModeStatus (d : ModeStatus) : Type 0 where
  pub sample_time_ns : d.sample_time_ns < 2 ^ 64
  pub uptime_s : d.uptime_s < 2 ^ 32
  pub mode : d.mode < 2 ^ 8
  pub previous_mode : d.previous_mode < 2 ^ 8
  pub mode_change_count : d.mode_change_count < 2 ^ 16
  pub status_flags : d.status_flags < 2 ^ 32
  pub fault_code : d.fault_code < 2 ^ 32
  pub time_in_mode_s : d.time_in_mode_s < 2 ^ 32
  pub heartbeat : d.heartbeat < 2 ^ 32

ModeStatus_ext :
    (a b : ModeStatus)
    → a.sample_time_ns ≡ b.sample_time_ns
    → a.uptime_s ≡ b.uptime_s
    → a.mode ≡ b.mode
    → a.previous_mode ≡ b.previous_mode
    → a.mode_change_count ≡ b.mode_change_count
    → a.status_flags ≡ b.status_flags
    → a.fault_code ≡ b.fault_code
    → a.time_in_mode_s ≡ b.time_in_mode_s
    → a.heartbeat ≡ b.heartbeat
    → a ≡ b
ModeStatus_ext a b e0 e1 e2 e3 e4 e5 e6 e7 e8 = λ i. record {
  sample_time_ns = e0 i;
  uptime_s = e1 i;
  mode = e2 i;
  previous_mode = e3 i;
  mode_change_count = e4 i;
  status_flags = e5 i;
  fault_code = e6 i;
  time_in_mode_s = e7 i;
  heartbeat = e8 i;
}

-- Decoding the encoding of a mode status, with whatever stands behind it, gives the mode status, if each
-- field fits its width; the encoding is as long as data_size says.
pub decode_mode_status-encode_mode_status :
    (d : ModeStatus) (rest : Bytes)
    → IsModeStatus d
    → (decode_mode_status (encode_mode_status d ++ rest) ≡ d)
      × (length (encode_mode_status d) ≡ data_size k_data_mode_status)
unfolding decode_mode_status encode_mode_status put_u8 put_u16le put_u32le put_u64le get_u8
    get_u16le get_u32le get_u64le data_size
decode_mode_status-encode_mode_status d rest h = (
  ModeStatus_ext _ d (omega arith) (omega arith) (omega arith) (omega arith) (omega arith)
      (omega arith) (omega arith) (omega arith) (omega arith),
  refl,
)

-- Each field fits its width, and the identity is eight bytes.
pub record IsPtpStats (d : PtpStats) : Type 0 where
  pub grandmaster_identity : length d.grandmaster_identity ≡ 8
  pub sample_time_ns : d.sample_time_ns < 2 ^ 64
  pub offset_from_master_ns : d.offset_from_master_ns < 2 ^ 64
  pub mean_path_delay_ns : d.mean_path_delay_ns < 2 ^ 64
  pub freq_adjustment_ppb : d.freq_adjustment_ppb < 2 ^ 32
  pub steps_removed : d.steps_removed < 2 ^ 16
  pub current_utc_offset_s : d.current_utc_offset_s < 2 ^ 16
  pub port_state : d.port_state < 2 ^ 8
  pub servo_state : d.servo_state < 2 ^ 8
  pub gm_clock_class : d.gm_clock_class < 2 ^ 8
  pub flags : d.flags < 2 ^ 8
  pub sync_rx_count : d.sync_rx_count < 2 ^ 32
  pub announce_timeout_count : d.announce_timeout_count < 2 ^ 32
  pub reserved : d.reserved < 2 ^ 32

PtpStats_ext :
    (a b : PtpStats)
    → a.sample_time_ns ≡ b.sample_time_ns
    → a.grandmaster_identity ≡ b.grandmaster_identity
    → a.offset_from_master_ns ≡ b.offset_from_master_ns
    → a.mean_path_delay_ns ≡ b.mean_path_delay_ns
    → a.freq_adjustment_ppb ≡ b.freq_adjustment_ppb
    → a.steps_removed ≡ b.steps_removed
    → a.current_utc_offset_s ≡ b.current_utc_offset_s
    → a.port_state ≡ b.port_state
    → a.servo_state ≡ b.servo_state
    → a.gm_clock_class ≡ b.gm_clock_class
    → a.flags ≡ b.flags
    → a.sync_rx_count ≡ b.sync_rx_count
    → a.announce_timeout_count ≡ b.announce_timeout_count
    → a.reserved ≡ b.reserved
    → a ≡ b
PtpStats_ext a b e0 e1 e2 e3 e4 e5 e6 e7 e8 e9 e10 e11 e12 e13 = λ i. record {
  sample_time_ns = e0 i;
  grandmaster_identity = e1 i;
  offset_from_master_ns = e2 i;
  mean_path_delay_ns = e3 i;
  freq_adjustment_ppb = e4 i;
  steps_removed = e5 i;
  current_utc_offset_s = e6 i;
  port_state = e7 i;
  servo_state = e8 i;
  gm_clock_class = e9 i;
  flags = e10 i;
  sync_rx_count = e11 i;
  announce_timeout_count = e12 i;
  reserved = e13 i;
}

-- A list of eight bytes, taken apart.
data Eight : Bytes → Type 0 where
  eight : (a b c d e f g h : ℕ) → Eight (a ∷ b ∷ c ∷ d ∷ e ∷ f ∷ g ∷ h ∷ [])

to_eight : (xs : Bytes) → length xs ≡ 8 → Eight xs
to_eight [] p = absurd (omega arith)
to_eight (a ∷ []) p = absurd (omega arith)
to_eight (a ∷ b ∷ []) p = absurd (omega arith)
to_eight (a ∷ b ∷ c ∷ []) p = absurd (omega arith)
to_eight (a ∷ b ∷ c ∷ d ∷ []) p = absurd (omega arith)
to_eight (a ∷ b ∷ c ∷ d ∷ e ∷ []) p = absurd (omega arith)
to_eight (a ∷ b ∷ c ∷ d ∷ e ∷ f ∷ []) p = absurd (omega arith)
to_eight (a ∷ b ∷ c ∷ d ∷ e ∷ f ∷ g ∷ []) p = absurd (omega arith)
to_eight (a ∷ b ∷ c ∷ d ∷ e ∷ f ∷ g ∷ h ∷ []) p = eight a b c d e f g h
to_eight (a ∷ b ∷ c ∷ d ∷ e ∷ f ∷ g ∷ h ∷ i ∷ xs) p = absurd (omega arith)

decode_ptp_stats-with :
    (d : PtpStats) (g rest : Bytes)
    → Eight g
    → IsPtpStats d
    → (decode_ptp_stats (encode_ptp_stats (record d { grandmaster_identity = g }) ++ rest)
        ≡ record d { grandmaster_identity = g })
      × (length (encode_ptp_stats (record d { grandmaster_identity = g }))
          ≡ data_size k_data_ptp_stats)
unfolding decode_ptp_stats encode_ptp_stats put_u8 put_u16le put_u32le put_u64le get_u8 get_u16le
    get_u32le get_u64le data_size
decode_ptp_stats-with d _ rest (eight a b c e f g h i) w = (
  PtpStats_ext _ _ (omega arith) refl (omega arith) (omega arith) (omega arith) (omega arith)
      (omega arith) (omega arith) (omega arith) (omega arith) (omega arith) (omega arith)
      (omega arith) (omega arith),
  refl,
)

-- Decoding the encoding of PTP statistics, with whatever stands behind it, gives the statistics, if each
-- field fits its width and the identity is eight bytes; the encoding is as long as data_size says.
pub decode_ptp_stats-encode_ptp_stats :
    (d : PtpStats) (rest : Bytes)
    → IsPtpStats d
    → (decode_ptp_stats (encode_ptp_stats d ++ rest) ≡ d)
      × (length (encode_ptp_stats d) ≡ data_size k_data_ptp_stats)
decode_ptp_stats-encode_ptp_stats d rest w =
    decode_ptp_stats-with d d.grandmaster_identity rest
      (to_eight d.grandmaster_identity w.grandmaster_identity) w
