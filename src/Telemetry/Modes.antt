-- ===== src/Telemetry/Modes.antt =====
-- The simulated mode of tools/testpub/telemetry.cpp: scheduled_mode and next_mode_status.
use ipc_data_relay.Common.{
  ℕ, ◌+◌, ◌-◌, ◌*◌, ◌/◌, ◌%◌, ◌^◌, ◌<◌, ◌≤◌, ◌≡◌, ◌≢◌, ◌↔◌, refl, not, ltb, leb, ◌==◌,
  if◌then◌else◌, Bool-cases, inl, inr, arith,
}
use ipc_data_relay.Telemetry.{ModeStatus}

abbrev pub k_mode_boot : ℕ
k_mode_boot = 0

abbrev pub k_mode_standby : ℕ
k_mode_standby = 1

abbrev pub k_mode_operational : ℕ
k_mode_operational = 2

abbrev pub k_mode_maintenance : ℕ
k_mode_maintenance = 3

abbrev pub k_mode_fault : ℕ
k_mode_fault = 4

abbrev pub k_status_power_good : ℕ
k_status_power_good = 1

abbrev pub k_status_clock_locked : ℕ
k_status_clock_locked = 2

abbrev pub k_status_link_up : ℕ
k_status_link_up = 4

abbrev pub k_status_bit_passed : ℕ
k_status_bit_passed = 8

abbrev pub k_status_fan_ok : ℕ
k_status_fan_ok = 16

abbrev pub k_status_over_temp_warning : ℕ
k_status_over_temp_warning = 32

unfoldable pub scheduled_mode : ℕ → ℕ
scheduled_mode i =
    if ltb i 10
    then k_mode_boot
    else if ltb i 50
    then k_mode_standby
    else if ltb ((i - 50) % 5000) 4000
    then k_mode_operational
    else if ltb ((i - 50) % 5000) 4200
    then k_mode_maintenance
    else if ltb ((i - 50) % 5000) 4250
    then k_mode_fault
    else k_mode_standby

-- The members of Simulator that next_mode_status uses.
pub record Simulator : Type 0 where
  pub start_mono_ns : ℕ
  pub mode : ℕ
  pub previous_mode : ℕ
  pub mode_changes : ℕ
  pub mode_since_mono_ns : ℕ

-- The change of mode; mode_changes_ is a uint16_t.
unfoldable pub enter_mode : Simulator → ℕ → ℕ → Simulator
enter_mode s mode mono = if mode == s.mode then s else record s {
  previous_mode = s.mode;
  mode = mode;
  mode_changes = (s.mode_changes + 1) % 2 ^ 16;
  mode_since_mono_ns = mono;
}

-- `|=` of flags that are not yet set is a sum.
unfoldable pub status_flags : ℕ → ℕ → ℕ
status_flags mode i =
    k_status_fan_ok
    + (if not (mode == k_mode_fault) then k_status_power_good else 0)
    + (if not (mode == k_mode_boot) then k_status_link_up + k_status_bit_passed else 0)
    + (if leb 50 i then k_status_clock_locked else 0)
    + (if mode == k_mode_fault then k_status_over_temp_warning else 0)

abbrev pub seconds : ℕ → ℕ → ℕ
seconds from to = (to + 2 ^ 64 - from) % 2 ^ 64 / 1000000000 % 2 ^ 32

-- What next_mode_status returns, and the members after it. `mono` is what the clock shows.
unfoldable pub report : Simulator → ℕ → ℕ → ℕ → ModeStatus
unfolding status_flags
report s i now_ns mono = record {
  sample_time_ns = now_ns;
  uptime_s = seconds s.start_mono_ns mono;
  mode = s.mode;
  previous_mode = s.previous_mode;
  mode_change_count = s.mode_changes;
  status_flags = status_flags s.mode i;
  fault_code = if s.mode == k_mode_fault then 0x0301 else 0;
  time_in_mode_s = seconds s.mode_since_mono_ns mono;
  heartbeat = i % 2 ^ 32;
}

pub record Step : Type 0 where
  pub simulator : Simulator
  pub status : ModeStatus

unfoldable pub next_mode_status : Simulator → ℕ → ℕ → ℕ → Step
unfolding enter_mode scheduled_mode report
next_mode_status s i now_ns mono =
    let t = enter_mode s (scheduled_mode i) mono in
    record { simulator = t; status = report t i now_ns mono }

-- The clock has not gone back behind the members.
pub record IsSimulator (s : Simulator) (mono : ℕ) : Type 0 where
  pub started : s.start_mono_ns ≤ s.mode_since_mono_ns
  pub entered : s.mode_since_mono_ns ≤ mono

-- What a status says of message `i`.
pub record Reports (i : ℕ) (d : ModeStatus) : Type 0 where
  pub mode : d.mode ≡ scheduled_mode i
  pub fault : (d.fault_code ≡ 0x0301) ↔ (scheduled_mode i ≡ k_mode_fault)
  pub power_good : (d.status_flags % 2 ≡ 1) ↔ (scheduled_mode i ≢ k_mode_fault)
  pub over_temperature : (d.status_flags / 32 ≡ 1) ↔ (scheduled_mode i ≡ k_mode_fault)
  pub clock_locked : (d.status_flags / 2 % 2 ≡ 1) ↔ (50 ≤ i)
  pub times : d.time_in_mode_s ≤ d.uptime_s

enter_mode_mode : (s : Simulator) (mode mono : ℕ) → (enter_mode s mode mono).mode ≡ mode
unfolding enter_mode
enter_mode_mode s mode mono = elim (Bool-cases (mode == s.mode)) [
  | inl e ↦ rw e (ground arith)
  | inr e ↦ rw e refl
]

enter_mode-IsSimulator :
    (s : Simulator) (mode mono : ℕ) → IsSimulator s mono → IsSimulator (enter_mode s mode mono) mono
unfolding enter_mode
enter_mode-IsSimulator s mode mono h = elim (Bool-cases (mode == s.mode)) [
  | inl e ↦ simp e h
  | inr e ↦ simp e (
      let a = h.started in
      let b = h.entered in record { started = omega arith; entered = omega arith })
]

status_flags_fault : (m i : ℕ) → (status_flags m i % 2 ≡ 1) ↔ (m ≢ k_mode_fault)
unfolding status_flags
status_flags_fault m i = ground arith

status_flags_over_temperature : (m i : ℕ) → (status_flags m i / 32 ≡ 1) ↔ (m ≡ k_mode_fault)
unfolding status_flags
status_flags_over_temperature m i = ground arith

status_flags_locked : (m i : ℕ) → (status_flags m i / 2 % 2 ≡ 1) ↔ (50 ≤ i)
unfolding status_flags
status_flags_locked m i = ground arith

report_times :
    (s : Simulator) (i now_ns mono : ℕ)
    → IsSimulator s mono
    → mono - s.start_mono_ns < 1000000000 * 2 ^ 32
    → (report s i now_ns mono).time_in_mode_s ≤ (report s i now_ns mono).uptime_s
unfolding report
report_times s i now_ns mono h lt = let a = h.started in let b = h.entered in omega arith

enter_mode_start :
    (s : Simulator) (mode mono : ℕ) → (enter_mode s mode mono).start_mono_ns ≡ s.start_mono_ns
unfolding enter_mode
enter_mode_start s mode mono = elim (Bool-cases (mode == s.mode)) [
  | inl e ↦ simp e refl
  | inr e ↦ simp e refl
]

-- Whatever mode the simulator was in, the status for message `i` reports the scheduled mode; it reports
-- the fault code, an over-temperature warning and no good power exactly in the fault mode, and a locked
-- clock exactly from message 50 on; and the time in the mode is at most the time since the start. The
-- clock must not have gone back, and less than 2 ^ 32 seconds must have passed. The members then hold a
-- mode that was entered between the start and now.
pub next_mode_status-Reports :
    (s : Simulator) (i now_ns mono : ℕ)
    → IsSimulator s mono
    → mono - s.start_mono_ns < 1000000000 * 2 ^ 32
    → Reports i (next_mode_status s i now_ns mono).status
      × IsSimulator (next_mode_status s i now_ns mono).simulator mono
unfolding next_mode_status report
next_mode_status-Reports s i now_ns mono h lt =
    let t = enter_mode s (scheduled_mode i) mono in
    let m = enter_mode_mode s (scheduled_mode i) mono in
    let k = enter_mode-IsSimulator s (scheduled_mode i) mono h in
    let start = enter_mode_start s (scheduled_mode i) mono in
    (
      record {
        mode = m;
        fault = rw m (ground arith);
        power_good = rw m (status_flags_fault (scheduled_mode i) i);
        over_temperature = rw m (status_flags_over_temperature (scheduled_mode i) i);
        clock_locked = rw m (status_flags_locked (scheduled_mode i) i);
        times = report_times t i now_ns mono k (omega arith);
      },
      k,
    )
