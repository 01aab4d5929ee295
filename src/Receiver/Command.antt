-- ===== src/Receiver/Command.antt =====
-- Receiver::set_recording and Receiver::handle_command (tools/receiver/receiver.cpp): how a command
-- is read, and what it does to the capture file.
use ipc_data_relay.Common.{
  ℕ, Bool, true, false, not, ◌&&◌, ◌||◌, List, [], ◌∷◌, ◌==◌, if◌then◌else◌,
}
use ipc_data_relay.Text.{Text, codes, same_text, to_lower, trim, replace}
use ipc_data_relay.Wire.{k_version}
use ipc_data_relay.Capture.Writer.{
  CaptureWriter, WriteResult, CallResult, is_open, open_file, flush,
}
use ipc_data_relay.Receiver.Stats.{plus64}
use ipc_data_relay.Receiver.State.{Receiver, refresh_capture_stats}

-- What the C library and the clock return to the calls of one command.
pub record Disk : Type 0 where
  pub opened : CallResult
  pub header : WriteResult
  pub created_ns : ℕ
  pub flushed : CallResult
  pub synced : CallResult

-- `set_recording(true)` after `open`.
unfoldable pub after_open : Receiver → CaptureWriter × Bool → Receiver × Bool
unfolding refresh_capture_stats
after_open r (w, true) = (refresh_capture_stats (record r { writer = w; recording = true }), true)
after_open r (w, false) = (refresh_capture_stats (record r { writer = w }), false)

-- A flush of which a failure is counted: the object after it, and whether it did not fail.
unfoldable pub after_flush : Receiver → CaptureWriter × Bool → Receiver × Bool
after_flush r (w, true) = (record r { writer = w }, true)
after_flush r (w, false) = (
  record r { writer = w; stats = record r.stats { write_errors = plus64 r.stats.write_errors 1 } },
  false,
)

-- writer_.is_open() && !writer_.flush(sync), with what follows a failure.
unfoldable pub try_flush : Receiver → Bool → CallResult → CallResult → Receiver × Bool
unfolding after_flush
try_flush r sync flushed synced =
    if is_open r.writer then after_flush r (flush r.writer sync flushed synced) else (r, true)

unfoldable pub set_recording : Receiver → Bool → Disk → Receiver × Bool
unfolding after_open try_flush refresh_capture_stats
set_recording r true disk =
    if r.writer.failed
    then (r, false)
    else if is_open r.writer
    then (refresh_capture_stats (record r { recording = true }), true)
    else after_open r
        (open_file r.writer r.cfg.capture_file disk.created_ns k_version disk.opened disk.header)
set_recording r false disk =
    let flushed = if r.recording then (try_flush r true disk.flushed disk.synced).0 else r in
    (refresh_capture_stats (record flushed { recording = false }), true)

-- The loop that collapses spaces; `after_space` is whether `norm` ends in one.
unfoldable pub collapse : Bool → Text → Text
collapse after_space [] = []
collapse after_space (c ∷ s) =
    let rest = collapse (c == 32) s in if c == 32 && after_space then rest else c ∷ rest

unfoldable pub normalise : Text → Text
unfolding to_lower trim replace collapse
normalise raw =
    collapse false (replace b':' 32 (replace b'=' 32 (replace b'_' 32 (to_lower (trim raw)))))

pub data Command : Type 0 where
  record_on record_off record_toggle flush_file show_stats unknown : Command

abbrev pub one_of : Text → List Text → Bool
one_of s [] = false
one_of s (t ∷ ts) = same_text s t || one_of s ts

unfoldable pub command_of : Text → Command
command_of norm =
    if one_of norm (
      codes "record on"
      ∷ codes "record start"
      ∷ codes "record enable"
      ∷ codes "record true"
      ∷ codes "record 1"
      ∷ [])
    then record_on
    else if one_of norm (
        codes "record off"
        ∷ codes "record stop"
        ∷ codes "record disable"
        ∷ codes "record false"
        ∷ codes "record 0"
        ∷ [])
    then record_off
    else if one_of norm (codes "record toggle" ∷ [])
    then record_toggle
    else if one_of norm (codes "flush" ∷ [])
    then flush_file
    else if one_of norm (codes "stats" ∷ codes "status" ∷ [])
    then show_stats
    else unknown

-- The command `flush` after its flush.
unfoldable pub finish_flush : Receiver × Bool → Receiver × Bool
unfolding refresh_capture_stats
finish_flush (r, true) = (r, true)
finish_flush (r, false) = (refresh_capture_stats r, false)

unfoldable pub run_command : Receiver → Command → Disk → Receiver × Bool
unfolding set_recording try_flush finish_flush
run_command r record_on disk = set_recording r true disk
run_command r record_off disk = set_recording r false disk
run_command r record_toggle disk = set_recording r (not r.recording) disk
run_command r flush_file disk = finish_flush (try_flush r true disk.flushed disk.synced)
run_command r show_stats disk = (r, true)
run_command r unknown disk = (r, false)

unfoldable pub handle_command : Receiver → Text → Disk → Receiver × Bool
unfolding run_command normalise command_of
handle_command r raw disk =
    run_command (record r { stats = record r.stats { commands = plus64 r.stats.commands 1 } })
      (command_of (normalise raw)) disk
