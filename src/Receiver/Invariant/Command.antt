-- ===== src/Receiver/Invariant/Command.antt =====
-- The commands of the receiver (Receiver::set_recording and handle_command of
-- tools/receiver/receiver.cpp) record only into a file that is open.
use ipc_data_relay.Common.{
  ℕ, suc, zero, ◌≡◌, refl, sym, ◌∙◌, Bool, true, false, not, if◌then◌else◌, List, [], ◌∷◌, inl, inr,
  Bool-cases, not-true,
}
use ipc_data_relay.Capture.Writer.{CaptureWriter, CallResult, is_open, flush, open_file}
use ipc_data_relay.Receiver.State.{Receiver, refresh_capture_stats}
use ipc_data_relay.Receiver.Stats.{plus64}
use ipc_data_relay.Receiver.Command.{
  record_on, record_off, record_toggle, flush_file, show_stats, unknown, command_of, normalise,
  Disk, set_recording, after_open, try_flush, after_flush, finish_flush, run_command,
  handle_command, Command,
}
use ipc_data_relay.Wire.{k_version}
use ipc_data_relay.Receiver.Invariant.File.{flush-file, open_file-open}
use ipc_data_relay.Receiver.Invariant.Running.{IsRunning}
use ipc_data_relay.Receiver.Poll.{
  CommandResult, no_command, command_error, frames, command_loop, command_frame,
}

after_open-IsRunning :
    (r : Receiver) (w : CaptureWriter × Bool)
    → IsRunning r
    → is_open r.writer ≡ false
    → (w.1 ≡ true → is_open w.0 ≡ true)
    → IsRunning (after_open r w).0
unfolding after_open refresh_capture_stats
after_open-IsRunning r (w, true) h closed o = record {
  bounded = h.bounded;
  open_file = λ _. o refl;
}
after_open-IsRunning r (w, false) h closed o = record {
  bounded = h.bounded;
  open_file = λ rec. not-true (sym (h.open_file rec) ∙ closed);
}

after_flush-IsRunning :
    (r : Receiver) (w : CaptureWriter × Bool)
    → IsRunning r
    → w.0.file ≡ r.writer.file
    → IsRunning (after_flush r w).0
unfolding after_flush
after_flush-IsRunning r (w, true) h e = record { bounded = h.bounded; open_file = rw e h.open_file }
after_flush-IsRunning r (w, false) h e = record {
  bounded = h.bounded;
  open_file = rw e h.open_file;
}

pub try_flush-IsRunning :
    (r : Receiver) (sync : Bool) (c d : CallResult)
    → IsRunning r
    → IsRunning (try_flush r sync c d).0
unfolding try_flush
try_flush-IsRunning r sync c d h = elim (Bool-cases (is_open r.writer)) [
  | inl o ↦
      rw o (after_flush-IsRunning r (flush r.writer sync c d) h (flush-file r.writer sync c d))
  | inr o ↦ rw o h
]

pub if-IsRunning :
    (b : Bool) (x y : Receiver) → IsRunning x → IsRunning y → IsRunning (if b then x else y)
if-IsRunning true x y h k = h
if-IsRunning false x y h k = k

either-IsRunning :
    (b : Bool) (x y : Receiver × Bool)
    → (b ≡ true → IsRunning x.0)
    → (b ≡ false → IsRunning y.0)
    → IsRunning (if b then x else y).0
either-IsRunning true x y h k = h refl
either-IsRunning false x y h k = k refl

set_recording-IsRunning :
    (r : Receiver) (on : Bool) (disk : Disk) → IsRunning r → IsRunning (set_recording r on disk).0
unfolding set_recording refresh_capture_stats
set_recording-IsRunning r true disk h =
    either-IsRunning r.writer.failed _ _ (λ _. h)
      (λ _.
        either-IsRunning (is_open r.writer) _ _
          (λ o. record { bounded = h.bounded; open_file = λ _. o })
          (λ closed.
            after_open-IsRunning r
              (open_file r.writer r.cfg.capture_file disk.created_ns k_version disk.opened
                disk.header)
              h closed
              (open_file-open r.writer r.cfg.capture_file disk.created_ns k_version disk.opened
                disk.header)))
set_recording-IsRunning r false disk h =
    let q =
      if-IsRunning r.recording _ r (try_flush-IsRunning r true disk.flushed disk.synced h) h in
    record { bounded = q.bounded; open_file = λ bad. not-true (sym bad) }

finish_flush-IsRunning : (x : Receiver × Bool) → IsRunning x.0 → IsRunning (finish_flush x).0
unfolding finish_flush refresh_capture_stats
finish_flush-IsRunning (r, true) h = h
finish_flush-IsRunning (r, false) h = record { bounded = h.bounded; open_file = h.open_file }

run_command-IsRunning :
    (r : Receiver) (c : Command) (disk : Disk) → IsRunning r → IsRunning (run_command r c disk).0
unfolding run_command
run_command-IsRunning r record_on disk h = set_recording-IsRunning r true disk h
run_command-IsRunning r record_off disk h = set_recording-IsRunning r false disk h
run_command-IsRunning r record_toggle disk h = set_recording-IsRunning r (not r.recording) disk h
run_command-IsRunning r flush_file disk h =
    finish_flush-IsRunning (try_flush r true disk.flushed disk.synced)
      (try_flush-IsRunning r true disk.flushed disk.synced h)
run_command-IsRunning r show_stats disk h = h
run_command-IsRunning r unknown disk h = h

pub command_loop-IsRunning :
    (rounds : ℕ) (results : List CommandResult) (r : Receiver)
    → IsRunning r
    → IsRunning (command_loop rounds results r).1
unfolding command_loop handle_command
command_loop-IsRunning zero results r h = h
command_loop-IsRunning (suc rounds) [] r h = h
command_loop-IsRunning (suc rounds) (no_command ∷ results) r h = h
command_loop-IsRunning (suc rounds) (command_error ∷ results) r h = h
command_loop-IsRunning (suc rounds) (frames f fs disk ∷ results) r h =
    command_loop-IsRunning rounds results _ (
      run_command-IsRunning
        (record r { stats = record r.stats { commands = plus64 r.stats.commands 1 } })
        (command_of (normalise (command_frame f fs))) disk
        (record { bounded = h.bounded; open_file = h.open_file }))
