-- ===== src/Receiver/Invariant/Running.antt =====
-- What holds of the receiver (tools/receiver/receiver.cpp) at all times: its reassembler is within
-- its bound, and it records only into a file that is open.
use ipc_data_relay.Common.{◌≡◌, ◌<◌, sym, Bool, true, arith, not-true}
use ipc_data_relay.Common.Assoc.{find}
use ipc_data_relay.Reassembler
use ipc_data_relay.Reassembler.{
  Reassembler, Added, CompletedMessage, Result, complete, incomplete, duplicate, malformed, add,
  expire,
}
use ipc_data_relay.Reassembler.Room.{IsBounded}
use ipc_data_relay.Capture.Writer.{CaptureWriter, is_open}
use ipc_data_relay.Receiver.State.{Receiver, new_receiver, ReceiverConfig, reassembler_config}

-- Recording goes to an open file.
abbrev pub IsOpen : Bool → CaptureWriter → Type 0
IsOpen recording w = recording ≡ true → is_open w ≡ true

pub record IsRunning (r : Receiver) : Type 0 where
  pub bounded : IsBounded r.reassembler
  pub open_file : IsOpen r.recording r.writer

-- A new receiver with room for a message in the reassembler is running.
pub new_receiver-IsRunning :
    (cfg : ReceiverConfig) → 0 < cfg.reassembly_max_pending → IsRunning (new_receiver cfg)
unfolding new_receiver reassembler_config Reassembler.init find
new_receiver-IsRunning cfg room = record {
  bounded = record { tracked = λ k e f. cc f; positive = room; room = omega arith };
  open_file = λ bad. not-true (sym bad);
}
