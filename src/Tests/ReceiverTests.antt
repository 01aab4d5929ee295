-- ===== src/Tests/ReceiverTests.antt =====
-- The receiver (tools/receiver/receiver.cpp) on concrete datagrams and commands, and what the bridge
-- sends to it.
use ipc_data_relay.Common.{
  ℕ, ◌≡◌, ◌≢◌, ◌⊎◌, refl, true, false, [], ◌∷◌, some, arith, List, ◌++◌, ◌+◌,
}
use ipc_data_relay.Common.Assoc.{find, assign}
use ipc_data_relay.Byteorder.{Bytes}
use ipc_data_relay.Wire.{no_error, default_header, parse_datagram, to_string}
use ipc_data_relay.Reassembler.{Added, add, header_key, init}
use ipc_data_relay.Reassembler.Sound.{IsFaithful, sent_message}
use ipc_data_relay.Wire.RoundTrip.{parse_datagram-encode_header}
use ipc_data_relay.Capture.Writer.{wrote, done, synced}
use ipc_data_relay.Receiver.State.{Receiver, new_receiver}
use ipc_data_relay.Receiver.Datagram.{handle_datagram}
use ipc_data_relay.Receiver.Datagram.Counts.{IsRefused, IsTaken, handle_datagram_counts}
use ipc_data_relay.Receiver.Command.{
  Disk, set_recording, record_on, record_off, unknown, command_of, normalise,
}
use ipc_data_relay.Receiver.Invariant.Running.{IsRunning, new_receiver-IsRunning}
use ipc_data_relay.Receiver.Invariant.Loop.{poll_once-IsRunning}
use ipc_data_relay.Receiver.Poll.{World, datagram, too_long, ready, poll_once}
use ipc_data_relay.Receiver.Run.{Closing, run}
use ipc_data_relay.Receiver.Invariant.Exit.{Exits, run-Exits}
use ipc_data_relay.Receiver.Switch.{Switches, set_recording-Switches}
use ipc_data_relay.Relay.{IsGenuine, Relays, handle_datagram-Relays}
use ipc_data_relay.Relay.Transfer.{Arrives, transmit-Arrives}
use ipc_data_relay.Bridge.{transmit}
use ipc_data_relay.Bridge.Config.{fragment_payload}
use ipc_data_relay.Bridge.Send.{transmit_whole}
use ipc_data_relay.Text.{codes}
use ipc_data_relay.Tests.Data.{
  sent_three, first_header, first_payload, first_datagram, receiver_config, bridge_config,
  quiet_link, three_bytes,
}
use ipc_data_relay.Tests.WireTests.{first_header-IsHeader, first_header-IsFragment}
use ipc_data_relay.Tests.BridgeTests.{three_bytes-CanSend}
use ipc_data_relay.Tests.ReassemblerTests.{first_header-IsFragmentOf}

abbrev idle : Receiver
idle = new_receiver receiver_config

idle-IsRunning : IsRunning idle
idle-IsRunning = new_receiver-IsRunning receiver_config (omega arith)

abbrev busy_world : World
busy_world = record {
  polled = ready true false;
  arrivals =
      record {
        result = too_long;
        drops = 0;
        now_ns = 5;
        header_write = wrote;
        payload_write = wrote;
      }
      ∷ record {
        result = datagram first_datagram;
        drops = 0;
        now_ns = 5;
        header_write = wrote;
        payload_write = wrote;
      }
      ∷ [];
  commands = [];
  now = 1000;
  sweep_now = 1000;
  flushed = done;
  synced = done;
  sent = some true;
}

poll_once-IsRunning_example :
    (q : Receiver) × ((poll_once idle busy_world).0 ≡ some q) × IsRunning q
poll_once-IsRunning_example = poll_once-IsRunning idle busy_world idle-IsRunning

abbrev clean_close : Closing
clean_close = record { flushed = done; synced = synced; closed = done }

run-Exits_example :
    (x : Receiver × ℕ) × (run idle (busy_world ∷ busy_world ∷ []) 2000 clean_close ≡ some x)
    × Exits x
run-Exits_example = run-Exits idle (busy_world ∷ busy_world ∷ []) 2000 clean_close idle-IsRunning

idle-IsFaithful : IsFaithful 2 sent_three idle.reassembler
unfolding find new_receiver init
idle-IsFaithful = record { partial = λ k e f. cc f }

first_datagram-IsGenuine : IsGenuine 2 sent_three first_datagram first_header first_payload
first_datagram-IsGenuine = record {
  parsed = λ h0.
      parse_datagram-encode_header first_header h0 first_payload first_header-IsHeader refl
        first_header-IsFragment;
  fragment = first_header-IsFragmentOf;
}

handle_datagram-Relays_example :
    (q : Receiver) × (handle_datagram idle first_datagram 5 wrote wrote ≡ some q)
    × IsRunning q
    × IsFaithful 2 sent_three q.reassembler
    × (q.stats.malformed ≡ idle.stats.malformed)
    × Relays sent_three (header_key first_header) idle wrote wrote q
unfolding new_receiver init
handle_datagram-Relays_example =
    handle_datagram-Relays 2 sent_three idle first_datagram first_header first_payload 5 wrote wrote
      (omega arith) first_datagram-IsGenuine (omega arith) idle-IsFaithful idle-IsRunning

-- The clock shows 5 at the first datagram, 6 at the second one.
transmit-Arrives_example :
    (ds : List Bytes) × ((transmit bridge_config 7 quiet_link three_bytes 0 100).0.net.wire
      ≡ quiet_link.net.wire ++ ds)
    × Arrives
        (λ i. 5 + i)
        wrote
        wrote
        (sent_message sent_three (record { source_id = 7; sequence = 5 }))
        0
        idle
        ds
unfolding find new_receiver init fragment_payload
transmit-Arrives_example =
    transmit-Arrives (λ i. 5 + i) wrote wrote bridge_config 7 quiet_link three_bytes 0 100
      sent_three idle three_bytes-CanSend
      (transmit_whole bridge_config 7 quiet_link three_bytes 0 100 three_bytes-CanSend tt) refl refl
      (omega arith) idle-IsFaithful idle-IsRunning

-- A datagram of one byte.
abbrev after_noise : Receiver
after_noise = record idle {
  stats = record idle.stats { malformed = 1; malformed_by_reason = ("truncated", 1) ∷ [] };
  malformed_log_budget = 19;
}

handle_datagram_counts_example :
    (((parse_datagram (1 ∷ []) default_header).err ≢ no_error) × IsRefused idle after_noise)
    ⊎ (((parse_datagram (1 ∷ []) default_header).err ≡ no_error)
        × (a : Added) × (add idle.reassembler
              (parse_datagram (1 ∷ []) default_header).hdr
              (parse_datagram (1 ∷ []) default_header).payload
              5
            ≡ some a)
        × IsTaken idle after_noise 1 wrote wrote a)
unfolding handle_datagram new_receiver parse_datagram to_string find assign
handle_datagram_counts_example = handle_datagram_counts idle after_noise (1 ∷ []) 5 wrote wrote refl

abbrev good_disk : Disk
good_disk = record { opened = done; header = wrote; created_ns = 1; flushed = done; synced = done }

set_recording-Switches_example : Switches idle true good_disk (set_recording idle true good_disk)
set_recording-Switches_example = set_recording-Switches idle true good_disk

record_command : command_of (normalise (codes "  Record=ON ")) ≡ record_on
unfolding normalise command_of
record_command = refl

two_words : command_of (normalise (codes "record__off")) ≡ record_off
unfolding normalise command_of
two_words = refl

no_command : command_of (normalise (codes "recordon")) ≡ unknown
unfolding normalise command_of
no_command = refl
