-- ===== src/Tests/BridgeTests.antt =====
-- The bridge (src/bridge/bridge.cpp) and the sequence numbers of its messages
-- (tools/receiver/lib/sequence_tracker.cpp) on concrete messages.
use ipc_data_relay.Common.{
  ◌≡◌, ◌≤◌, ◌↔◌, refl, true, List, [], ◌∷◌, ◌++◌, ◌+◌, arith, length, ltb, if◌then◌else◌, take,
  drop,
}
use ipc_data_relay.Byteorder.{Bytes}
use ipc_data_relay.Wire.{fragment_count_for}
use ipc_data_relay.Bridge.{transmit, plus64, service_loop, Link, sent}
use ipc_data_relay.Bridge.Config.{fragment_payload}
use ipc_data_relay.Bridge.Rounds.{CanSend, Carries}
use ipc_data_relay.Bridge.Send.{AllFrom, transmit-Carries, transmit_whole, transmit_counts}
use ipc_data_relay.Bridge.Service.{
  Arrival, message, interruption, inbox, forward, with_batch_hit, service_loop_forwards,
}
use ipc_data_relay.SequenceTracker.{SourceSequenceState}
use ipc_data_relay.SequenceTracker.Runs.{observe_all, last_of, observe_all_missing}
use ipc_data_relay.Tests.Data.{three_bytes, bridge_config, quiet_link}

pub three_bytes-CanSend : CanSend 7 (fragment_payload bridge_config) 0 5 100 three_bytes
unfolding fragment_payload fragment_count_for
three_bytes-CanSend = record {
  id_fits = omega arith;
  chunk_pos = omega arith;
  chunk_fits = omega arith;
  flags_fit = omega arith;
  flags_whole = refl;
  sequence_fits = omega arith;
  timestamp_fits = omega arith;
  length_fits = omega arith;
  count_fits = omega arith;
}

transmit-Carries_example :
    (ds : List Bytes) × ((transmit bridge_config 7 quiet_link three_bytes 0 100).0.net.wire
      ≡ quiet_link.net.wire ++ ds)
    × AllFrom (Carries 7 (fragment_payload bridge_config) 0 5 100 three_bytes) 0 ds
    × (length ds ≤ fragment_count_for 3 (fragment_payload bridge_config))
    × (((transmit bridge_config 7 quiet_link three_bytes 0 100).1 ≡ true)
        ↔ (length ds ≡ fragment_count_for 3 (fragment_payload bridge_config)))
transmit-Carries_example =
    transmit-Carries bridge_config 7 quiet_link three_bytes 0 100 three_bytes-CanSend

-- A socket that has answered twice before.
abbrev answered_link : Link
answered_link = record quiet_link {
  net = record quiet_link.net { results = sent 43 ∷ sent 43 ∷ [] };
}

transmit_whole_example : (transmit bridge_config 7 answered_link three_bytes 0 100).1 ≡ true
transmit_whole_example =
    transmit_whole bridge_config 7 answered_link three_bytes 0 100 three_bytes-CanSend tt

transmit_counts_example :
    ((transmit bridge_config 7 quiet_link three_bytes 0 100).0.st.messages ≡ plus64 0 1)
    × ((transmit bridge_config 7 quiet_link three_bytes 0 100).0.st.bytes ≡ plus64 0 3)
    × ((transmit bridge_config 7 quiet_link three_bytes 0 100).0.st.next_sequence ≡ plus64 5 1)
transmit_counts_example = transmit_counts bridge_config 7 quiet_link three_bytes 0 100

abbrev three_arrivals : List Arrival
three_arrivals =
    interruption
    ∷ message three_bytes [] 100
    ∷ message three_bytes (record { interruptions = 2; bytes = three_bytes } ∷ []) 101
    ∷ []

service_loop_forwards_example : service_loop bridge_config 7 2 (inbox three_arrivals) quiet_link ≡ (
    if ltb (length three_arrivals) 2
    then ([], forward bridge_config 7 quiet_link three_arrivals)
    else (
      inbox (drop 2 three_arrivals),
      with_batch_hit (forward bridge_config 7 quiet_link (take 2 three_arrivals)),
    ))
service_loop_forwards_example = service_loop_forwards bridge_config 7 2 three_arrivals quiet_link

abbrev seen_five : SourceSequenceState
seen_five = record { seen = true; last_sequence = 5; gap_events = 0; missing = 0; out_of_order = 0 }

observe_all_missing_example :
    ((observe_all seen_five (7 ∷ 8 ∷ 12 ∷ [])).missing + 5 + 3 ≡ 0 + last_of 5 (7 ∷ 8 ∷ 12 ∷ []))
    × ((observe_all seen_five (7 ∷ 8 ∷ 12 ∷ [])).out_of_order ≡ 0)
    × ((observe_all seen_five (7 ∷ 8 ∷ 12 ∷ [])).last_sequence ≡ last_of 5 (7 ∷ 8 ∷ 12 ∷ []))
observe_all_missing_example =
    observe_all_missing seen_five (7 ∷ 8 ∷ 12 ∷ []) refl
      (omega arith, (omega arith, (omega arith, omega arith))) (omega arith)
