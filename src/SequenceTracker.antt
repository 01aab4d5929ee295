-- ===== src/SequenceTracker.antt =====
-- tools/receiver/include/ipcrelay/sequence_tracker.hpp and tools/receiver/lib/sequence_tracker.cpp:
-- gaps in the sequence numbers of each source. All counters are uint64_t and wrap.
pub mod Runs
use ipc_data_relay.Common.{
  ℕ, ◌+◌, ◌-◌, ◌%◌, ◌^◌, Bool, true, false, ◌||◌, List, [], Option, none, some, ltb, ◌==◌,
  if◌then◌else◌,
}
use ipc_data_relay.Common.Assoc.{find, assign}
use ipc_data_relay.Common.NatKey.{ℕ-eq}

pub record SourceSequenceState : Type 0 where
  pub seen : Bool
  pub last_sequence : ℕ
  pub gap_events : ℕ
  pub missing : ℕ
  pub out_of_order : ℕ

abbrev pub unseen : SourceSequenceState
unseen = record { seen = false; last_sequence = 0; gap_events = 0; missing = 0; out_of_order = 0 }

-- `in_order` and `out_of_order` are InOrder and OutOfOrder.
pub data Outcome : Type 0 where
  first in_order gap out_of_order : Outcome

-- What `observe` does to the state of a source: the state after it, the outcome and `missing`.
pub record Observed : Type 0 where
  pub state : SourceSequenceState
  pub outcome : Outcome
  pub missing : ℕ

-- uint64_t arithmetic
abbrev pub add64 : ℕ → ℕ → ℕ
add64 a b = (a + b) % 2 ^ 64

abbrev pub sub64 : ℕ → ℕ → ℕ
sub64 a b = (a + 2 ^ 64 - b) % 2 ^ 64

abbrev pub expected : SourceSequenceState → ℕ
expected s = add64 s.last_sequence 1

unfoldable pub observe_state : SourceSequenceState → ℕ → Observed
observe_state s seq =
    if s.seen
    then (if seq == expected s
        then record { state = record s { last_sequence = seq }; outcome = in_order; missing = 0 }
        else if ltb (expected s) seq
        then record {
          state = record s {
            last_sequence = seq;
            gap_events = add64 s.gap_events 1;
            missing = add64 s.missing (sub64 seq (expected s));
          };
          outcome = gap;
          missing = sub64 seq (expected s);
        }
        else record {
          state = record s {
            last_sequence =
                if ltb (add64 seq 1000) s.last_sequence || seq == 0 then seq else s.last_sequence;
            out_of_order = add64 s.out_of_order 1;
          };
          outcome = out_of_order;
          missing = 0;
        })
    else record {
      state = record s { seen = true; last_sequence = seq };
      outcome = first;
      missing = 0;
    }

-- sources_[source_id]: a key that is not there is given a new state.
abbrev pub Tracker : Type 0
Tracker = List (ℕ × SourceSequenceState)

abbrev pub state_or_new : Option SourceSequenceState → SourceSequenceState
state_or_new none = unseen
state_or_new (some s) = s

abbrev pub state_of : Tracker → ℕ → SourceSequenceState
state_of t source_id = state_or_new (find t source_id)

unfoldable pub observe : Tracker → ℕ → ℕ → Tracker × Outcome × ℕ
unfolding observe_state
observe t source_id seq =
    let o = observe_state (state_of t source_id) seq in
    (assign t source_id o.state, o.outcome, o.missing)
