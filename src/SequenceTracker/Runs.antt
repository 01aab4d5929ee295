-- ===== src/SequenceTracker/Runs.antt =====
-- What `observe` (sequence_tracker.cpp) makes of several messages of a source, one after the other.
use ipc_data_relay.Common.{
  ℕ, ◌+◌, ◌^◌, ◌≤◌, ◌<◌, ◌≡◌, ◌≢◌, refl, ◌∙◌, true, List, [], ◌∷◌, arith, length,
}
use ipc_data_relay.Common.Assoc.{find-assign}
use ipc_data_relay.Common.NatKey.{ℕ-eq}
use ipc_data_relay.SequenceTracker.{SourceSequenceState, observe_state, Tracker, state_of, observe}

-- The state of a source after messages with these sequence numbers.
pub observe_all : SourceSequenceState → List ℕ → SourceSequenceState
observe_all s [] = s
observe_all s (seq ∷ seqs) = observe_all (observe_state s seq).state seqs

-- Sequence numbers of 64 bits, each larger than the one before it.
abbrev pub Ascending : ℕ → List ℕ → Type 0
Ascending last [] = last < 2 ^ 64
Ascending last (seq ∷ seqs) = (last < seq) × Ascending seq seqs

-- The last of them.
abbrev pub last_of : ℕ → List ℕ → ℕ
last_of last [] = last
last_of last (seq ∷ seqs) = last_of seq seqs

Ascending-last_of :
    (last : ℕ) (seqs : List ℕ)
    → Ascending last seqs
    → (last ≤ last_of last seqs) × (last_of last seqs < 2 ^ 64)
Ascending-last_of last [] h = (omega arith, h)
Ascending-last_of last (seq ∷ seqs) (up, h) =
    let (more, bound) = Ascending-last_of seq seqs h in (omega (arith, up, more), bound)

-- One message further on.
observe_up :
    (s : SourceSequenceState) (seq : ℕ)
    → s.seen ≡ true
    → s.last_sequence < seq
    → seq < 2 ^ 64
    → s.missing + seq < 2 ^ 64 + s.last_sequence
    → ((observe_state s seq).state.seen ≡ true)
      × ((observe_state s seq).state.last_sequence ≡ seq)
      × ((observe_state s seq).state.missing + s.last_sequence + 1 ≡ s.missing + seq)
      × ((observe_state s seq).state.out_of_order ≡ s.out_of_order)
unfolding observe_state
observe_up s seq seen up bound room = ground arith

-- Messages of one source whose sequence numbers rise: after them `missing` has grown by the numbers
-- that were passed over (those after the first `last_sequence` up to the new one, less the messages),
-- nothing counts as out of order, and `last_sequence` is the last of them. The counter has room for
-- the numbers in between.
pub observe_all_missing :
    (s : SourceSequenceState) (seqs : List ℕ)
    → s.seen ≡ true
    → Ascending s.last_sequence seqs
    → s.missing + last_of s.last_sequence seqs < 2 ^ 64 + s.last_sequence
    → ((observe_all s seqs).missing + s.last_sequence + length seqs
        ≡ s.missing + last_of s.last_sequence seqs)
      × ((observe_all s seqs).out_of_order ≡ s.out_of_order)
      × ((observe_all s seqs).last_sequence ≡ last_of s.last_sequence seqs)
unfolding observe_all
observe_all_missing s [] seen h room = (omega arith, refl, refl)
observe_all_missing s (seq ∷ seqs) seen (up, h) room =
    let (far, bound) = Ascending-last_of seq seqs h in
    let (seen', last', missing', late') =
      observe_up s seq seen up (omega (arith, far, bound)) (omega (arith, far, room)) in
    let (a, b, c) =
      observe_all_missing (observe_state s seq).state seqs seen' (rw last' h)
        (rw last' (omega (arith, missing', room))) in
    (omega (arith, rw last' at a, missing'), b ∙ late', rw last' at c)

-- A message of one source leaves the state of every other source as it was.
pub observe-other :
    (t : Tracker) (source_id other seq : ℕ)
    → source_id ≢ other
    → state_of (observe t source_id seq).0 other ≡ state_of t other
unfolding observe
observe-other t source_id other seq ne =
    ground (arith, find-assign t source_id other (observe_state (state_of t source_id) seq).state)
