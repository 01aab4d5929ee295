-- ===== src/Tests/ReassemblerTests.antt =====
-- The reassembler (tools/receiver/lib/reassembler.cpp) on concrete fragments.
use ipc_data_relay.Reassembler.Kept.{expire_kept}
use ipc_data_relay.Common.{
  List, [], ◌∷◌, ◌⊎◌, ◌≤◌, ◌+◌, ◌-◌, ◌%◌, ◌^◌, ℕ, ◌≡◌, refl, Option, none, some, arith,
}
use ipc_data_relay.Common.Assoc.{find, assign, erase}
use ipc_data_relay.Wire.{fragment_count_for}
use ipc_data_relay.Reassembler.{
  Reassembler, Key-eq, Added, Result, complete, malformed, make_room, header_key, fresh_entry, add,
  expire,
}
use ipc_data_relay.Reassembler.Entries.{IsFragmentOf}
use ipc_data_relay.Reassembler.Room.{IsBounded, add-IsBounded}
use ipc_data_relay.Reassembler.Sound.{IsFaithful, sent_message}
use ipc_data_relay.Reassembler.Stores.{Stores}
use ipc_data_relay.Reassembler.Delivers.{Delivers, add-Delivers}
use ipc_data_relay.Reassembler.Whole.{Incoming, Completes, add-Completes}
use ipc_data_relay.Tests.Data.{
  sent_three, first_header, second_header, first_payload, second_payload, small_reassembler,
}

pub small_reassembler-IsBounded : IsBounded small_reassembler
unfolding find
small_reassembler-IsBounded = record {
  tracked = λ k e f. cc f;
  positive = omega arith;
  room = omega arith;
}

pub small_reassembler-IsFaithful : IsFaithful 2 sent_three small_reassembler
unfolding find
small_reassembler-IsFaithful = record { partial = λ k e f. cc f }

pub first_header-IsFragmentOf :
    IsFragmentOf 2 (sent_three (header_key first_header)) first_header first_payload
unfolding fragment_count_for
first_header-IsFragmentOf = record {
  count = refl;
  small = omega arith;
  total = refl;
  index = omega arith;
  offset = refl;
  size = refl;
  bytes = refl;
  timestamp = refl;
  flags = refl;
}

add-IsBounded_example :
    (a : Added) × (add small_reassembler first_header first_payload 3 ≡ some a) × IsBounded a.state
add-IsBounded_example =
    add-IsBounded small_reassembler first_header first_payload 3 small_reassembler-IsBounded

add-Delivers_example :
    (a : Added) × (add small_reassembler first_header first_payload 3 ≡ some a)
    × IsFaithful 2 sent_three a.state
    × IsBounded a.state
    × Delivers (sent_message sent_three (header_key first_header)) a
    × Stores small_reassembler first_header first_payload 3 a
add-Delivers_example =
    add-Delivers 2 sent_three first_header first_payload small_reassembler 3 (omega arith)
      first_header-IsFragmentOf (omega arith) small_reassembler-IsFaithful
      small_reassembler-IsBounded

second_header-IsFragmentOf :
    IsFragmentOf 2 (sent_three (header_key second_header)) second_header second_payload
unfolding fragment_count_for
second_header-IsFragmentOf = record {
  count = refl;
  small = omega arith;
  total = refl;
  index = omega arith;
  offset = refl;
  size = refl;
  bytes = refl;
  timestamp = refl;
  flags = refl;
}

-- The second fragment comes first.
abbrev swapped : List Incoming
swapped =
    record { hdr = second_header; payload = second_payload; now_ns = 3 }
    ∷ record { hdr = first_header; payload = first_payload; now_ns = 4 }
    ∷ []

add-Completes_example :
    Completes (sent_message sent_three (header_key first_header)) small_reassembler swapped
unfolding fragment_count_for find
add-Completes_example =
    add-Completes 2 sent_three (header_key first_header) (omega arith) swapped small_reassembler
      (refl, second_header-IsFragmentOf, (refl, first_header-IsFragmentOf, tt))
      ((omega arith, tt), (tt, tt)) refl refl (omega arith) small_reassembler-IsFaithful
      small_reassembler-IsBounded

abbrev waiting : Reassembler
waiting = record small_reassembler {
  entries = (header_key first_header, fresh_entry first_header 0) ∷ [];
  order = header_key first_header ∷ [];
}

expire_kept_example :
    (find (expire 9 waiting).state.entries (header_key first_header)
      ≡ some (fresh_entry first_header 0))
    ⊎ (10 ≤ (9 + 2 ^ 64 - 0) % 2 ^ 64)
unfolding find
expire_kept_example =
    expire_kept 9 waiting (header_key first_header) (fresh_entry first_header 0) refl

-- The object after a fragment, and what was handed out.
abbrev state_after : Option Added → Reassembler
state_after none = small_reassembler
state_after (some a) = a.state

abbrev result_of : Option Added → Result
result_of none = malformed
result_of (some a) = a.result

add_second : Reassembler → ℕ → Option Added
add_second r now_ns = add r second_header second_payload now_ns

add_first : Reassembler → ℕ → Option Added
add_first r now_ns = add r first_header first_payload now_ns

-- Both fragments, in the wrong order.
two_fragments : result_of (add_first (state_after (add_second small_reassembler 0)) 1) ≡ complete
unfolding add_first add_second add find make_room assign
two_fragments = refl

-- Message 5 begins at 0, message 6 at 1; 5 is completed at 2, and its first fragment comes again at
-- 8. At 12 message 6 is 11 old, with a timeout of 10, but the key of message 5 stands in front of it
-- in the deque, and its new entry is young: nothing expires.
late_duplicate : Reassembler
late_duplicate =
    let one = state_after (add_first small_reassembler 0) in
    let two = state_after (add one (record first_header { sequence = 6 }) first_payload 1) in
    state_after (add_first (state_after (add_second two 2)) 8)

hidden_behind_duplicate : (expire 12 late_duplicate).expired ≡ 0
unfolding late_duplicate add_first add_second add expire find make_room assign erase
hidden_behind_duplicate = refl
