-- ===== src/Reassembler.antt =====
-- tools/receiver/include/ipcrelay/reassembler.hpp and tools/receiver/lib/reassembler.cpp: fragments
-- are collected under (source_id, sequence) until the message is complete or too old.
-- The unordered_map is an association list, the deque `order_` a list with its front first, the
-- callback `on_expired` the list of its arguments. A pointer with a length is the list of the bytes.
pub mod Tracks
pub mod Room
pub mod Entries
pub mod Sound
pub mod Stores
pub mod Delivers
pub mod Whole
pub mod Kept
use ipc_data_relay.Common.{
  ℕ, zero, suc, ◌+◌, ◌-◌, ◌*◌, ◌%◌, ◌^◌, ◌≡◌, ◌↔◌, refl, ap₂, Bool, true, false, not, ◌&&◌, ◌||◌,
  List, [], ◌∷◌, ◌++◌, Option, none, some, arith, ltb, leb, ◌==◌, if◌then◌else◌, length, take,
  get_or, set, replicate, write,
}
use ipc_data_relay.Common.Assoc.{Eq, find, assign, erase}
use ipc_data_relay.Byteorder.{Bytes}
use ipc_data_relay.Wire.{Header}

pub record CompletedMessage : Type 0 where
  pub source_id : ℕ
  pub sequence : ℕ
  pub timestamp_ns : ℕ
  pub flags : ℕ
  pub bytes : Bytes
  pub size : ℕ

abbrev pub no_message : CompletedMessage
no_message = record {
  source_id = 0;
  sequence = 0;
  timestamp_ns = 0;
  flags = 0;
  bytes = [];
  size = 0;
}

pub record ExpiredMessage : Type 0 where
  pub source_id : ℕ
  pub sequence : ℕ
  pub fragments_received : ℕ
  pub fragment_count : ℕ

pub record Config : Type 0 where
  pub max_pending : ℕ
  pub timeout_ns : ℕ
  pub max_message_length : ℕ

pub data Result : Type 0 where
  complete incomplete duplicate malformed : Result

pub record Key : Type 0 where
  pub source_id : ℕ
  pub sequence : ℕ

abbrev pub key_eq : Key → Key → Bool
key_eq a b = a.source_id == b.source_id && a.sequence == b.sequence

pub key_eq_iff : (a b : Key) → (key_eq a b ≡ true) ↔ (a ≡ b)
key_eq_iff a b = ground arith

instance abbrev pub Key-eq : Eq Key
Key-eq = record { beq = key_eq; beq_iff = key_eq_iff }

pub record Entry : Type 0 where
  pub first_seen_ns : ℕ
  pub timestamp_ns : ℕ
  pub flags : ℕ
  pub fragment_count : ℕ
  pub fragments_received : ℕ
  pub message_length : ℕ
  pub buffer : Bytes
  pub received : Bytes

pub record Reassembler : Type 0 where
  pub cfg : Config
  pub entries : List (Key × Entry)
  pub order : List Key
  pub completed : Bytes
  pub evictions : ℕ

unfoldable pub init : Config → Reassembler
init cfg = record { cfg = cfg; entries = []; order = []; completed = []; evictions = 0 }

abbrev pub pending : Reassembler → ℕ
pending r = length r.entries

abbrev pub expired_message : Key → Entry → ExpiredMessage
expired_message k e = record {
  source_id = k.source_id;
  sequence = k.sequence;
  fragments_received = e.fragments_received;
  fragment_count = e.fragment_count;
}

-- The loop of evict_oldest over the keys that `order_` holds; what it reports goes to the callback.
unfoldable pub evict_order : Reassembler → List Key → Reassembler × Option ExpiredMessage
evict_order r [] = (record r { order = [] }, none)
evict_order r (k ∷ ks) = elim (find r.entries k) [
  | none ↦ evict_order r ks
  | some e ↦ (
    record r { order = ks; evictions = (r.evictions + 1) % 2 ^ 64; entries = erase r.entries k },
    some (expired_message k e),
  )
]

unfoldable pub evict_oldest : Reassembler → Reassembler × Option ExpiredMessage
unfolding evict_order
evict_oldest r = evict_order r r.order

-- while (entries_.size() >= cfg_.max_pending) evict_oldest(nullptr); `none`: the fuel ran out.
unfoldable pub make_room : ℕ → Reassembler → Option Reassembler
make_room zero r = none
make_room (suc fuel) r =
    let rest = make_room fuel (evict_oldest r).0 in
    if leb r.cfg.max_pending (pending r) then rest else some r

-- What `add` returns: the object after the call, the result and the two out parameters.
pub record Added : Type 0 where
  pub state : Reassembler
  pub result : Result
  pub out : CompletedMessage
  pub new_message : Bool

abbrev pub fresh_entry : Header → ℕ → Entry
fresh_entry hdr now_ns = record {
  first_seen_ns = now_ns;
  timestamp_ns = hdr.timestamp_ns;
  flags = hdr.flags;
  fragment_count = hdr.fragment_count;
  fragments_received = 0;
  message_length = hdr.message_length;
  buffer = replicate hdr.message_length 0;
  received = replicate hdr.fragment_count 0;
}

abbrev pub header_key : Header → Key
header_key hdr = record { source_id = hdr.source_id; sequence = hdr.sequence }

-- The entry after the fragment was copied into it.
unfoldable pub receive : Entry → Header → Bytes → Entry
receive e hdr payload = record e {
  buffer =
      if ltb 0 hdr.fragment_length
      then write e.buffer hdr.fragment_offset (take hdr.fragment_length payload)
      else e.buffer;
  received = set e.received hdr.fragment_index 1;
  fragments_received = (e.fragments_received + 1) % 2 ^ 16;
}

-- `add` after the copy: wait for more, or hand the message out and drop the entry.
unfoldable pub settle : Reassembler → Header → Entry → Bool → Added
settle r hdr e new =
    let k = header_key hdr in
    if ltb e.fragments_received e.fragment_count
    then record {
      state = record r { entries = assign r.entries k e };
      result = incomplete;
      out = no_message;
      new_message = new;
    }
    else record {
      state = record r { entries = erase r.entries k; completed = e.buffer };
      result = complete;
      out = record {
        source_id = hdr.source_id;
        sequence = hdr.sequence;
        timestamp_ns = e.timestamp_ns;
        flags = e.flags;
        bytes = e.buffer;
        size = length e.buffer;
      };
      new_message = new;
    }

-- `add` from the point where the entry of the key is known.
unfoldable pub add_to_entry : Reassembler → Header → Bytes → Entry → Bool → Added
unfolding receive settle
add_to_entry r hdr payload e new =
    if not (hdr.fragment_count == e.fragment_count) || not (hdr.message_length == e.message_length)
    then record {
      state = record r { entries = erase r.entries (header_key hdr) };
      result = malformed;
      out = no_message;
      new_message = new;
    }
    else if not (get_or e.received hdr.fragment_index 0 == 0)
    then record { state = r; result = duplicate; out = no_message; new_message = new }
    else settle r hdr (receive e hdr payload) new

-- The branch for a key that is not there yet: room is made, and a new entry goes to the end.
unfoldable pub add_new : Option Reassembler → Header → Bytes → ℕ → Option Added
unfolding add_to_entry
add_new none hdr payload now_ns = none
add_new (some r) hdr payload now_ns =
    let k = header_key hdr in
    let e = fresh_entry hdr now_ns in
    let r' : Reassembler = record r { entries = assign r.entries k e; order = r.order ++ k ∷ [] } in
    some (add_to_entry r' hdr payload e true)

unfoldable pub add_fragment : Reassembler → Header → Bytes → ℕ → Option Entry → Option Added
unfolding add_new add_to_entry
add_fragment r hdr payload now_ns none = add_new (make_room (suc (pending r)) r) hdr payload now_ns
add_fragment r hdr payload now_ns (some e) = some (add_to_entry r hdr payload e false)

-- `none`: the loop that makes room did not end (Room: it always does, with max_pending above 0).
unfoldable pub add : Reassembler → Header → Bytes → ℕ → Option Added
unfolding add_fragment
add r hdr payload now_ns =
    if hdr.fragment_count == 1
    then some (record {
      state = r;
      result = complete;
      out = record {
        source_id = hdr.source_id;
        sequence = hdr.sequence;
        timestamp_ns = hdr.timestamp_ns;
        flags = hdr.flags;
        bytes = take hdr.fragment_length payload;
        size = hdr.fragment_length;
      };
      new_message = true;
    })
    else if ltb r.cfg.max_message_length hdr.message_length
    then some (record { state = r; result = malformed; out = no_message; new_message = false })
    else add_fragment r hdr payload now_ns (find r.entries (header_key hdr))

-- What `expire` returns: the object, the arguments of the callback in order, and the count.
pub record Expiry : Type 0 where
  pub state : Reassembler
  pub reported : List ExpiredMessage
  pub expired : ℕ

-- The first loop of `expire`. The age is a difference of uint64_t.
unfoldable pub expire_order : ℕ → Reassembler → List Key → Expiry
expire_order now_ns r [] = record { state = record r { order = [] }; reported = []; expired = 0 }
expire_order now_ns r (k ∷ ks) = elim (find r.entries k) [
  | none ↦ expire_order now_ns r ks
  | some e ↦
      let rest = expire_order now_ns (record r { entries = erase r.entries k }) ks in
      if ltb ((now_ns + 2 ^ 64 - e.first_seen_ns) % 2 ^ 64) r.cfg.timeout_ns
      then record { state = record r { order = k ∷ ks }; reported = []; expired = 0 }
      else record {
        state = rest.state;
        reported = expired_message k e ∷ rest.reported;
        expired = rest.expired + 1;
      }
]

-- The keys that are still in the map.
unfoldable pub live_keys : List (Key × Entry) → List Key → List Key
live_keys entries [] = []
live_keys entries (k ∷ ks) =
    let rest = live_keys entries ks in elim (find entries k) [ none ↦ rest | some e ↦ k ∷ rest ]

unfoldable pub compact : Reassembler → Reassembler
unfolding live_keys
compact r =
    if ltb (length r.entries * 4 + 64) (length r.order)
    then record r { order = live_keys r.entries r.order }
    else r

unfoldable pub expire : ℕ → Reassembler → Expiry
unfolding expire_order compact
expire now_ns r =
    let x = expire_order now_ns r r.order in
    record { state = compact x.state; reported = x.reported; expired = x.expired }
