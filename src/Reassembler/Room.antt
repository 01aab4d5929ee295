-- ===== src/Reassembler/Room.antt =====
-- Memory of the reassembler (reassembler.cpp): the loop that makes room ends, and no more than
-- `max_pending` messages are ever in flight.
use ipc_data_relay.Common.{
  ℕ, zero, suc, ◌+◌, ◌*◌, ◌≤◌, ◌<◌, ◌≡◌, refl, ◌∙◌, inl, inr, Bool, true, List, [], ◌∷◌, ◌++◌,
  Option, some, false, arith, ltb, leb, ◌==◌, length, Bool-cases, Option-cases,
}
use ipc_data_relay.Common.Assoc.{
  find, assign, erase, length-erase-le, length-assign-old, length-assign-le, find-assign_self,
}
use ipc_data_relay.Byteorder.{Bytes}
use ipc_data_relay.Wire.{Header}
use ipc_data_relay.Reassembler.{
  Reassembler, Key, Entry, Added, key_eq_iff, Key-eq, header_key, fresh_entry, pending, evict_order,
  evict_oldest, make_room, receive, settle, add_to_entry, add_new, add_fragment, add, expire_order,
  live_keys, compact, expire,
}
use ipc_data_relay.Reassembler.Tracks.{
  contains, Tracks, Tracks-skip, Tracks-erase, Tracks-erase_only, Tracks-assign_old,
  Tracks-assign_new, evict_order-Tracks, evict_order-cfg, evict_order-shrinks, some_key,
}

-- The deque tracks the map, the map is within its bound, and there is a bound.
pub record IsBounded (r : Reassembler) : Type 0 where
  pub tracked : (k : Key) (e : Entry) → find r.entries k ≡ some e → contains r.order k ≡ true
  pub positive : 0 < r.cfg.max_pending
  pub room : pending r ≤ r.cfg.max_pending

-- `make_room` ends below the bound if its fuel is above the number of entries.
make_room_lem :
    (fuel : ℕ) (r : Reassembler)
    → pending r < fuel
    → Tracks r.entries r.order
    → 0 < r.cfg.max_pending
    → (q : Reassembler) × (make_room fuel r ≡ some q)
      × Tracks q.entries q.order
      × (pending q < q.cfg.max_pending)
      × (q.cfg ≡ r.cfg)
unfolding make_room evict_oldest
make_room_lem zero r h t p = absurd (omega arith)
make_room_lem (suc fuel) r h t p = elim (Bool-cases (leb r.cfg.max_pending (pending r))) [
  | inl full ↦
      let (k, e, f) = some_key r.entries (ground arith) in
      let shrinks = evict_order-shrinks r r.order k e f (unfold Tracks in t k e f) in
      let same = evict_order-cfg r r.order in
      let (q, run, t', lt, c) =
        make_room_lem fuel (evict_order r r.order).0 (omega arith) (evict_order-Tracks r r.order t)
          (rw same p) in
      (q, rw full run, t', lt, c ∙ same)
  | inr room ↦ (r, rw room refl, t, ground arith, refl)
]

abbrev Keeps : Reassembler → Reassembler → Type 0
Keeps r q = Tracks q.entries q.order × (q.cfg ≡ r.cfg) × (pending q ≤ pending r)

-- Whatever becomes of a fragment whose entry is in the map, the map does not grow.
settle-Keeps :
    (r : Reassembler) (hdr : Header) (e w : Entry) (new : Bool)
    → Tracks r.entries r.order
    → find r.entries (header_key hdr) ≡ some w
    → Keeps r (settle r hdr e new).state
unfolding settle
settle-Keeps r hdr e w new t f = elim (Bool-cases (ltb e.fragments_received e.fragment_count)) [
  | inl wait ↦ rw wait (
    Tracks-assign_old r.entries (header_key hdr) e w r.order t f,
    refl,
    omega (arith, length-assign-old r.entries (header_key hdr) e w f),
  )
  | inr done ↦ rw done (
    Tracks-erase_only r.entries (header_key hdr) r.order t,
    refl,
    length-erase-le r.entries (header_key hdr),
  )
]

add_to_entry-Keeps :
    (r : Reassembler) (hdr : Header) (payload : Bytes) (e : Entry) (new : Bool)
    → Tracks r.entries r.order
    → find r.entries (header_key hdr) ≡ some e
    → Keeps r (add_to_entry r hdr payload e new).state
unfolding add_to_entry
add_to_entry-Keeps r hdr payload e new t f = ground (
  arith,
  settle-Keeps r hdr (receive e hdr payload) e new t f,
  Tracks-erase_only r.entries (header_key hdr) r.order t,
  length-erase-le r.entries (header_key hdr),
)

IsBounded-of_Keeps :
    (r q : Reassembler)
    → Keeps r q
    → 0 < r.cfg.max_pending
    → pending r ≤ r.cfg.max_pending
    → IsBounded q
IsBounded-of_Keeps r q (t, c, n) p m = record {
  tracked = unfold Tracks in t;
  positive = rw c p;
  room = rw c (omega arith);
}

-- Room is made in a bounded reassembler, and its configuration stays.
pub make_room_ends :
    (r : Reassembler)
    → IsBounded r
    → (q : Reassembler) × (make_room (suc (pending r)) r ≡ some q) × (q.cfg ≡ r.cfg)
make_room_ends r b =
    let (q, run, t, lt, c) =
      make_room_lem (suc (pending r)) r (omega arith) (unfold Tracks in b.tracked) b.positive in
    (q, run, c)

abbrev Adds : Option Added → Type 0
Adds o = (a : Added) × (o ≡ some a) × IsBounded a.state

add_new-Adds :
    (r : Reassembler) (hdr : Header) (payload : Bytes) (now_ns : ℕ)
    → IsBounded r
    → Adds (add_new (make_room (suc (pending r)) r) hdr payload now_ns)
unfolding add_new
add_new-Adds r hdr payload now_ns b =
    let (q, run, t, lt, c) =
      make_room_lem (suc (pending r)) r (omega arith) (unfold Tracks in b.tracked) b.positive in
    let k = header_key hdr in
    let e = fresh_entry hdr now_ns in
    let r' : Reassembler = record q { entries = assign q.entries k e; order = q.order ++ k ∷ [] } in
    let kept =
      add_to_entry-Keeps r' hdr payload e true (Tracks-assign_new q.entries k e q.order t)
        (find-assign_self q.entries k e) in
    (
      add_to_entry r' hdr payload e true,
      rw (run, add_new) refl,
      IsBounded-of_Keeps r' _ kept (rw c b.positive)
          (omega (arith, length-assign-le q.entries k e)),
    )

add_fragment-Adds :
    (r : Reassembler) (hdr : Header) (payload : Bytes) (now_ns : ℕ)
    → IsBounded r
    → Adds (add_fragment r hdr payload now_ns (find r.entries (header_key hdr)))
unfolding add_fragment
add_fragment-Adds r hdr payload now_ns b = elim (Option-cases (find r.entries (header_key hdr))) [
  | inl e ↦ rw (e, add_fragment) (add_new-Adds r hdr payload now_ns b)
  | inr (v, e) ↦
      rw (e, add_fragment)
        (
          _,
          refl,
          IsBounded-of_Keeps r _
              (add_to_entry-Keeps r hdr payload v false (unfold Tracks in b.tracked) e) b.positive
              b.room,
        )
]

-- In a bounded state `add` always returns, so that its loop ends, and the state stays bounded: no
-- more than `max_pending` messages in flight, each with its key in the deque.
pub add-IsBounded :
    (r : Reassembler) (hdr : Header) (payload : Bytes) (now_ns : ℕ)
    → IsBounded r
    → (a : Added) × (add r hdr payload now_ns ≡ some a) × IsBounded a.state
unfolding add
add-IsBounded r hdr payload now_ns b = elim (Bool-cases (hdr.fragment_count == 1)) [
  | inl single ↦ rw single (_, refl, b)
  | inr several ↦ rw several (elim (Bool-cases (ltb r.cfg.max_message_length hdr.message_length)) [
    | inl long ↦ rw long (_, refl, b)
    | inr fits ↦ rw fits (add_fragment-Adds r hdr payload now_ns b)
  ])
]

-- `expire` keeps the bound too.
expire_order-Keeps :
    (now_ns : ℕ) (r : Reassembler) (ks : List Key)
    → Tracks r.entries ks
    → Keeps r (expire_order now_ns r ks).state
unfolding expire_order
expire_order-Keeps now_ns r [] t = (t, refl, omega arith)
expire_order-Keeps now_ns r (k ∷ ks) t = elim (Option-cases (find r.entries k)) [
  | inl e ↦ rw (e, expire_order) (expire_order-Keeps now_ns r ks (Tracks-skip r.entries k ks t e))
  | inr (v, e) ↦
      let rest =
        expire_order-Keeps now_ns (record r { entries = erase r.entries k }) ks
          (Tracks-erase r.entries k ks t) in
      rw (e, expire_order) (ground (arith, t, rest, length-erase-le r.entries k))
]

live_keys-Tracks :
    (m : List (Key × Entry)) (ks : List Key) (k : Key) (e : Entry)
    → find m k ≡ some e
    → contains ks k ≡ true
    → contains (live_keys m ks) k ≡ true
unfolding live_keys contains
live_keys-Tracks m [] k e f h = h
live_keys-Tracks m (j ∷ ks) k e f h = ground (arith, live_keys-Tracks m ks k e, key_eq_iff j k)

-- Dropping the messages that are too old keeps a reassembler within its bound, with every key in the
-- deque.
pub expire-IsBounded :
    (now_ns : ℕ) (r : Reassembler) → IsBounded r → IsBounded (expire now_ns r).state
unfolding expire compact
expire-IsBounded now_ns r b =
    let kept = expire_order-Keeps now_ns r r.order (unfold Tracks in b.tracked) in
    let x = (expire_order now_ns r r.order).state in
    let b' : IsBounded x = IsBounded-of_Keeps r x kept b.positive b.room in
    elim (Bool-cases (ltb (length x.entries * 4 + 64) (length x.order))) [
      | inl long ↦ rw long (record {
        tracked = λ k e f. live_keys-Tracks x.entries x.order k e f (b'.tracked k e f);
        positive = b'.positive;
        room = b'.room;
      })
      | inr short ↦ rw short b'
    ]
