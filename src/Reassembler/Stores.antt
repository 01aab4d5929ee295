-- ===== src/Reassembler/Stores.antt =====
-- What Reassembler::add (tools/receiver/lib/reassembler.cpp) leaves of a fragment that completes nothing.
use ipc_data_relay.Common.{
  ℕ, suc, [], ◌∷◌, ◌++◌, ◌≡◌, ◌≢◌, refl, ap, subst, Bool, true, false, not, ◌||◌, ltb, ◌==◌,
  if◌then◌else◌, Option, none, some, some-inj, Bool-cases, inl, inr, get_or, arith,
}
use ipc_data_relay.Common.Assoc.{find, assign, find-assign}
use ipc_data_relay.Byteorder.{Bytes}
use ipc_data_relay.Wire.{Header}
use ipc_data_relay.Reassembler.Entries.{get_or-replicate}
use ipc_data_relay.Reassembler.{
  Key, key_eq_iff, Key-eq, Entry, Reassembler, Added, incomplete, duplicate, fresh_entry,
  header_key, receive, settle, add_to_entry, add_new, make_room, pending, add_fragment, add,
}

-- The entry of the fragment's message, as it was, or a new one.
abbrev pub entry_for : Option Entry → Header → ℕ → Entry
entry_for none hdr now_ns = fresh_entry hdr now_ns
entry_for (some e) hdr now_ns = e

-- An incomplete message is stored with the fragment copied into it and marked; a duplicate changes
-- nothing, and its fragment was marked before.
abbrev pub Stores : Reassembler → Header → Bytes → ℕ → Added → Type 0
Stores r hdr payload now_ns a =
    (a.result ≡ incomplete
      → find a.state.entries (header_key hdr)
        ≡ some (receive (entry_for (find r.entries (header_key hdr)) hdr now_ns) hdr payload))
    × (a.result ≡ duplicate
        → (a.state ≡ r)
          × ((e : Entry) × (find r.entries (header_key hdr) ≡ some e)
              × (get_or e.received hdr.fragment_index 0 ≢ 0)))

find-assign_same : (r : Reassembler) (k : Key) (e : Entry) → find (assign r.entries k e) k ≡ some e
find-assign_same r k e = ground (arith, find-assign r.entries k k e, key_eq_iff k k)

settle_stores :
    (r : Reassembler) (hdr : Header) (e : Entry) (new : Bool)
    → ((settle r hdr e new).result ≡ incomplete
        → find (settle r hdr e new).state.entries (header_key hdr) ≡ some e)
      × ((settle r hdr e new).result ≢ duplicate)
unfolding settle
settle_stores r hdr e new = elim (Bool-cases (ltb e.fragments_received e.fragment_count)) [
  | inl more ↦ rw more (λ _. find-assign_same r (header_key hdr) e, λ d. cc)
  | inr whole ↦ rw whole (λ d. absurd (cc), λ d. cc)
]

if-elim :
    (P : Added → Type 0) (b : Bool) (x y : Added)
    → (b ≡ true → P x)
    → (b ≡ false → P y)
    → P (if b then x else y)
if-elim P true x y h k = h refl
if-elim P false x y h k = k refl

-- The same of a fragment for an entry `e`.
abbrev StoresIn : Reassembler → Header → Bytes → Entry → Added → Type 0
StoresIn r hdr payload e a =
    (a.result ≡ incomplete → find a.state.entries (header_key hdr) ≡ some (receive e hdr payload))
    × (a.result ≡ duplicate → (a.state ≡ r) × (get_or e.received hdr.fragment_index 0 ≢ 0))

add_to_entry-StoresIn :
    (r : Reassembler) (hdr : Header) (payload : Bytes) (e : Entry) (new : Bool)
    → StoresIn r hdr payload e (add_to_entry r hdr payload e new)
unfolding add_to_entry
add_to_entry-StoresIn r hdr payload e new =
    let P : Added → Type 0 = StoresIn r hdr payload e in
    if-elim P
      (not (hdr.fragment_count == e.fragment_count) || not (hdr.message_length == e.message_length))
      _ _ (λ _. (λ d. absurd (cc), λ d. absurd (cc)))
      (λ _.
        if-elim P (not (get_or e.received hdr.fragment_index 0 == 0)) _ _
          (λ marked. (λ d. absurd (cc), λ _. (refl, ground arith)))
          (λ _.
            let s = settle_stores r hdr (receive e hdr payload) new in (s.0, λ d. absurd (s.1 d))))

add_new-Stores :
    (o : Option Reassembler) (r : Reassembler) (hdr : Header) (payload : Bytes) (now_ns : ℕ)
    (a : Added)
    → find r.entries (header_key hdr) ≡ none
    → add_new o hdr payload now_ns ≡ some a
    → Stores r hdr payload now_ns a
unfolding add_new
add_new-Stores none r hdr payload now_ns a new run = absurd (cc)
add_new-Stores (some q) r hdr payload now_ns a new run =
    let k = header_key hdr in
    let e = fresh_entry hdr now_ns in
    let r' : Reassembler = record q { entries = assign q.entries k e; order = q.order ++ k ∷ [] } in
    let s =
      subst (StoresIn r' hdr payload e) (some-inj run)
        (add_to_entry-StoresIn r' hdr payload e true) in
    (
      λ i. rw new (s.0 i),
      λ d. absurd ((s.1 d).1 (get_or-replicate hdr.fragment_count hdr.fragment_index)),
    )

add_fragment-Stores :
    (o : Option Entry) (r : Reassembler) (hdr : Header) (payload : Bytes) (now_ns : ℕ) (a : Added)
    → find r.entries (header_key hdr) ≡ o
    → add_fragment r hdr payload now_ns o ≡ some a
    → Stores r hdr payload now_ns a
unfolding add_fragment
add_fragment-Stores none r hdr payload now_ns a e run =
    add_new-Stores (make_room (suc (pending r)) r) r hdr payload now_ns a e run
add_fragment-Stores (some v) r hdr payload now_ns a e run =
    let s =
      subst (StoresIn r hdr payload v) (some-inj run)
        (add_to_entry-StoresIn r hdr payload v false) in
    (λ i. rw e (s.0 i), λ d. ((s.1 d).0, (v, e, (s.1 d).1)))

pub add-Stores :
    (r : Reassembler) (hdr : Header) (payload : Bytes) (now_ns : ℕ) (a : Added)
    → add r hdr payload now_ns ≡ some a
    → Stores r hdr payload now_ns a
unfolding add
add-Stores r hdr payload now_ns a run = elim (Bool-cases (hdr.fragment_count == 1)) [
  | inl one ↦
      let e = ap (λ (x : Added). x.result) (some-inj (rw one at run)) in
      (λ d. absurd (cc), λ d. absurd (cc))
  | inr several ↦ elim (Bool-cases (ltb r.cfg.max_message_length hdr.message_length)) [
    | inl long ↦
        let e = ap (λ (x : Added). x.result) (some-inj (rw (several, long) at run)) in
        (λ d. absurd (cc), λ d. absurd (cc))
    | inr fits ↦
        add_fragment-Stores (find r.entries (header_key hdr)) r hdr payload now_ns a refl
          (rw (several, fits) at run)
  ]
]
