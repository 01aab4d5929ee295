-- ===== src/Reassembler/Sound.antt =====
-- What the reassembler hands out (reassembler.cpp): messages that were sent, whatever the order,
-- the losses and the repetitions of their fragments.
use ipc_data_relay.Common.{
  ℕ, zero, suc, ◌*◌, ◌<◌, ◌≡◌, ◌≢◌, refl, sym, ap, ◌∙◌, subst, subst₂, inl, inr, Bool, true, false,
  [], ◌∷◌, ◌++◌, Option, none, some, arith, ltb, leb, ◌==◌, ==_iff, List, some-inj, length, take,
  drop, take-length, ltb→lt, ap₂, get_or, Bool-cases, Option-cases,
}
use ipc_data_relay.Common.Assoc.{find, assign, erase, find-assign, find-erase}
use ipc_data_relay.Byteorder.{Bytes}
use ipc_data_relay.Wire.{Header}
use ipc_data_relay.Wire.Fragments.{fragment_count_for_bounds}
use ipc_data_relay.Reassembler.{
  Reassembler, Key, Entry, Added, CompletedMessage, complete, malformed, key_eq_iff, Key-eq,
  header_key, fresh_entry, evict_order, evict_oldest, make_room, receive, settle, add_to_entry,
  add_new, add_fragment, add,
}
use ipc_data_relay.Reassembler.Entries.{
  Message, IsFragmentOf, IsPartial, fresh_entry-IsPartial, receive-IsPartial, IsPartial-full,
}

-- The message under each key, as its sender knows it.
abbrev pub Sent : Type 0
Sent = Key → Message

-- Every entry holds part of the message that was sent under its key.
pub record IsFaithful (chunk : ℕ) (sent : Sent) (r : Reassembler) : Type 0 where
  pub partial : (k : Key) (e : Entry) → find r.entries k ≡ some e → IsPartial chunk (sent k) e

-- The message that was sent under a key, as the receiver hands it on.
abbrev pub sent_message : Sent → Key → CompletedMessage
sent_message sent k = record {
  source_id = k.source_id;
  sequence = k.sequence;
  timestamp_ns = (sent k).timestamp_ns;
  flags = (sent k).flags;
  bytes = (sent k).body;
  size = length (sent k).body;
}

no_pieces : (i c : ℕ) → i ≡ 0 → i * c ≡ 0
no_pieces i c h = rw h (omega arith)

module _ (chunk : ℕ) (sent : Sent) where
  abbrev Faithful : Reassembler → Type 0
  Faithful r = IsFaithful chunk sent r

  erase-Faithful :
      (r q : Reassembler) (k : Key) → q.entries ≡ erase r.entries k → Faithful r → Faithful q
  erase-Faithful r q k same h = record {
    partial = λ j e f. h.partial j e (ground (arith, find-erase r.entries k j));
  }

  assign-Faithful :
      (r q : Reassembler) (k : Key) (e : Entry)
      → q.entries ≡ assign r.entries k e
      → IsPartial chunk (sent k) e
      → Faithful r
      → Faithful q
  assign-Faithful r q k e same p h = record {
    partial = λ j v f. elim (Bool-cases (Key-eq.beq k j)) [
      | inl hit ↦
          subst₂ (λ i w. IsPartial chunk (sent i) w) ((key_eq_iff k j).0 hit)
            (ground (arith, find-assign r.entries k j e)) p
      | inr miss ↦ h.partial j v (ground (arith, find-assign r.entries k j e))
    ];
  }

  evict_order-Faithful :
      (r : Reassembler) (ks : List Key) → Faithful r → Faithful (evict_order r ks).0
  unfolding evict_order
  evict_order-Faithful r [] h = record { partial = h.partial }
  evict_order-Faithful r (k ∷ ks) h = elim (Option-cases (find r.entries k)) [
    | inl e ↦ rw (e, evict_order) (evict_order-Faithful r ks h)
    | inr (v, e) ↦ rw (e, evict_order) (erase-Faithful r _ k refl h)
  ]

  make_room-Faithful :
      (fuel : ℕ) (r q : Reassembler) → make_room fuel r ≡ some q → Faithful r → Faithful q
  unfolding make_room evict_oldest
  make_room-Faithful zero r q run h = cc
  make_room-Faithful (suc fuel) r q run h =
      elim (Bool-cases (leb r.cfg.max_pending (length r.entries))) [
        | inl full ↦
            make_room-Faithful fuel (evict_order r r.order).0 q (rw full at run)
              (evict_order-Faithful r r.order h)
        | inr room ↦ subst Faithful (some-inj (rw room at run)) h
      ]

  -- What becomes of a genuine fragment that has an entry: the entries stay faithful, nothing but the
  -- message that was sent is handed out, and the fragment is not refused.
  abbrev Serves : Header → Added → Type 0
  Serves hdr a =
      Faithful a.state
      × (a.result ≡ complete → a.out ≡ sent_message sent (header_key hdr))
      × (a.result ≢ malformed)

  module _ (hdr : Header) (payload : Bytes) (pos : 0 < chunk)
      (f : IsFragmentOf chunk (sent (header_key hdr)) hdr payload) where
    settle-Serves :
        (r : Reassembler) (e : Entry) (new : Bool)
        → Faithful r
        → IsPartial chunk (sent (header_key hdr)) e
        → Serves hdr (settle r hdr e new)
    unfolding settle
    settle-Serves r e new h p = elim (Bool-cases (ltb e.fragments_received e.fragment_count)) [
      | inl wait ↦ rw wait (assign-Faithful r _ (header_key hdr) e refl p h, λ x. cc, λ x. cc)
      | inr done ↦
          let full = IsPartial-full chunk (sent (header_key hdr)) e pos p (ground arith) in
          rw done (
            erase-Faithful r _ (header_key hdr) refl h,
            λ x i. record {
              source_id = hdr.source_id;
              sequence = hdr.sequence;
              timestamp_ns = p.timestamp i;
              flags = p.flags i;
              bytes = full i;
              size = length (full i);
            },
            λ x. cc,
          )
    ]

    add_to_entry-Serves :
        (r : Reassembler) (e : Entry) (new : Bool)
        → Faithful r
        → IsPartial chunk (sent (header_key hdr)) e
        → Serves hdr (add_to_entry r hdr payload e new)
    unfolding add_to_entry
    add_to_entry-Serves r e new h p =
        let same_count : (hdr.fragment_count == e.fragment_count) ≡ true =
          (==_iff _ _).1 (f.count ∙ sym p.count) in
        let same_length : (hdr.message_length == e.message_length) ≡ true =
          (==_iff _ _).1 (f.total ∙ sym p.total) in
        rw (same_count, same_length)
          (elim (Bool-cases (get_or e.received hdr.fragment_index 0 == 0)) [
            | inl unseen ↦ rw unseen (
                settle-Serves r (receive e hdr payload) new h (
                  receive-IsPartial chunk (sent (header_key hdr)) hdr payload e pos f p
                    ((==_iff _ _).0 unseen)))
            | inr seen ↦ rw seen (h, λ x. cc, λ x. cc)
          ])

    add_new-Serves :
        (o : Option Reassembler) (now_ns : ℕ) (a : Added)
        → ((q : Reassembler) → o ≡ some q → Faithful q)
        → add_new o hdr payload now_ns ≡ some a
        → Serves hdr a
    unfolding add_new
    add_new-Serves none now_ns a h run = cc
    add_new-Serves (some q) now_ns a h run =
        let k = header_key hdr in
        let e = fresh_entry hdr now_ns in
        let r' : Reassembler = record q {
          entries = assign q.entries k e;
          order = q.order ++ k ∷ [];
        } in
        let p = fresh_entry-IsPartial chunk (sent k) hdr payload now_ns f in
        subst (Serves hdr) (some-inj run)
          (add_to_entry-Serves r' e true (assign-Faithful q r' k e refl p (h q refl)) p)

    add_fragment-Serves :
        (r : Reassembler) (now_ns : ℕ) (a : Added)
        → Faithful r
        → add_fragment r hdr payload now_ns (find r.entries (header_key hdr)) ≡ some a
        → Serves hdr a
    unfolding add_fragment
    add_fragment-Serves r now_ns a h run = elim (Option-cases (find r.entries (header_key hdr))) [
      | inl e ↦
          add_new-Serves (make_room (suc (length r.entries)) r) now_ns a
            (λ q made. make_room-Faithful _ r q made h) (rw (e, add_fragment) at run)
      | inr (v, e) ↦
          subst (Serves hdr) (some-inj (rw (e, add_fragment) at run))
            (add_to_entry-Serves r v false h (h.partial (header_key hdr) v e))
    ]

    -- A message of one fragment is that fragment.
    single_body :
        hdr.fragment_count ≡ 1
        → (hdr.fragment_length ≡ length (sent (header_key hdr)).body)
          × (take hdr.fragment_length payload ≡ (sent (header_key hdr)).body)
    single_body one =
        let body = (sent (header_key hdr)).body in
        let few = (fragment_count_for_bounds (length body) chunk pos).2 (omega (arith, f.count)) in
        let none_before : hdr.fragment_offset ≡ 0 =
          f.offset ∙ no_pieces hdr.fragment_index chunk (omega (arith, f.index)) in
        let size : hdr.fragment_length ≡ length body = omega (arith, f.size, none_before, few) in
        (
          size,
          f.bytes
              ∙ ap₂ (λ n i. take n (drop i body)) size none_before
              ∙ ap (take (length body)) refl
              ∙ take-length body,
        )

    -- `single_body` at the message that `add` hands out.
    single_message :
        hdr.fragment_count ≡ 1
        → ◌≡◌ {A = CompletedMessage}
            (record {
              source_id = hdr.source_id;
              sequence = hdr.sequence;
              timestamp_ns = hdr.timestamp_ns;
              flags = hdr.flags;
              bytes = take hdr.fragment_length payload;
              size = hdr.fragment_length;
            })
            (sent_message sent (header_key hdr))
    single_message one =
        let (size, body) = single_body one in
        λ i. record {
          source_id = hdr.source_id;
          sequence = hdr.sequence;
          timestamp_ns = f.timestamp i;
          flags = f.flags i;
          bytes = body i;
          size = size i;
        }

    -- Given a genuine fragment, and entries that hold genuine fragments only: the entries stay so, a
    -- message that is handed out is the one that was sent under the fragment's key, byte for byte,
    -- and the fragment is refused only if its message is longer than the receiver allows.
    pub add-IsFaithful :
        (r : Reassembler) (now_ns : ℕ) (a : Added)
        → IsFaithful chunk sent r
        → add r hdr payload now_ns ≡ some a
        → IsFaithful chunk sent a.state
          × (a.result ≡ complete → a.out ≡ sent_message sent (header_key hdr))
          × (a.result ≡ malformed → r.cfg.max_message_length < hdr.message_length)
    unfolding add
    add-IsFaithful r now_ns a h run = elim (Bool-cases (hdr.fragment_count == 1)) [
      | inl one ↦
          let e = some-inj (rw one at run) in
          (
            subst Faithful (ap (λ (x : Added). x.state) e) h,
            λ _. ap (λ (x : Added). x.out) (sym e) ∙ single_message ((==_iff _ _).0 one),
            λ bad. cc (ap (λ (x : Added). x.result) e),
          )
      | inr several ↦ elim (Bool-cases (ltb r.cfg.max_message_length hdr.message_length)) [
        | inl long ↦
            let e = some-inj (rw (several, long) at run) in
            (
              subst Faithful (ap (λ (x : Added). x.state) e) h,
              λ good. cc (ap (λ (x : Added). x.result) e),
              λ _. ltb→lt _ _ long,
            )
        | inr fits ↦
            let s = add_fragment-Serves r now_ns a h (rw (several, fits) at run) in
            (s.0, s.1, λ bad. absurd (s.2 bad))
      ]
    ]
