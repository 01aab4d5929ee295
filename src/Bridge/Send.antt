-- ===== src/Bridge/Send.antt =====
-- `Bridge::transmit` (bridge.cpp): what a message becomes on the wire.
use ipc_data_relay.Common.{
  ℕ, zero, suc, ◌+◌, ◌*◌, ◌≤◌, ◌<◌, ◌≡◌, ◌↔◌, refl, sym, ap, ◌∙◌, ◌⊎◌, inl, inr, Bool, true, false,
  ◌||◌, List, [], ◌∷◌, ◌++◌, append_assoc, append-nil, arith, ltb, length, Bool-cases,
}
use ipc_data_relay.Byteorder.{Bytes}
use ipc_data_relay.Wire
use ipc_data_relay.Wire.{Header, fragment_count_for, k_max_message_length}
use ipc_data_relay.Bridge.Config.{BridgeConfig, fragment_payload}
use ipc_data_relay.Bridge.Rounds.{CanSend, Carries, piece-IsPiece, datagram-Carries}
use ipc_data_relay.Bridge.{
  BridgeSourceStats, after_send, Link, Net, SendResult, sent, timed_out, send_failed, send_next,
  send_rounds, note_timeout, note_error, note_sent, note_message, note_fragmented, transmit, piece,
  datagram, message_header, plus64,
}

-- No call of `send` fails: each answer that is listed is that of a datagram sent.
abbrev pub AllSent : List SendResult → Type 0
AllSent [] = Unit {0}
AllSent (sent k ∷ rs) = AllSent rs
AllSent (timed_out ∷ rs) = ⊥
AllSent (send_failed ∷ rs) = ⊥

-- One call of `send`: the datagram is on the wire, or the wire is as it was.
abbrev Sends : List SendResult → List Bytes → Bytes → Net × SendResult → Type 0
Sends rs w d r =
    ((q : Net) × (k : ℕ) × (r ≡ (q, sent k))
      × (q.wire ≡ w ++ d ∷ [])
      × (AllSent rs → AllSent q.results))
    ⊎ ((q : Net) × (r ≡ (q, timed_out)) × (q.wire ≡ w) × (AllSent rs → ⊥))
    ⊎ ((q : Net) × (r ≡ (q, send_failed)) × (q.wire ≡ w) × (AllSent rs → ⊥))

send_cases : (rs : List SendResult) (w : List Bytes) (d : Bytes) → Sends rs w d (send_next rs w d)
unfolding send_next
send_cases [] w d = inl (_, _, refl, refl, λ p. tt)
send_cases (sent k ∷ rs) w d = inl (_, _, refl, refl, λ p. p)
send_cases (timed_out ∷ rs) w d = inr (inl (_, refl, refl, λ p. p))
send_cases (send_failed ∷ rs) w d = inr (inr (_, refl, refl, λ p. p))

-- The i-th, (i + 1)-th, … datagram of the list has the property.
abbrev pub AllFrom : (ℕ → Bytes → Type 0) → ℕ → List Bytes → Type 0
AllFrom P i [] = Unit {0}
AllFrom P i (d ∷ ds) = P i d × AllFrom P (i + 1) ds

module _ (id chunk flags sequence timestamp_ns : ℕ) (body : Bytes)
    (can : CanSend id chunk flags sequence timestamp_ns body) where
  abbrev total : ℕ
  total = fragment_count_for (length body) chunk

  abbrev Fragment : ℕ → Bytes → Type 0
  Fragment = Carries id chunk flags sequence timestamp_ns body

  -- From `l` on: the fragments that got on the wire, all of them exactly on success.
  abbrev Run : ℕ → ℕ → Link → Link × Bool → Type 0
  Run rounds i l (l', done) =
      (ds : List Bytes) × (l'.net.wire ≡ l.net.wire ++ ds)
      × AllFrom Fragment i ds
      × (length ds ≤ rounds)
      × ((done ≡ true) ↔ (length ds ≡ rounds))
      × (AllSent l.net.results → done ≡ true)

  abbrev shared_header : Wire.Header
  shared_header = message_header id flags sequence timestamp_ns (length body) total

  send_rounds_lem :
      (rounds i offset : ℕ) (l : Link)
      → i + rounds ≡ total
      → (0 < rounds → offset ≡ i * chunk)
      → Run rounds i l (send_rounds rounds i offset shared_header body chunk l)
  unfolding send_rounds note_timeout note_error note_sent
  send_rounds_lem zero i offset l e at =
      ([], sym (append-nil l.net.wire), tt, omega arith, (λ _. refl, λ _. refl), λ _. refl)
  send_rounds_lem (suc rounds) i offset l e at =
      let p = piece-IsPiece (length body) chunk i can.chunk_pos (omega arith) in
      let o = at (omega arith) in
      let n = piece (length body) chunk offset in
      let d = datagram shared_header body i offset n in
      let carried : Fragment i d = rw o (
        datagram-Carries id chunk flags sequence timestamp_ns body can i
          (piece (length body) chunk (i * chunk)) (omega arith) p) in
      elim (send_cases l.net.results l.net.wire d) [
        | inl (q, k, sent_it, wire, free) ↦
            let (ds, wire', all, few, whole, ok) =
              send_rounds_lem rounds (i + 1) (offset + n) (note_sent (record l { net = q }) k)
                (omega arith)
                (λ more.
                  let m = p.middle (omega arith) in
                  let same = ap (piece (length body) chunk) o in omega (arith, m, same)) in
            rw sent_it (
              d ∷ ds,
              wire' ∙ ap (λ w. w ++ ds) wire ∙ append_assoc l.net.wire (d ∷ []) ds,
              (carried, all),
              omega arith,
              (λ t. ap suc (whole.0 t), λ t. whole.1 (omega arith)),
              λ r. ok (free r),
            )
        | inr (inl (q, timeout, wire, busy)) ↦ rw timeout (
          [],
          wire ∙ sym (append-nil l.net.wire),
          tt,
          omega arith,
          (λ t. cc, λ t. absurd (omega arith)),
          λ r. absurd (busy r),
        )
        | inr (inr (q, failed, wire, busy)) ↦ rw failed (
          [],
          wire ∙ sym (append-nil l.net.wire),
          tt,
          omega arith,
          (λ t. cc, λ t. absurd (omega arith)),
          λ r. absurd (busy r),
        )
      ]

-- The counters of messages are not touched by the rounds.
abbrev Counts : BridgeSourceStats → BridgeSourceStats → Type 0
Counts s t = (s.messages ≡ t.messages) × (s.bytes ≡ t.bytes) × (s.next_sequence ≡ t.next_sequence)

after_send-Counts :
    (next : Link → Link × Bool) (l : Link) (r : Net × SendResult)
    → ((q : Link) → Counts (next q).0.st q.st)
    → Counts (after_send next l r).0.st l.st
unfolding after_send note_timeout note_error note_sent
after_send-Counts next l (q, sent k) h = h (note_sent (record l { net = q }) k)
after_send-Counts next l (q, timed_out) h = (refl, refl, refl)
after_send-Counts next l (q, send_failed) h = (refl, refl, refl)

send_rounds-Counts :
    (rounds i offset : ℕ) (h : Header) (body : Bytes) (chunk : ℕ) (l : Link)
    → Counts (send_rounds rounds i offset h body chunk l).0.st l.st
unfolding send_rounds
send_rounds-Counts zero i offset h body chunk l = (refl, refl, refl)
send_rounds-Counts (suc rounds) i offset h body chunk l =
    let n = piece (length body) chunk offset in
    after_send-Counts (send_rounds rounds (i + 1) (offset + n) h body chunk) l
      (send_next l.net.results l.net.wire (datagram h body i offset n))
      (send_rounds-Counts rounds (i + 1) (offset + n) h body chunk)

note_fragmented-net : (l : Link) (count : ℕ) → (note_fragmented l count).net ≡ l.net
note_fragmented-net l count = elim (Bool-cases (ltb 1 count)) [
  | inl many ↦ rw many refl
  | inr one ↦ rw one refl
]

module _ (cfg : BridgeConfig) (id : ℕ) (l : Link) (body : Bytes) (flags timestamp_ns : ℕ) where
  abbrev after : Link × Bool
  after = transmit cfg id l body flags timestamp_ns

  abbrev fragments : ℕ
  fragments = fragment_count_for (length body) (fragment_payload cfg)

  -- Whether a message is sent, cut short or dropped, it is counted, and takes one sequence number.
  pub transmit_counts :
      (after.0.st.messages ≡ plus64 l.st.messages 1)
      × (after.0.st.bytes ≡ plus64 l.st.bytes (length body))
      × (after.0.st.next_sequence ≡ plus64 l.st.next_sequence 1)
  unfolding transmit note_message
  transmit_counts = ground (
    arith,
    send_rounds-Counts fragments 0 0
        (message_header id flags l.st.next_sequence timestamp_ns (length body) fragments) body
        (fragment_payload cfg) (note_fragmented (note_message l (length body)) fragments),
  )

  -- The lemma behind the two theorems below.
  transmit_wire :
      CanSend id (fragment_payload cfg) flags l.st.next_sequence timestamp_ns body
      → (ds : List Bytes) × (after.0.net.wire ≡ l.net.wire ++ ds)
        × AllFrom
            (Carries id (fragment_payload cfg) flags l.st.next_sequence timestamp_ns body)
            0
            ds
        × (length ds ≤ fragments)
        × ((after.1 ≡ true) ↔ (length ds ≡ fragments))
        × (AllSent l.net.results → after.1 ≡ true)
  unfolding transmit note_message
  transmit_wire can =
      let lm = note_message l (length body) in
      let fits : (ltb k_max_message_length (length body) || ltb 0xFFFF fragments) ≡ false =
        ground (arith, can.length_fits, can.count_fits) in
      let same = note_fragmented-net lm fragments in
      let (ds, wire, all, few, whole, ok) =
        send_rounds_lem id (fragment_payload cfg) flags l.st.next_sequence timestamp_ns body can
          fragments 0 0 (note_fragmented lm fragments) (omega arith) (λ _. omega arith) in
      rw fits (ds, wire ∙ ap (λ (n : Net). n.wire ++ ds) same, all, few, whole, λ r. ok (rw same r))

  -- Of a message that can be sent (the fields fit their widths, there is room for a payload, the flag
  -- of fragments is not set yet, and neither its bytes nor its fragments are too many) the wire gains an
  -- initial run of its fragments, in order, each of which the receiver parses into that fragment of
  -- this message, under the source's id and sequence number. They are all there exactly when
  -- `transmit` returns true.
  pub transmit-Carries :
      CanSend id (fragment_payload cfg) flags l.st.next_sequence timestamp_ns body
      → (ds : List Bytes) × (after.0.net.wire ≡ l.net.wire ++ ds)
        × AllFrom
            (Carries id (fragment_payload cfg) flags l.st.next_sequence timestamp_ns body)
            0
            ds
        × (length ds ≤ fragments)
        × ((after.1 ≡ true) ↔ (length ds ≡ fragments))
  transmit-Carries can =
      let (ds, wire, all, few, whole, ok) = transmit_wire can in (ds, wire, all, few, whole)

  -- If no send fails, that is, every answer listed for the socket is that of a datagram sent, `transmit`
  -- returns true on a message that can be sent.
  pub transmit_whole :
      CanSend id (fragment_payload cfg) flags l.st.next_sequence timestamp_ns body
      → AllSent l.net.results
      → after.1 ≡ true
  transmit_whole can none_fail =
      let (ds, wire, all, few, whole, ok) = transmit_wire can in ok none_fail
