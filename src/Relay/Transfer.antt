-- ===== src/Relay/Transfer.antt =====
-- A message from Bridge::transmit (bridge.cpp) to the capture file of the receiver, where
-- Receiver::handle_datagram (tools/receiver/receiver.cpp) puts it.
use ipc_data_relay.Common.{
  ℕ, suc, ◌+◌, ◌≤◌, ◌<◌, ◌≡◌, inl, inr, refl, sym, ap, ◌∙◌, subst, true, List, [], ◌∷◌, ◌++◌, none,
  some, some-inj, arith, length,
}
use ipc_data_relay.Common.Assoc.{find}
use ipc_data_relay.Byteorder.{Bytes}
use ipc_data_relay.Wire.{
  default_header, Header, no_error, Parsed, parse_datagram, fragment_count_for,
}
use ipc_data_relay.Reassembler.{Key, Key-eq, Added, CompletedMessage, complete, header_key, add}
use ipc_data_relay.Reassembler.Entries.{IsFragmentOf}
use ipc_data_relay.Reassembler.Sound.{Sent, IsFaithful, sent_message}
use ipc_data_relay.Reassembler.Whole.{
  Incoming, add_one, Completes, Misses, AllDiffer, AreFragments, add-Completes,
}
use ipc_data_relay.Capture.Writer.{WriteResult}
use ipc_data_relay.Bridge.{Link, transmit}
use ipc_data_relay.Bridge.Config.{BridgeConfig, fragment_payload}
use ipc_data_relay.Bridge.Rounds.{CanSend, Carries, message}
use ipc_data_relay.Bridge.Send.{AllFrom, transmit-Carries}
use ipc_data_relay.Receiver.Stats.{plus64}
use ipc_data_relay.Receiver.State.{Receiver}
use ipc_data_relay.Receiver.Datagram.{handle_datagram}
use ipc_data_relay.Receiver.Datagram.Tally.{writer_after}
use ipc_data_relay.Receiver.Datagram.Counts.{IsTaken, handle_datagram_counts}
use ipc_data_relay.Receiver.Invariant.Running.{IsRunning}
use ipc_data_relay.Receiver.Invariant.Datagram.{handle_datagram-IsRunning}

-- A clock, asked for the i-th datagram, and what fwrite answers.
module _ (clock : ℕ → ℕ) (r1 r2 : WriteResult) where
  -- The datagrams, handled one after the other: all but the last one complete no message and leave the
  -- capture file as it is; at the last one a message is counted, and written if the receiver records.
  abbrev pub Arrives : CompletedMessage → ℕ → Receiver → List Bytes → Type 0
  Arrives m i r [] = ⊥
  Arrives m i r (d ∷ []) =
      (q : Receiver) × (handle_datagram r d (clock i) r1 r2 ≡ some q)
      × (q.stats.messages ≡ plus64 r.stats.messages 1)
      × (q.writer ≡ writer_after r complete m r1 r2)
  Arrives m i r (d ∷ e ∷ ds) =
      (q : Receiver) × (handle_datagram r d (clock i) r1 r2 ≡ some q)
      × (q.stats.messages ≡ r.stats.messages)
      × (q.writer ≡ r.writer)
      × Arrives m (i + 1) q (e ∷ ds)

  module _ (chunk : ℕ) (sent : Sent) (k : Key) where
    -- The datagrams parse into the fragments, numbered from i on.
    abbrev Parses : ℕ → List Bytes → List Incoming → Type 0
    Parses i [] [] = Unit {0}
    Parses i [] (x ∷ xs) = ⊥
    Parses i (d ∷ ds) [] = ⊥
    Parses i (d ∷ ds) (x ∷ xs) =
        ((h0 : Header)
          → parse_datagram d h0 ≡ record { err = no_error; hdr = x.hdr; payload = x.payload })
        × (x.hdr.fragment_index ≡ i)
        × (x.now_ns ≡ clock i)
        × (header_key x.hdr ≡ k)
        × IsFragmentOf chunk (sent k) x.hdr x.payload
        × Parses (i + 1) ds xs

    Parses-AreFragments :
        (i : ℕ) (ds : List Bytes) (xs : List Incoming)
        → Parses i ds xs
        → AreFragments chunk sent k xs × (length xs ≡ length ds)
    Parses-AreFragments i [] [] p = (tt, refl)
    Parses-AreFragments i [] (x ∷ xs) p = absurd p
    Parses-AreFragments i (d ∷ ds) [] p = absurd p
    Parses-AreFragments i (d ∷ ds) (x ∷ xs) (parsed, place, at, key, f, p) =
        let (fs, size) = Parses-AreFragments (i + 1) ds xs p in ((key, f, fs), ap suc size)

    Parses-Misses :
        (j i : ℕ) (ds : List Bytes) (xs : List Incoming) → j < i → Parses i ds xs → Misses j xs
    Parses-Misses j i [] [] lt p = tt
    Parses-Misses j i [] (x ∷ xs) lt p = absurd p
    Parses-Misses j i (d ∷ ds) [] lt p = absurd p
    Parses-Misses j i (d ∷ ds) (x ∷ xs) lt (parsed, place, at, key, f, p) =
        (λ e. omega (arith, e, place, lt), Parses-Misses j (i + 1) ds xs (omega arith) p)

    Parses-AllDiffer :
        (i : ℕ) (ds : List Bytes) (xs : List Incoming) → Parses i ds xs → AllDiffer xs
    Parses-AllDiffer i [] [] p = tt
    Parses-AllDiffer i [] (x ∷ xs) p = absurd p
    Parses-AllDiffer i (d ∷ ds) [] p = absurd p
    Parses-AllDiffer i (d ∷ ds) (x ∷ xs) (parsed, place, at, key, f, p) = (
      Parses-Misses x.hdr.fragment_index (i + 1) ds xs (omega (arith, place)) p,
      Parses-AllDiffer (i + 1) ds xs p,
    )

    -- What `add` makes of a fragment is what the receiver takes.
    taken :
        (i : ℕ) (d : Bytes) (x : Incoming) (r q : Receiver) (a : Added)
        → ((h0 : Header)
            → parse_datagram d h0 ≡ record { err = no_error; hdr = x.hdr; payload = x.payload })
        → x.now_ns ≡ clock i
        → add_one r.reassembler x ≡ some a
        → handle_datagram r d (clock i) r1 r2 ≡ some q
        → IsTaken r q (length d) r1 r2 a
    taken i d x r q a parsed at run handled =
        let p = parsed default_header in
        elim (handle_datagram_counts r q d (clock i) r1 r2 handled) [
          | inl (bad, refused) ↦ absurd (bad (ap (λ (x : Parsed). x.err) p))
          | inr (ok, b, added, t) ↦
              subst (λ c. IsTaken r q (length d) r1 r2 c)
                (some-inj (
                  sym (rw p at added)
                  ∙ sym (ap (λ n. add r.reassembler x.hdr x.payload n) at)
                  ∙ run))
                t
        ]

    Arrives-Completes :
        (m : CompletedMessage) (i : ℕ) (ds : List Bytes) (xs : List Incoming) (r : Receiver)
        → Parses i ds xs
        → IsRunning r
        → Completes m r.reassembler xs
        → Arrives m i r ds
    Arrives-Completes m i [] [] r p run c = absurd c
    Arrives-Completes m i [] (x ∷ xs) r p run c = absurd p
    Arrives-Completes m i (d ∷ ds) [] r p run c = absurd p
    Arrives-Completes m i (d ∷ []) (x ∷ []) r (parsed, place, at, key, f, p) running
          (a, run, c, out) =
        let (q, handled, running') = handle_datagram-IsRunning r d (clock i) r1 r2 running in
        let t = taken i d x r q a parsed at run handled in
        let n = rw c at t.counts in (q, handled, ap (λ y. y.messages) n, rw (c, out) at t.file)
    Arrives-Completes m i (d ∷ []) (x ∷ y ∷ xs) r (parsed, place, at, key, f, p) run c = absurd p
    Arrives-Completes m i (d ∷ e ∷ ds) (x ∷ []) r (parsed, place, at, key, f, p) run c = absurd p
    Arrives-Completes m i (d ∷ e ∷ ds) (x ∷ y ∷ xs) r (parsed, place, at, key, f, p) running
          (a, run, c, rest) =
        let (q, handled, running') = handle_datagram-IsRunning r d (clock i) r1 r2 running in
        let t = taken i d x r q a parsed at run handled in
        let n = rw c at t.counts in
        let same = sym t.reassembler in
        (
          q,
          handled,
          ap (λ y. y.messages) n,
          rw c at t.file,
          Arrives-Completes m (i + 1) (e ∷ ds) (y ∷ xs) q p running'
              (subst (λ s. Completes m s (y ∷ xs)) same rest),
        )

  module _ (id chunk flags sequence timestamp_ns : ℕ) (body : Bytes) (sent : Sent)
      (same : sent (record { source_id = id; sequence = sequence })
        ≡ message id chunk flags sequence timestamp_ns body) where
    abbrev sent_key : Key
    sent_key = record { source_id = id; sequence = sequence }

    Parses-of :
        (i : ℕ) (ds : List Bytes)
        → AllFrom (Carries id chunk flags sequence timestamp_ns body) i ds
        → (xs : List Incoming) × Parses chunk sent sent_key i ds xs
    Parses-of i [] all = ([], tt)
    Parses-of i (d ∷ ds) ((hdr, payload, parsed, f, place, source, number), all) =
        let (xs, p) = Parses-of (i + 1) ds all in
        let key : header_key hdr ≡ sent_key =
          λ j. record { source_id = source j; sequence = number j } in
        (
          record { hdr = hdr; payload = payload; now_ns = clock i } ∷ xs,
          (parsed, place, refl, key, subst (λ m. IsFragmentOf chunk m hdr payload) (sym same) f, p),
        )

  -- A message that can be sent, and of which `transmit` returns true: the datagrams that it puts on the
  -- wire, handled in this order, none lost and no other in between, by a running receiver that allows
  -- the message's length, holds genuine fragments only and none of this message: each call of
  -- handle_datagram returns, and all but the last complete nothing; at the last one a message is counted,
  -- and what is written, if the receiver records, is the message that was sent, byte for byte.
  pub transmit-Arrives :
      (cfg : BridgeConfig) (id : ℕ) (l : Link) (body : Bytes) (flags timestamp_ns : ℕ) (sent : Sent)
      (r : Receiver)
      → CanSend id (fragment_payload cfg) flags l.st.next_sequence timestamp_ns body
      → (transmit cfg id l body flags timestamp_ns).1 ≡ true
      → sent (record { source_id = id; sequence = l.st.next_sequence })
        ≡ message id (fragment_payload cfg) flags l.st.next_sequence timestamp_ns body
      → find r.reassembler.entries (record { source_id = id; sequence = l.st.next_sequence }) ≡ none
      → length body ≤ r.reassembler.cfg.max_message_length
      → IsFaithful (fragment_payload cfg) sent r.reassembler
      → IsRunning r
      → (ds : List Bytes) × ((transmit cfg id l body flags timestamp_ns).0.net.wire
          ≡ l.net.wire ++ ds)
        × Arrives
            (sent_message sent (record { source_id = id; sequence = l.st.next_sequence }))
            0
            r
            ds
  transmit-Arrives cfg id l body flags timestamp_ns sent r can done same new limit faithful
        running =
      let chunk = fragment_payload cfg in
      let k : Key = record { source_id = id; sequence = l.st.next_sequence } in
      let (ds, wire, all, few, whole) = transmit-Carries cfg id l body flags timestamp_ns can in
      let (xs, p) =
        Parses-of id chunk flags l.st.next_sequence timestamp_ns body sent same 0 ds all in
      let (fs, size) = Parses-AreFragments chunk sent k 0 ds xs p in
      let body_is = ap (λ m. length m.body) same in
      let pieces : length xs ≡ fragment_count_for (length (sent k).body) chunk =
        size ∙ whole.0 done ∙ ap (λ n. fragment_count_for n chunk) (sym body_is) in
      (
        ds,
        wire,
        Arrives-Completes chunk sent k (sent_message sent k) 0 ds xs r p running (
            add-Completes chunk sent k can.chunk_pos xs r.reassembler fs
              (Parses-AllDiffer chunk sent k 0 ds xs p) pieces new (omega (arith, body_is, limit))
              faithful running.bounded),
      )
