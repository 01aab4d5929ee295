-- ===== src/Relay.antt =====
-- From the bridge to the capture file of the receiver: what Receiver::handle_datagram
-- (tools/receiver/receiver.cpp) does with the datagrams that Bridge::transmit (bridge.cpp) sends.
pub mod Transfer
use ipc_data_relay.Common.{
  ℕ, ◌≤◌, ◌<◌, ◌≡◌, ◌⊎◌, inl, inr, sym, ap, ◌∙◌, subst, some-inj, some, length,
}
use ipc_data_relay.Byteorder.{Bytes}
use ipc_data_relay.Wire.{Header, default_header, no_error, Parsed, parse_datagram}
use ipc_data_relay.Reassembler.{Key, Added, header_key, complete}
use ipc_data_relay.Reassembler.Entries.{IsFragmentOf}
use ipc_data_relay.Reassembler.Sound.{Sent, IsFaithful, sent_message}
use ipc_data_relay.Reassembler.Delivers.{Delivers, add-Delivers}
use ipc_data_relay.Capture.Writer.{WriteResult}
use ipc_data_relay.Receiver.Stats.{plus64}
use ipc_data_relay.Receiver.State.{Receiver}
use ipc_data_relay.Receiver.Datagram.{handle_datagram}
use ipc_data_relay.Receiver.Datagram.Tally.{writer_after}
use ipc_data_relay.Receiver.Datagram.Counts.{IsTaken, handle_datagram_counts}
use ipc_data_relay.Receiver.Invariant.Running.{IsRunning}
use ipc_data_relay.Receiver.Invariant.Datagram.{handle_datagram-IsRunning}

-- The datagram is a fragment of the message that was sent under its key.
pub record IsGenuine (chunk : ℕ) (sent : Sent) (d : Bytes) (hdr : Header) (payload : Bytes)
    : Type 0 where
  pub parsed :
      (h0 : Header) → parse_datagram d h0 ≡ record { err = no_error; hdr = hdr; payload = payload }
  pub fragment : IsFragmentOf chunk (sent (header_key hdr)) hdr payload

-- What became of a genuine datagram of the message `sent_message sent k`: nothing is recorded yet,
-- or the message is complete, and it is what is recorded, unless recording is off.
abbrev pub Relays : Sent → Key → Receiver → WriteResult → WriteResult → Receiver → Type 0
Relays sent k r r1 r2 q =
    ((q.stats.messages ≡ r.stats.messages) × (q.writer ≡ r.writer))
    ⊎ ((q.stats.messages ≡ plus64 r.stats.messages 1)
        × (q.writer ≡ writer_after r complete (sent_message sent k) r1 r2))

Relays-of :
    (sent : Sent) (k : Key) (r q : Receiver) (len : ℕ) (r1 r2 : WriteResult) (a : Added)
    → IsTaken r q len r1 r2 a
    → Delivers (sent_message sent k) a
    → (q.stats.malformed ≡ r.stats.malformed) × Relays sent k r r1 r2 q
Relays-of sent k r q len r1 r2 a t (inl (e, out)) =
    let c = rw e at t.counts in
    let f = rw (e, out) at t.file in (ap (λ x. x.malformed) c, inr (ap (λ x. x.messages) c, f))
Relays-of sent k r q len r1 r2 a t (inr (inl e)) =
    let c = rw e at t.counts in
    let f = rw e at t.file in (ap (λ x. x.malformed) c, inl (ap (λ x. x.messages) c, f))
Relays-of sent k r q len r1 r2 a t (inr (inr e)) =
    let c = rw e at t.counts in
    let f = rw e at t.file in (ap (λ x. x.malformed) c, inl (ap (λ x. x.messages) c, f))

-- A genuine datagram of a message cut into pieces of more than 0 bytes, given to a running receiver
-- whose reassembler holds genuine fragments only, and allows the message's length: it is handled to the end, it is not counted as malformed, and either
-- no message is completed and the capture file stays, or one message more is counted and the file is
-- written with exactly the message that was sent, if the receiver records. The receiver stays so.
pub handle_datagram-Relays :
    (chunk : ℕ) (sent : Sent) (r : Receiver) (d : Bytes) (hdr : Header) (payload : Bytes)
    (now_ns : ℕ) (r1 r2 : WriteResult)
    → 0 < chunk
    → IsGenuine chunk sent d hdr payload
    → hdr.message_length ≤ r.reassembler.cfg.max_message_length
    → IsFaithful chunk sent r.reassembler
    → IsRunning r
    → (q : Receiver) × (handle_datagram r d now_ns r1 r2 ≡ some q)
      × IsRunning q
      × IsFaithful chunk sent q.reassembler
      × (q.stats.malformed ≡ r.stats.malformed)
      × Relays sent (header_key hdr) r r1 r2 q
handle_datagram-Relays chunk sent r d hdr payload now_ns r1 r2 pos g short faithful running =
    let (q, run, running') = handle_datagram-IsRunning r d now_ns r1 r2 running in
    let p = g.parsed default_header in
    elim (handle_datagram_counts r q d now_ns r1 r2 run) [
      | inl (bad, refused) ↦ absurd (bad (ap (λ (x : Parsed). x.err) p))
      | inr (ok, a, added, taken) ↦
          let (b, found, faithful', bounded, delivered, stored) =
            add-Delivers chunk sent hdr payload r.reassembler now_ns pos g.fragment short faithful
              running.bounded in
          let same : b ≡ a = some-inj (sym found ∙ rw p at added) in
          let (clean, relayed) =
            Relays-of sent (header_key hdr) r q (length d) r1 r2 a taken
              (subst (Delivers (sent_message sent (header_key hdr))) same delivered) in
          (
            q,
            run,
            running',
            subst (IsFaithful chunk sent) (ap (λ (x : Added). x.state) same ∙ sym taken.reassembler)
                faithful',
            clean,
            relayed,
          )
    ]
