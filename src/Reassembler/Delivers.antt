-- ===== src/Reassembler/Delivers.antt =====
-- `Reassembler::add` (tools/receiver/lib/reassembler.cpp) on a genuine fragment, on every branch.
use ipc_data_relay.Common.{ℕ, ◌≤◌, ◌<◌, ◌≡◌, ◌≢◌, ◌⊎◌, inl, inr, refl, some, arith}
use ipc_data_relay.Byteorder.{Bytes}
use ipc_data_relay.Wire.{Header}
use ipc_data_relay.Reassembler.{
  Reassembler, Added, Result, complete, incomplete, duplicate, malformed, CompletedMessage,
  header_key, add,
}
use ipc_data_relay.Reassembler.Entries.{IsFragmentOf}
use ipc_data_relay.Reassembler.Room.{IsBounded, add-IsBounded}
use ipc_data_relay.Reassembler.Stores.{Stores, add-Stores}
use ipc_data_relay.Reassembler.Sound.{Sent, IsFaithful, sent_message, add-IsFaithful}

-- A genuine fragment is answered by the message that was sent, byte for byte, or by nothing.
abbrev pub Delivers : CompletedMessage → Added → Type 0
Delivers m a =
    ((a.result ≡ complete) × (a.out ≡ m)) ⊎ ((a.result ≡ incomplete) ⊎ (a.result ≡ duplicate))

Delivers-of :
    (m : CompletedMessage) (a : Added) (x : Result)
    → a.result ≡ x
    → (x ≡ complete → a.out ≡ m)
    → x ≢ malformed
    → Delivers m a
Delivers-of m a complete e good fine = inl (e, good refl)
Delivers-of m a incomplete e good fine = inr (inl e)
Delivers-of m a duplicate e good fine = inr (inr e)
Delivers-of m a malformed e good fine = absurd (fine refl)

-- A genuine fragment (of pieces of more than 0 bytes) of a message that is not longer than the
-- receiver allows, given to a bounded reassembler that holds genuine fragments only: `add` returns, the
-- reassembler stays so, and the fragment is answered by the message that was sent under its key, or by
-- nothing. In the second case either the entry of its message, the old one or a new one, is then stored
-- with the fragment copied into it and marked; or the fragment had been marked before, and the
-- reassembler is the same as before.
pub add-Delivers :
    (chunk : ℕ) (sent : Sent) (hdr : Header) (payload : Bytes) (r : Reassembler) (now_ns : ℕ)
    → 0 < chunk
    → IsFragmentOf chunk (sent (header_key hdr)) hdr payload
    → hdr.message_length ≤ r.cfg.max_message_length
    → IsFaithful chunk sent r
    → IsBounded r
    → (a : Added) × (add r hdr payload now_ns ≡ some a)
      × IsFaithful chunk sent a.state
      × IsBounded a.state
      × Delivers (sent_message sent (header_key hdr)) a
      × Stores r hdr payload now_ns a
add-Delivers chunk sent hdr payload r now_ns pos f short h b =
    let (a, run, bounded) = add-IsBounded r hdr payload now_ns b in
    let (faithful, good, bad) = add-IsFaithful chunk sent hdr payload pos f r now_ns a h run in
    (
      a,
      run,
      faithful,
      bounded,
      Delivers-of (sent_message sent (header_key hdr)) a a.result refl good
          (λ m. omega (arith, bad m, short)),
      add-Stores r hdr payload now_ns a run,
    )
