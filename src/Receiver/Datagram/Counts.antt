-- ===== src/Receiver/Datagram/Counts.antt =====
-- What Receiver::handle_datagram (tools/receiver/receiver.cpp) counts, on every branch.
use Prim.Native.String.{String}
use ipc_data_relay.Common.{
  ℕ, ◌≡◌, ◌≢◌, ◌⊎◌, inl, inr, refl, sym, ap, ◌∙◌, subst, Bool, true, false, Option, none, some,
  length, some-inj,
}
use ipc_data_relay.Byteorder.{Bytes}
use ipc_data_relay.Wire.{
  Header, default_header, ParseError, no_error, truncated, bad_magic, bad_version,
  bad_fragment_count, bad_fragment_index, length_mismatch, range_error, flag_mismatch, to_string,
  parse_datagram,
}
use ipc_data_relay.Reassembler.{Added, malformed, add}
use ipc_data_relay.Capture.Writer.{WriteResult}
use ipc_data_relay.Receiver.Stats.{plus64, update_source}
use ipc_data_relay.Receiver.State.{Receiver}
use ipc_data_relay.Receiver.Datagram.{
  handle_datagram, take_parsed, after_add, observe_sequence, note_malformed, count_datagram,
}
use ipc_data_relay.Receiver.Datagram.Tally.{
  writer_after, take_result-writer, writer_after-observe_sequence, writer_after-stats, tally,
  counted, take_result-tally, observe_sequence-tally, take_result-reassembler,
  observe_sequence-reassembler,
}

-- A refused datagram: what `note_malformed` leaves.
pub record IsRefused (r q : Receiver) : Type 0 where
  pub reassembler : q.reassembler ≡ r.reassembler
  pub sequences : q.sequences ≡ r.sequences
  pub writer : q.writer ≡ r.writer
  pub counts : tally q.stats ≡ counted malformed (tally r.stats)

note_malformed-IsRefused :
    (r : Receiver) (reason : String) (id : ℕ) (have_source : Bool)
    → IsRefused r (note_malformed r reason id have_source)
unfolding note_malformed update_source
note_malformed-IsRefused r reason id true = record {
  reassembler = refl;
  sequences = refl;
  writer = refl;
  counts = refl;
}
note_malformed-IsRefused r reason id false = record {
  reassembler = refl;
  sequences = refl;
  writer = refl;
  counts = refl;
}

-- An accepted datagram, by what `add` made of it.
pub record IsTaken (r q : Receiver) (len : ℕ) (r1 r2 : WriteResult) (a : Added) : Type 0 where
  pub reassembler : q.reassembler ≡ a.state
  pub counts :
      tally q.stats
      ≡ counted a.result (record (tally r.stats) {
        datagrams = plus64 r.stats.datagrams 1;
        datagram_bytes = plus64 r.stats.datagram_bytes len;
      })
  pub file : q.writer ≡ writer_after r a.result a.out r1 r2

after_add-IsTaken :
    (r q : Receiver) (len : ℕ) (hdr : Header) (o : Option Added) (r1 r2 : WriteResult)
    → after_add (record r { stats = count_datagram r.stats hdr.source_id len }) hdr o r1 r2 ≡ some q
    → (a : Added) × (o ≡ some a) × IsTaken r q len r1 r2 a
unfolding after_add update_source
after_add-IsTaken r q len hdr none r1 r2 h = cc h
after_add-IsTaken r q len hdr (some a) r1 r2 h =
    let counting : Receiver = record r {
      stats = count_datagram r.stats hdr.source_id len;
      reassembler = a.state;
    } in
    let seen = observe_sequence counting hdr a.new_message in
    let e = some-inj h in
    (
      a,
      refl,
      record {
        reassembler =
            ap (λ (x : Receiver). x.reassembler) (sym e)
            ∙ take_result-reassembler seen hdr a.result a.out r1 r2
            ∙ observe_sequence-reassembler counting hdr a.new_message;
        counts =
            ap (λ (x : Receiver). tally x.stats) (sym e)
            ∙ take_result-tally seen hdr a.result a.out r1 r2
            ∙ ap (counted a.result) (observe_sequence-tally counting hdr a.new_message);
        file =
            ap (λ (x : Receiver). x.writer) (sym e)
            ∙ take_result-writer seen hdr a.result a.out r1 r2
            ∙ writer_after-observe_sequence counting hdr a.new_message a.result a.out r1 r2
            ∙ writer_after-stats r (count_datagram r.stats hdr.source_id len) a.result a.state a.out
                r1 r2;
      },
    )

note_malformed-of :
    (r q : Receiver) (reason : String) (id : ℕ) (have_source : Bool)
    → note_malformed r reason id have_source ≡ q
    → IsRefused r q
note_malformed-of r q reason id have_source e =
    subst (IsRefused r) e (note_malformed-IsRefused r reason id have_source)

take_parsed-cases :
    (r q : Receiver) (len : ℕ) (e : ParseError) (hdr : Header) (payload : Bytes) (now_ns : ℕ)
    (r1 r2 : WriteResult)
    → take_parsed r len e hdr payload now_ns r1 r2 ≡ some q
    → ((e ≢ no_error) × IsRefused r q)
      ⊎ ((e ≡ no_error)
          × (a : Added) × (add r.reassembler hdr payload now_ns ≡ some a)
          × IsTaken r q len r1 r2 a)
unfolding take_parsed to_string
take_parsed-cases r q len no_error hdr payload now_ns r1 r2 h =
    let (a, found, taken) =
      after_add-IsTaken r q len hdr (add r.reassembler hdr payload now_ns) r1 r2 h in
    inr (refl, a, found, taken)
take_parsed-cases r q len truncated hdr payload now_ns r1 r2 h =
    inl (cc, note_malformed-of r q "truncated" hdr.source_id false (some-inj h))
take_parsed-cases r q len bad_magic hdr payload now_ns r1 r2 h =
    inl (cc, note_malformed-of r q "bad_magic" hdr.source_id false (some-inj h))
take_parsed-cases r q len bad_version hdr payload now_ns r1 r2 h =
    inl (cc, note_malformed-of r q "bad_version" hdr.source_id false (some-inj h))
take_parsed-cases r q len bad_fragment_count hdr payload now_ns r1 r2 h =
    inl (cc, note_malformed-of r q "bad_fragment_count" hdr.source_id true (some-inj h))
take_parsed-cases r q len bad_fragment_index hdr payload now_ns r1 r2 h =
    inl (cc, note_malformed-of r q "bad_fragment_index" hdr.source_id true (some-inj h))
take_parsed-cases r q len length_mismatch hdr payload now_ns r1 r2 h =
    inl (cc, note_malformed-of r q "length_mismatch" hdr.source_id true (some-inj h))
take_parsed-cases r q len range_error hdr payload now_ns r1 r2 h =
    inl (cc, note_malformed-of r q "range_error" hdr.source_id true (some-inj h))
take_parsed-cases r q len flag_mismatch hdr payload now_ns r1 r2 h =
    inl (cc, note_malformed-of r q "flag_mismatch" hdr.source_id true (some-inj h))

-- A datagram is counted once. Either the parser refuses it: one more is malformed, and reassembler,
-- sequence numbers and capture file stay as they are. Or it is accepted: one more datagram is
-- counted, the reassembler is in the state that `add` leaves, and by the result of `add` one more
-- message, duplicate or malformed fragment is counted, or none of them. The capture file changes
-- only for a complete message that is not skipped, by the write of its record.
pub handle_datagram_counts :
    (r q : Receiver) (bytes : Bytes) (now_ns : ℕ) (r1 r2 : WriteResult)
    → handle_datagram r bytes now_ns r1 r2 ≡ some q
    → (((parse_datagram bytes default_header).err ≢ no_error) × IsRefused r q)
      ⊎ (((parse_datagram bytes default_header).err ≡ no_error)
          × (a : Added) × (add r.reassembler
                (parse_datagram bytes default_header).hdr
                (parse_datagram bytes default_header).payload
                now_ns
              ≡ some a)
          × IsTaken r q (length bytes) r1 r2 a)
unfolding handle_datagram
handle_datagram_counts r q bytes now_ns r1 r2 h =
    let p = parse_datagram bytes default_header in
    take_parsed-cases r q (length bytes) p.err p.hdr p.payload now_ns r1 r2 h
