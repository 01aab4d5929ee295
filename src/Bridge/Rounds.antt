-- ===== src/Bridge/Rounds.antt =====
-- The fragments that the rounds of `transmit` make (bridge.cpp): sizes, offsets and headers.
use ipc_data_relay.Common.{
  ℕ, ◌+◌, ◌-◌, ◌*◌, ◌%◌, ◌^◌, ◌≤◌, ◌<◌, ◌≡◌, refl, sym, ap, ap₂, ◌∙◌, min, false, arith, ltb,
  if◌then◌else◌, length, take, drop, take-length, length-take, length-drop,
}
use ipc_data_relay.Byteorder.{Bytes}
use ipc_data_relay.Wire.{
  Header, no_error, IsHeader, IsFragment, parse_datagram, fragment_count_for, has_flag, add_flag,
  k_flag_fragmented,
}
use ipc_data_relay.Wire.Fragments.{fragment_count_for_bounds}
use ipc_data_relay.Wire.RoundTrip.{parse_datagram-encode_header}
use ipc_data_relay.Reassembler.Entries.{Message, IsFragmentOf}
use ipc_data_relay.Bridge.{piece, round_header, datagram, message_header}

mul_le : (a b c : ℕ) → a ≤ b → a * c ≤ b * c
mul_le a b c h = grind arith

no_pieces : (i c : ℕ) → i ≡ 0 → i * c ≡ 0
no_pieces i c h = rw h (omega arith)

-- The piece of round i among `count`.
pub record IsPiece (len chunk count i n : ℕ) : Type 0 where
  pub within : i * chunk + n ≤ len
  pub size : n ≡ min chunk (len - i * chunk)
  pub last : i + 1 ≡ count → i * chunk + n ≡ len
  pub middle : i + 1 < count → n ≡ chunk

pub piece-IsPiece :
    (len chunk i : ℕ)
    → 0 < chunk
    → i < fragment_count_for len chunk
    → IsPiece len chunk (fragment_count_for len chunk) i (piece len chunk (i * chunk))
piece-IsPiece len chunk i pos h =
    let c = fragment_count_for len chunk in
    let (least, covers, few, before, more) = fragment_count_for_bounds len chunk pos in
    let below = mul_le i (c - 1) chunk (omega arith) in
    record {
      within = ground arith;
      size = ground arith;
      last = λ e. let covered : len ≤ (i + 1) * chunk = rw e covers in ground arith;
      middle = λ lt. let next = mul_le (i + 1) (c - 1) chunk (omega arith) in ground arith;
    }

-- A message and the settings under which it can be sent.
pub record CanSend (id chunk flags sequence timestamp_ns : ℕ) (body : Bytes) : Type 0 where
  pub id_fits : id < 2 ^ 32
  pub chunk_pos : 0 < chunk
  pub chunk_fits : chunk < 2 ^ 16
  pub flags_fit : flags < 2 ^ 16
  pub flags_whole : has_flag flags k_flag_fragmented ≡ false
  pub sequence_fits : sequence < 2 ^ 64
  pub timestamp_fits : timestamp_ns < 2 ^ 64
  pub length_fits : length body < 2 ^ 32
  pub count_fits : fragment_count_for (length body) chunk < 2 ^ 16

module _ (id chunk flags sequence timestamp_ns : ℕ) (body : Bytes) where
  abbrev count : ℕ
  count = fragment_count_for (length body) chunk

  abbrev pub message_flags : ℕ
  message_flags = if ltb 1 count then add_flag flags k_flag_fragmented else flags

  -- The message as the receiver is to see it.
  abbrev pub message : Message
  message = record { timestamp_ns = timestamp_ns; flags = message_flags; body = body }

  abbrev header : Header
  header = message_header id flags sequence timestamp_ns (length body) count

  -- A datagram that the receiver parses into the fragment at place i of the message.
  abbrev pub Carries : ℕ → Bytes → Type 0
  Carries i d =
      (hdr : Header) × (payload : Bytes) × ((h0 : Header)
        → parse_datagram d h0 ≡ record { err = no_error; hdr = hdr; payload = payload })
      × IsFragmentOf chunk message hdr payload
      × (hdr.fragment_index ≡ i)
      × (hdr.source_id ≡ id)
      × (hdr.sequence ≡ sequence)

  module _ (can : CanSend id chunk flags sequence timestamp_ns body) (i n : ℕ) (lt : i < count)
      (p : IsPiece (length body) chunk count i n) where
    abbrev hdr : Header
    hdr = round_header header i (i * chunk) n

    flags_facts :
        (message_flags < 2 ^ 16) × (has_flag message_flags k_flag_fragmented ≡ ltb 1 count)
    flags_facts = ground (arith, can.flags_whole, can.flags_fit)

    hdr-IsHeader : IsHeader hdr
    hdr-IsHeader = record {
      version = omega arith;
      flags = flags_facts.0;
      source_id = can.id_fits;
      message_length = omega arith;
      sequence = can.sequence_fits;
      timestamp_ns = can.timestamp_fits;
      fragment_offset = omega arith;
      fragment_index = omega arith;
      fragment_count = omega arith;
      fragment_length = omega arith;
    }

    same_count : count % 2 ^ 16 ≡ count
    same_count = omega (arith, can.count_fits)

    same_offset : i * chunk % 2 ^ 32 ≡ i * chunk
    same_offset = omega (arith, p.within, can.length_fits)

    same_length : n % 2 ^ 16 ≡ n
    same_length = omega (arith, p.size, can.chunk_fits)

    same_index : i % 2 ^ 16 ≡ i
    same_index = omega (arith, lt, can.count_fits)

    length-copy : length (take n (drop (i * chunk) body)) ≡ n
    length-copy =
        omega (arith, p.within, length-take n (drop (i * chunk) body), length-drop (i * chunk) body)

    hdr-IsFragment : IsFragment hdr (length (take n (drop (i * chunk) body)))
    hdr-IsFragment = record {
      index = omega (arith, lt, same_count, same_index);
      size = omega (arith, same_length, length-copy);
      range = omega (arith, p.within, same_length, same_offset, can.length_fits);
      flag = flags_facts.1 ∙ ap (ltb 1) (sym same_count);
      single = λ one.
          let start = no_pieces i chunk (omega (arith, lt, same_count)) in
          let all = p.last (omega (arith, lt, same_count)) in
          (omega arith, omega (arith, same_length, can.length_fits));
      last = λ many end.
          let all = p.last (omega (arith, same_count, same_index)) in
          omega (arith, same_offset, same_length, can.length_fits);
      middle =
          λ many more. omega (arith, p.middle, same_count, same_index, same_length, can.chunk_pos);
    }

    hdr-IsFragmentOf : IsFragmentOf chunk message hdr (take n (drop (i * chunk) body))
    hdr-IsFragmentOf = record {
      count = same_count;
      small = omega arith;
      total = omega (arith, can.length_fits);
      index = omega (arith, lt, same_count, same_index);
      offset = same_offset ∙ ap (λ t. t * chunk) (sym same_index);
      size = omega (arith, same_length, same_offset, p.size);
      bytes =
          let fits : length (take n (drop (i * chunk) body)) ≡ n % 2 ^ 16 =
            length-copy ∙ sym same_length in
          ap (λ k. take k (take n (drop (i * chunk) body))) (sym fits)
          ∙ take-length (take n (drop (i * chunk) body))
          ∙ ap₂ (λ k o. take k (drop o body)) (sym same_length) (sym same_offset);
      timestamp = refl;
      flags = refl;
    }

    -- A round's datagram carries its piece.
    pub datagram-Carries : Carries i (datagram header body i (i * chunk) n)
    datagram-Carries = (
      hdr,
      take n (drop (i * chunk) body),
      λ h0. parse_datagram-encode_header hdr h0 _ hdr-IsHeader refl hdr-IsFragment,
      hdr-IsFragmentOf,
      same_index,
      refl,
      refl,
    )
