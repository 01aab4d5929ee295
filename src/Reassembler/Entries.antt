-- ===== src/Reassembler/Entries.antt =====
-- An entry of the reassembler beside the message whose fragments it collects (reassembler.cpp).
use ipc_data_relay.Common.{
  ℕ, zero, suc, ◌+◌, ◌-◌, ◌*◌, ◌/◌, ◌^◌, ◌≤◌, ◌<◌, ◌≡◌, ◌≢◌, refl, sym, ap, ◌∙◌, ◌⊎◌, inl, inr, min,
  [], ◌∷◌, arith, ltb, length, take, drop, get_or, set, replicate, write, length-set,
  length-replicate, length-take, length-drop, length-write, get_or-set, get_or-take, get_or-drop,
  get_or-write_in, get_or-write_out, list_ext, Bool-cases,
}
use native.Mathlib.Nat.{div-add-mod'}
use native.Mathlib.Decide.{ℕ_discrete, dec_lt}
use ipc_data_relay.Byteorder.{Bytes}
use ipc_data_relay.Wire.{Header, fragment_count_for}
use ipc_data_relay.Wire.Fragments.{fragment_count_for_bounds}
use ipc_data_relay.Reassembler.{Entry, receive, fresh_entry}

-- A message as its sender has it.
pub record Message : Type 0 where
  pub timestamp_ns : ℕ
  pub flags : ℕ
  pub body : Bytes

-- The header and the bytes behind it are the fragment at place `fragment_index` of the message, cut
-- into pieces of `chunk` bytes.
pub record IsFragmentOf (chunk : ℕ) (m : Message) (hdr : Header) (payload : Bytes) : Type 0 where
  pub count : hdr.fragment_count ≡ fragment_count_for (length m.body) chunk
  pub small : hdr.fragment_count < 2 ^ 16
  pub total : hdr.message_length ≡ length m.body
  pub index : hdr.fragment_index < hdr.fragment_count
  pub offset : hdr.fragment_offset ≡ hdr.fragment_index * chunk
  pub size : hdr.fragment_length ≡ min chunk (length m.body - hdr.fragment_offset)
  pub bytes :
      take hdr.fragment_length payload ≡ take hdr.fragment_length (drop hdr.fragment_offset m.body)
  pub timestamp : hdr.timestamp_ns ≡ m.timestamp_ns
  pub flags : hdr.flags ≡ m.flags

abbrev pub IsBits : Bytes → Type 0
IsBits [] = Unit {0}
IsBits (b ∷ bs) = (b ≤ 1) × IsBits bs

pub ones : Bytes → ℕ
ones [] = 0
ones (b ∷ bs) = b + ones bs

IsBits-set : (xs : Bytes) (i : ℕ) → IsBits xs → IsBits (set xs i 1)
IsBits-set [] i h = h
IsBits-set (x ∷ xs) zero h = (omega arith, h.1)
IsBits-set (x ∷ xs) (suc i) h = (h.0, IsBits-set xs i h.1)

ones-set :
    (xs : Bytes) (i : ℕ) → i < length xs → get_or xs i 0 ≡ 0 → ones (set xs i 1) ≡ suc (ones xs)
unfolding ones
ones-set [] i h z = absurd (omega arith)
ones-set (x ∷ xs) zero h z = omega arith
ones-set (x ∷ xs) (suc i) h z = omega (arith, ones-set xs i (omega arith) z)

pub ones-le-length : (xs : Bytes) → IsBits xs → ones xs ≤ length xs
unfolding ones
ones-le-length [] h = omega arith
ones-le-length (x ∷ xs) h = omega (arith, ones-le-length xs h.1)

pub ones_full :
    (xs : Bytes) (i : ℕ) → IsBits xs → length xs ≤ ones xs → i < length xs → get_or xs i 0 ≢ 0
unfolding ones
ones_full [] i b h p = absurd (omega arith)
ones_full (x ∷ xs) zero b h p = omega (arith, ones-le-length xs b.1)
ones_full (x ∷ xs) (suc i) b h p = ones_full xs i b.1 (omega arith) (omega arith)

pub ones-replicate : (n : ℕ) → (ones (replicate n 0) ≡ 0) × IsBits (replicate n 0)
unfolding ones
ones-replicate zero = (refl, tt)
ones-replicate (suc n) = (omega (arith, (ones-replicate n).0), (omega arith, (ones-replicate n).1))

pub get_or-replicate : (n i : ℕ) → ◌≡◌ {A = ℕ} (get_or (replicate n 0) i 0) 0
get_or-replicate zero i = refl
get_or-replicate (suc n) zero = refl
get_or-replicate (suc n) (suc i) = get_or-replicate n i

-- What has been received of the message stands in the buffer, at its place.
pub record IsPartial (chunk : ℕ) (m : Message) (e : Entry) : Type 0 where
  pub count : e.fragment_count ≡ fragment_count_for (length m.body) chunk
  pub small : e.fragment_count < 2 ^ 16
  pub total : e.message_length ≡ length m.body
  pub size : length e.buffer ≡ length m.body
  pub slots : length e.received ≡ e.fragment_count
  pub bits : IsBits e.received
  pub tally : e.fragments_received ≡ ones e.received
  pub filled :
      (i j : ℕ)
      → get_or e.received i 0 ≢ 0
      → i * chunk ≤ j
      → j < i * chunk + chunk
      → j < length m.body
      → get_or e.buffer j 0 ≡ get_or m.body j 0
  pub timestamp : e.timestamp_ns ≡ m.timestamp_ns
  pub flags : e.flags ≡ m.flags

-- The piece in which a byte stands.
piece_of : (j c : ℕ) → 0 < c → (j / c * c ≤ j) × (j < j / c * c + c)
piece_of j c pos = (grind (arith, div-add-mod' j c), grind (arith, div-add-mod' j c))

piece_lt : (i n j len c : ℕ) → i * c ≤ j → j < len → len ≤ n * c → i < n
piece_lt i n j len c lo lt le = grind arith

-- A new entry has received nothing.
pub fresh_entry-IsPartial :
    (chunk : ℕ) (m : Message) (hdr : Header) (payload : Bytes) (now_ns : ℕ)
    → IsFragmentOf chunk m hdr payload
    → IsPartial chunk m (fresh_entry hdr now_ns)
fresh_entry-IsPartial chunk m hdr payload now_ns f = record {
  count = f.count;
  small = f.small;
  total = f.total;
  size = length-replicate hdr.message_length 0 ∙ f.total;
  slots = length-replicate hdr.fragment_count 0;
  bits = (ones-replicate hdr.fragment_count).1;
  tally = sym (ones-replicate hdr.fragment_count).0;
  filled = λ i j h _ _ _. absurd (h (get_or-replicate hdr.fragment_count i));
  timestamp = f.timestamp;
  flags = f.flags;
}

piece_le : (a b c : ℕ) → a ≤ b → a * c ≤ b * c
piece_le a b c h = grind arith

-- Two pieces do not overlap.
pieces_apart : (i k j c : ℕ) → i ≢ k → i * c ≤ j → j < i * c + c → (j < k * c) ⊎ (k * c + c ≤ j)
pieces_apart i k j c ne lo hi = elim (dec_lt i k) [
  | yes p ↦ inl (omega (arith, piece_le (suc i) k c p))
  | no p ↦ inr (omega (arith, piece_le (suc k) i c (omega arith)))
]

module _ (chunk : ℕ) (m : Message) (hdr : Header) (payload : Bytes) (e : Entry) where
  abbrev copied : Bytes
  copied = take hdr.fragment_length payload

  -- The copy inside its piece: the bytes of the message.
  write_piece :
      IsFragmentOf chunk m hdr payload
      → length e.buffer ≡ length m.body
      → (j : ℕ) → hdr.fragment_index * chunk ≤ j
      → j < hdr.fragment_index * chunk + chunk
      → j < length m.body
      → get_or (write e.buffer hdr.fragment_offset copied) j 0 ≡ get_or m.body j 0
  write_piece f size j lo hi lt =
      let off = hdr.fragment_offset in
      let d = j - off in
      let len : length copied ≡ hdr.fragment_length =
        ap length f.bytes
        ∙ omega (
          arith,
          f.size,
          length-take hdr.fragment_length (drop off m.body),
          length-drop off m.body,
        ) in
      let lt_d : d < hdr.fragment_length = omega (arith, f.size, f.offset) in
      get_or-write_in e.buffer off copied d j 0 (omega arith) (omega (arith, f.offset))
        (omega arith)
      ∙ ap (λ (t : Bytes). get_or t d 0) f.bytes
      ∙ get_or-take (drop off m.body) hdr.fragment_length d 0 lt_d
      ∙ get_or-drop m.body off d j 0 (omega (arith, f.offset))

  -- Outside its piece a fragment changes nothing.
  write_elsewhere :
      IsFragmentOf chunk m hdr payload
      → (i j : ℕ) → i ≢ hdr.fragment_index
      → i * chunk ≤ j
      → j < i * chunk + chunk
      → get_or (write e.buffer hdr.fragment_offset copied) j 0 ≡ get_or e.buffer j 0
  write_elsewhere f i j ne lo hi = get_or-write_out e.buffer hdr.fragment_offset copied j 0 (
      omega (
        arith,
        f.offset,
        f.size,
        length-take hdr.fragment_length payload,
        pieces_apart i hdr.fragment_index j chunk ne lo hi,
      ))

  received_bit : ℕ → ℕ
  received_bit i = get_or (receive e hdr payload).received i 0

  -- The copy and the piece that it fills, whether or not the fragment is empty.
  receive-buffer :
      0 < chunk
      → IsFragmentOf chunk m hdr payload
      → length e.buffer ≡ length m.body
      → (j : ℕ) → hdr.fragment_index * chunk ≤ j
      → j < hdr.fragment_index * chunk + chunk
      → j < length m.body
      → get_or (receive e hdr payload).buffer j 0 ≡ get_or m.body j 0
  unfolding receive
  receive-buffer pos f size j lo hi lt = elim (Bool-cases (ltb 0 hdr.fragment_length)) [
    | inl some_bytes ↦ rw some_bytes (write_piece f size j lo hi lt)
    | inr empty ↦ absurd (ground (arith, f.size, f.offset))
  ]

  receive-buffer_elsewhere :
      IsFragmentOf chunk m hdr payload
      → (i j : ℕ) → i ≢ hdr.fragment_index
      → i * chunk ≤ j
      → j < i * chunk + chunk
      → get_or (receive e hdr payload).buffer j 0 ≡ get_or e.buffer j 0
  unfolding receive
  receive-buffer_elsewhere f i j ne lo hi = elim (Bool-cases (ltb 0 hdr.fragment_length)) [
    | inl some_bytes ↦ rw some_bytes (write_elsewhere f i j ne lo hi)
    | inr empty ↦ rw empty refl
  ]

  length-receive : length (receive e hdr payload).buffer ≡ length e.buffer
  unfolding receive
  length-receive = elim (Bool-cases (ltb 0 hdr.fragment_length)) [
    | inl some_bytes ↦ rw some_bytes (length-write e.buffer hdr.fragment_offset copied)
    | inr empty ↦ rw empty refl
  ]

  receive-filled :
      0 < chunk
      → IsFragmentOf chunk m hdr payload
      → IsPartial chunk m e
      → (i j : ℕ) → get_or (set e.received hdr.fragment_index 1) i 0 ≢ 0
      → i * chunk ≤ j
      → j < i * chunk + chunk
      → j < length m.body
      → get_or (receive e hdr payload).buffer j 0 ≡ get_or m.body j 0
  receive-filled pos f p i j h lo hi lt = elim (ℕ_discrete i hdr.fragment_index) [
    | yes same ↦ receive-buffer pos f p.size j (rw same at lo) (rw same at hi) lt
    | no other ↦
        receive-buffer_elsewhere f i j other lo hi
        ∙ p.filled i j
            (λ z. h (
              get_or-set e.received hdr.fragment_index i 1 0
                (omega (arith, f.index, f.count, p.count, p.slots))
              ∙ ground arith))
            lo hi lt
  ]

  -- A fragment that was not there yet is put in its place.
  pub receive-IsPartial :
      0 < chunk
      → IsFragmentOf chunk m hdr payload
      → IsPartial chunk m e
      → get_or e.received hdr.fragment_index 0 ≡ 0
      → IsPartial chunk m (receive e hdr payload)
  unfolding receive
  receive-IsPartial pos f p z =
      let at : hdr.fragment_index < length e.received =
        omega (arith, f.index, f.count, p.count, p.slots) in
      let one_more = ones-set e.received hdr.fragment_index at z in
      let bits = IsBits-set e.received hdr.fragment_index p.bits in
      let few = ones-le-length (set e.received hdr.fragment_index 1) bits in
      let slots = length-set e.received hdr.fragment_index 1 in
      record {
        count = p.count;
        small = p.small;
        total = p.total;
        size = length-receive ∙ p.size;
        slots = slots ∙ p.slots;
        bits = bits;
        tally = omega (arith, p.tally, one_more, few, slots, p.slots, p.small);
        filled = receive-filled pos f p;
        timestamp = p.timestamp;
        flags = p.flags;
      }

-- When as many fragments have come as there are, the buffer is the message.
pub IsPartial-full :
    (chunk : ℕ) (m : Message) (e : Entry)
    → 0 < chunk
    → IsPartial chunk m e
    → e.fragment_count ≤ e.fragments_received
    → e.buffer ≡ m.body
IsPartial-full chunk m e pos p h = list_ext e.buffer m.body 0 p.size λ j lt.
    let bounds = fragment_count_for_bounds (length m.body) chunk pos in
    let i = j / chunk in
    let (lo, hi) = piece_of j chunk pos in
    let inside : i < e.fragment_count =
      piece_lt i e.fragment_count j (length m.body) chunk lo lt (rw p.count bounds.1) in
    p.filled i j
      (ones_full e.received i p.bits (omega (arith, p.slots, p.tally)) (omega (arith, p.slots))) lo
      hi lt
