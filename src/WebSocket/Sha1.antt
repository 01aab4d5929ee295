-- ===== src/WebSocket/Sha1.antt =====
-- sha1 of tools/ctl/backend/websocket.cpp. A uint32_t is a number below 2 ^ 32.
use Prim.Native.Nat.{bit_and, bit_or, bit_xor}
use ipc_data_relay.Common.{
  ℕ, zero, suc, ◌+◌, ◌-◌, ◌*◌, ◌/◌, ◌%◌, ◌^◌, ◌≡◌, refl, ap, ◌∙◌, List, [], ◌∷◌, ◌++◌, ltb, ◌==◌,
  if◌then◌else◌, ◌≤◌, ◌≢◌, sym, Bool-cases, inl, inr, ==_iff, not-true, length, get_or,
  length-append, arith,
}
use ipc_data_relay.Byteorder.{Bytes, IsBytes, byte_at}

abbrev pub rotl : ℕ → ℕ → ℕ
rotl v n = v * 2 ^ n % 2 ^ 32 + v / 2 ^ (32 - n)

-- ~b
abbrev pub complement : ℕ → ℕ
complement b = 2 ^ 32 - 1 - b

-- h[0] to h[4], and the variables a to e of a round.
pub record State : Type 0 where
  pub a : ℕ
  pub b : ℕ
  pub c : ℕ
  pub d : ℕ
  pub e : ℕ

abbrev pub initial : State
initial = record { a = 0x67452301; b = 0xEFCDAB89; c = 0x98BADCFE; d = 0x10325476; e = 0xC3D2E1F0 }

-- The loop that pads with zeros, on fuel.
unfoldable pub pad_zeros : ℕ → Bytes → Bytes
pad_zeros zero m = m
pad_zeros (suc fuel) m =
    let rest = pad_zeros fuel (m ++ 0 ∷ []) in if length m % 64 == 56 then m else rest

-- The loop that writes the length in bits; `rounds` are left, and the shift is 8 * rounds after each.
unfoldable pub bit_length : ℕ → ℕ → Bytes
bit_length zero n = []
bit_length (suc rounds) n = n / 2 ^ (8 * rounds) % 256 ∷ bit_length rounds n

unfoldable pub padded : Bytes → Bytes
unfolding pad_zeros bit_length
padded input = pad_zeros 64 (input ++ 0x80 ∷ []) ++ bit_length 8 (length input * 8 % 2 ^ 64)

-- w[0] to w[15]; `rounds` are left
unfoldable pub first_words : ℕ → Bytes → ℕ → List ℕ
first_words zero m at = []
first_words (suc rounds) m at =
    (byte_at m at * 2 ^ 24
      + byte_at m (at + 1) * 2 ^ 16
      + byte_at m (at + 2) * 2 ^ 8
      + byte_at m (at + 3))
    ∷ first_words rounds m (at + 4)

-- w[16] to w[79]: the next word goes behind those that are there.
unfoldable pub more_words : ℕ → ℕ → List ℕ → List ℕ
more_words zero i w = w
more_words (suc rounds) i w = more_words rounds (i + 1) (
    w
    ++ rotl
        (bit_xor (bit_xor (bit_xor (get_or w (i - 3) 0) (get_or w (i - 8) 0)) (get_or w (i - 14) 0))
          (get_or w (i - 16) 0))
        1
      ∷ [])

abbrev pub mix : ℕ → State → ℕ
mix i s =
    if ltb i 20
    then bit_or (bit_and s.b s.c) (bit_and (complement s.b) s.d)
    else if ltb i 40
    then bit_xor (bit_xor s.b s.c) s.d
    else if ltb i 60
    then bit_or (bit_or (bit_and s.b s.c) (bit_and s.b s.d)) (bit_and s.c s.d)
    else bit_xor (bit_xor s.b s.c) s.d

abbrev pub round_constant : ℕ → ℕ
round_constant i =
    if ltb i 20
    then 0x5A827999
    else if ltb i 40
    then 0x6ED9EBA1
    else if ltb i 60
    then 0x8F1BBCDC
    else 0xCA62C1D6

abbrev pub step : ℕ → List ℕ → State → State
step i w s = record {
  a = (rotl s.a 5 + mix i s + s.e + round_constant i + get_or w i 0) % 2 ^ 32;
  b = s.a;
  c = rotl s.b 30;
  d = s.c;
  e = s.d;
}

unfoldable pub rounds_loop : ℕ → ℕ → List ℕ → State → State
rounds_loop zero i w s = s
rounds_loop (suc rounds) i w s = rounds_loop rounds (i + 1) w (step i w s)

-- One block of 64 bytes, from place `off` on.
unfoldable pub block : Bytes → ℕ → State → State
unfolding first_words more_words rounds_loop
block m off h =
    let s = rounds_loop 80 0 (more_words 64 16 (first_words 16 m off)) h in
    record {
      a = (h.a + s.a) % 2 ^ 32;
      b = (h.b + s.b) % 2 ^ 32;
      c = (h.c + s.c) % 2 ^ 32;
      d = (h.d + s.d) % 2 ^ 32;
      e = (h.e + s.e) % 2 ^ 32;
    }

-- The loop over the blocks, of which `count` are left.
unfoldable pub blocks : ℕ → Bytes → ℕ → State → State
unfolding block
blocks zero m off h = h
blocks (suc count) m off h = blocks count m (off + 64) (block m off h)

unfoldable pub put_word : ℕ → Bytes
put_word v = v / 2 ^ 24 % 256 ∷ v / 2 ^ 16 % 256 ∷ v / 2 ^ 8 % 256 ∷ v % 256 ∷ []

unfoldable pub sha1 : Bytes → Bytes
unfolding padded blocks put_word
sha1 input =
    let m = padded input in
    let h = blocks (length m / 64) m 0 initial in
    put_word h.a ++ put_word h.b ++ put_word h.c ++ put_word h.d ++ put_word h.e

-- How many zeros bring a length to 56 modulo 64.
abbrev missing : ℕ → ℕ
missing n = (120 - n % 64) % 64

-- Enough fuel is given.
pad_zeros-length :
    (fuel : ℕ) (m : Bytes) → missing (length m) ≤ fuel → length (pad_zeros fuel m) % 64 ≡ 56
unfolding pad_zeros
pad_zeros-length zero m h = omega arith
pad_zeros-length (suc fuel) m h =
    let l = length-append m (0 ∷ []) in
    elim (Bool-cases (length m % 64 == 56)) [
      | inl e ↦ rw e ((==_iff _ 56).0 e)
      | inr e ↦
          let ne : length m % 64 ≢ 56 = λ q. not-true (sym ((==_iff _ 56).1 q) ∙ e) in
          rw e (pad_zeros-length fuel (m ++ 0 ∷ []) (omega arith))
    ]

length-bit_length : (rounds n : ℕ) → length (bit_length rounds n) ≡ rounds
unfolding bit_length
length-bit_length zero n = refl
length-bit_length (suc rounds) n = ap suc (length-bit_length rounds n)

-- The padded input is a whole number of blocks.
pub length-padded : (input : Bytes) → length (padded input) % 64 ≡ 0
unfolding padded
length-padded input =
    let p = pad_zeros-length 64 (input ++ 0x80 ∷ []) (omega arith) in
    let l =
      length-append (pad_zeros 64 (input ++ 0x80 ∷ []))
        (bit_length 8 (length input * 8 % 2 ^ 64)) in
    let b = length-bit_length 8 (length input * 8 % 2 ^ 64) in omega arith

pub length-sha1 : (input : Bytes) → length (sha1 input) ≡ 20
unfolding sha1 put_word
length-sha1 input = refl

put_word-IsBytes : (v : ℕ) → IsBytes (put_word v)
unfolding put_word
put_word-IsBytes v = (omega arith, (omega arith, (omega arith, (omega arith, tt))))

append-IsBytes : (xs ys : Bytes) → IsBytes xs → IsBytes ys → IsBytes (xs ++ ys)
append-IsBytes [] ys h k = k
append-IsBytes (x ∷ xs) ys h k = (h.0, append-IsBytes xs ys h.1 k)

append_words-IsBytes :
    (h : State)
    → IsBytes (put_word h.a ++ put_word h.b ++ put_word h.c ++ put_word h.d ++ put_word h.e)
unfolding put_word
append_words-IsBytes h =
    append-IsBytes (put_word h.a) (put_word h.b ++ put_word h.c ++ put_word h.d ++ put_word h.e)
      (put_word-IsBytes h.a)
      (append-IsBytes (put_word h.b) (put_word h.c ++ put_word h.d ++ put_word h.e)
        (put_word-IsBytes h.b)
        (append-IsBytes (put_word h.c) (put_word h.d ++ put_word h.e) (put_word-IsBytes h.c) (
          append-IsBytes (put_word h.d) (put_word h.e) (put_word-IsBytes h.d)
            (put_word-IsBytes h.e))))

pub sha1-IsBytes : (input : Bytes) → IsBytes (sha1 input)
unfolding sha1
sha1-IsBytes input =
    append_words-IsBytes (blocks (length (padded input) / 64) (padded input) 0 initial)
