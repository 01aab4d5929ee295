-- ===== src/WebSocket/Masks.antt =====
-- The mask of RFC 6455, section 5.3, and the loop of ws_parse_frame that undoes it
-- (tools/ctl/backend/websocket.cpp).
use Prim.Native.Nat.{bit_xor}
use ipc_data_relay.Common.{
  ℕ, zero, suc, ◌+◌, ◌%◌, ◌<◌, ◌≡◌, refl, sym, ap, ap₂, ◌∙◌, ◌⊎◌, [], ◌∷◌, ◌++◌, length, drop,
  arith, get_or-append_left, get_or-drop, drop-drop,
}
use ipc_data_relay.Common.Bits.{xor_twice}
use ipc_data_relay.Byteorder.{Bytes, IsBytes, byte_at}
use ipc_data_relay.WebSocket.{unmask}

-- The four octets of the masking key.
pub record Mask : Type 0 where
  pub m0 : ℕ
  pub m1 : ℕ
  pub m2 : ℕ
  pub m3 : ℕ

pub record IsMask (m : Mask) : Type 0 where
  pub b0 : m.m0 < 256
  pub b1 : m.m1 < 256
  pub b2 : m.m2 < 256
  pub b3 : m.m3 < 256

-- Octet i of the payload goes with octet i modulo 4 of the key: the key turns by one octet.
abbrev pub turn : Mask → Mask
turn m = record { m0 = m.m1; m1 = m.m2; m2 = m.m3; m3 = m.m0 }

abbrev pub masked : Mask → Bytes → Bytes
masked m [] = []
masked m (b ∷ bs) = bit_xor b m.m0 ∷ masked (turn m) bs

pub length-masked : (m : Mask) (bs : Bytes) → length (masked m bs) ≡ length bs
length-masked m [] = refl
length-masked m (b ∷ bs) = ap suc (length-masked (turn m) bs)

-- The key as the loop reads it.
abbrev key_at : Mask → ℕ → ℕ
key_at m i = byte_at (m.m0 ∷ m.m1 ∷ m.m2 ∷ m.m3 ∷ []) (i % 4)

turn_at :
    (m : Mask) (r q : ℕ)
    → r < 4
    → ((r + 1 ≡ q) × (q < 4)) ⊎ ((r ≡ 3) × (q ≡ 0))
    → byte_at (m.m1 ∷ m.m2 ∷ m.m3 ∷ m.m0 ∷ []) r ≡ byte_at (m.m0 ∷ m.m1 ∷ m.m2 ∷ m.m3 ∷ []) q
turn_at m zero q h e = rw (let w : q ≡ 1 = omega arith in w)
turn_at m (suc zero) q h e = rw (let w : q ≡ 2 = omega arith in w)
turn_at m (suc (suc zero)) q h e = rw (let w : q ≡ 3 = omega arith in w)
turn_at m (suc (suc (suc zero))) q h e = rw (let w : q ≡ 0 = omega arith in w)
turn_at m (suc (suc (suc (suc r)))) q h e = absurd (omega arith)

key_at-turn : (m : Mask) (i : ℕ) → key_at (turn m) i ≡ key_at m (i + 1)
key_at-turn m i = turn_at m (i % 4) ((i + 1) % 4) (omega arith) (omega arith)

turn-IsMask : (m : Mask) → IsMask m → IsMask (turn m)
turn-IsMask m h = record { b0 = h.b1; b1 = h.b2; b2 = h.b3; b3 = h.b0 }

-- The loop undoes the mask.
unmask-masked :
    (buf : Bytes) (pos mask_pos i : ℕ) (m : Mask) (bs rest : Bytes)
    → IsBytes bs
    → IsMask m
    → ((j : ℕ) → byte_at buf (mask_pos + (i + j) % 4) ≡ key_at m j)
    → drop (pos + i) buf ≡ masked m bs ++ rest
    → unmask (length bs) buf pos mask_pos i ≡ bs
unfolding unmask
unmask-masked buf pos mask_pos i m [] rest hb hm k d = refl
unmask-masked buf pos mask_pos i m (b ∷ bs) rest hb hm k d =
    ap₂ ◌∷◌
      (ap₂ bit_xor
          (sym (get_or-drop buf (pos + i) 0 (pos + i) 0 (omega arith)) ∙ ap (λ l. byte_at l 0) d)
          (ap (λ j. byte_at buf (mask_pos + j % 4)) (let w : i ≡ i + 0 = omega arith in w) ∙ k 0)
        ∙ xor_twice b m.m0 hb.0 hm.b0)
      (unmask-masked buf pos mask_pos (i + 1) (turn m) bs rest hb.1 (turn-IsMask m hm)
        (λ j.
          ap (λ l. byte_at buf (mask_pos + l % 4))
            (let w : i + 1 + j ≡ i + (j + 1) = omega arith in w)
          ∙ k (j + 1)
          ∙ sym (key_at-turn m j))
        (sym (drop-drop 1 (pos + i) (pos + (i + 1)) buf (omega arith)) ∙ ap (drop 1) d))

-- What stands in the buffer behind the length.
pub unmask_all :
    (buf : Bytes) (pos : ℕ) (m : Mask) (bs rest : Bytes)
    → IsBytes bs
    → IsMask m
    → drop pos buf ≡ m.m0 ∷ m.m1 ∷ m.m2 ∷ m.m3 ∷ masked m bs ++ rest
    → unmask (length bs) buf (pos + 4) pos 0 ≡ bs
unmask_all buf pos m bs rest hb hm d =
    unmask-masked buf (pos + 4) pos 0 m bs rest hb hm
      (λ j.
        sym (get_or-drop buf pos (j % 4) (pos + (0 + j) % 4) 0 (omega arith))
        ∙ ap (λ l. byte_at l (j % 4)) d
        ∙ get_or-append_left (m.m0 ∷ m.m1 ∷ m.m2 ∷ m.m3 ∷ []) (masked m bs ++ rest) (j % 4) 0
            (omega arith))
      (sym (drop-drop 4 pos (pos + 4 + 0) buf (omega arith)) ∙ ap (drop 4) d)
