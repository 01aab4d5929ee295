-- ===== src/WebSocket/Prefix.antt =====
-- ws_parse_frame on a buffer that grows as bytes arrive (tools/ctl/backend/websocket.cpp).
use Prim.Native.Nat.{bit_xor}
use ipc_data_relay.Common.{
  ℕ, zero, suc, ◌+◌, ◌*◌, ◌/◌, ◌%◌, ◌^◌, ◌<◌, ◌≤◌, ◌≡◌, ◌≢◌, refl, ap, ap₂, ◌∙◌, ◌⊎◌, Bool, true,
  false, ◌∷◌, ◌++◌, ltb, ◌==◌, length, length-append, Bool-cases, inl, inr, arith,
  get_or-append_left,
}
use ipc_data_relay.Byteorder.{Bytes, byte_at}
use ipc_data_relay.Text.{codes}
use ipc_data_relay.Json.{decimal}
use ipc_data_relay.WebSocket.{
  WsFrame, need_more, frame, error, is_opcode, length_loop, unmask, parse_body, parse_length,
  ws_parse_frame,
}

unmask-append :
    (n : ℕ) (buf rest : Bytes) (pos mask_pos i : ℕ)
    → pos + i + n ≤ length buf
    → mask_pos + 4 ≤ length buf
    → unmask n (buf ++ rest) pos mask_pos i ≡ unmask n buf pos mask_pos i
unfolding unmask
unmask-append zero buf rest pos mask_pos i h k = refl
unmask-append (suc n) buf rest pos mask_pos i h k =
    ap₂ ◌∷◌
      (ap₂ bit_xor (get_or-append_left buf rest (pos + i) 0 (omega arith))
        (get_or-append_left buf rest (mask_pos + i % 4) 0 (omega arith)))
      (unmask-append n buf rest pos mask_pos (i + 1) (omega arith) k)

length_loop-append :
    (r : ℕ) (buf rest : Bytes) (i v : ℕ)
    → 2 + i + r ≤ length buf
    → length_loop r (buf ++ rest) i v ≡ length_loop r buf i v
unfolding length_loop
length_loop-append zero buf rest i v h = refl
length_loop-append (suc r) buf rest i v h =
    ap (λ b. length_loop r (buf ++ rest) (i + 1) (v * 2 ^ 8 % 2 ^ 64 + b))
      (get_or-append_left buf rest (2 + i) 0 (omega arith))
    ∙ length_loop-append r buf rest (i + 1) _ (omega arith)

parse_body-append :
    (buf rest : Bytes) (max_payload : ℕ) (fin : Bool) (op n pos : ℕ)
    → parse_body buf max_payload fin op n pos ≢ need_more
    → parse_body (buf ++ rest) max_payload fin op n pos ≡ parse_body buf max_payload fin op n pos
unfolding parse_body
parse_body-append buf rest max_payload fin op n pos h =
    let u : pos + 4 + n ≤ length buf
        → unmask n (buf ++ rest) (pos + 4) pos 0 ≡ unmask n buf (pos + 4) pos 0 =
      λ l. unmask-append n buf rest (pos + 4) pos 0 (omega arith) (omega arith) in
    let l = length-append buf rest in ground arith

-- A test of the length that has passed passes on a longer buffer.
longer :
    (k : ℕ) (buf rest : Bytes) → ltb (length buf) k ≡ false → ltb (length (buf ++ rest)) k ≡ false
longer k buf rest h = let l = length-append buf rest in ground arith

byte_at-append :
    (k : ℕ) (buf rest : Bytes) (i : ℕ)
    → ltb (length buf) k ≡ false
    → i < k
    → byte_at (buf ++ rest) i ≡ byte_at buf i
byte_at-append k buf rest i h lt = get_or-append_left buf rest i 0 (ground arith)

parse_length-append :
    (buf rest : Bytes) (max_payload : ℕ) (fin : Bool) (op s : ℕ)
    → parse_length buf max_payload fin op s ≢ need_more
    → parse_length (buf ++ rest) max_payload fin op s ≡ parse_length buf max_payload fin op s
unfolding parse_length
parse_length-append buf rest max_payload fin op s h = elim (Bool-cases (s == 126)) [
  | inl e ↦ elim (Bool-cases (ltb (length buf) 4)) [
    | inl g ↦ absurd (h (rw (e, g) refl))
    | inr g ↦
        rw
          (
            e,
            g,
            longer 4 buf rest g,
            byte_at-append 4 buf rest 2 g (omega arith),
            byte_at-append 4 buf rest 3 g (omega arith),
          )
          (parse_body-append buf rest max_payload fin op _ 4 (λ q. h (rw (e, g) q)))
  ]
  | inr e ↦ elim (Bool-cases (s == 127)) [
    | inl d ↦ elim (Bool-cases (ltb (length buf) 10)) [
      | inl g ↦ absurd (h (rw (e, d, g) refl))
      | inr g ↦
          rw (e, d, g, longer 10 buf rest g, length_loop-append 8 buf rest 0 0 (ground arith))
            (parse_body-append buf rest max_payload fin op _ 10 (λ q. h (rw (e, d, g) q)))
    ]
    | inr d ↦ rw (e, d) (parse_body-append buf rest max_payload fin op s 2 (λ q. h (rw (e, d) q)))
  ]
]

-- Once ws_parse_frame has found a frame or an error, bytes that arrive later do not change what it
-- finds.
pub ws_parse_frame-append :
    (buf rest : Bytes) (max_payload : ℕ)
    → ws_parse_frame buf max_payload ≢ need_more
    → ws_parse_frame (buf ++ rest) max_payload ≡ ws_parse_frame buf max_payload
unfolding ws_parse_frame
ws_parse_frame-append buf rest max_payload h = elim (Bool-cases (ltb (length buf) 2)) [
  | inl e ↦ absurd (h (rw e refl))
  | inr e ↦
      rw
        (
          e,
          longer 2 buf rest e,
          byte_at-append 2 buf rest 0 e (omega arith),
          byte_at-append 2 buf rest 1 e (omega arith),
        )
        (elim (Bool-cases (byte_at buf 0 / 16 % 8 == 0)) [
          | inr a ↦ rw a refl
          | inl a ↦ elim (Bool-cases (is_opcode (byte_at buf 0 % 16))) [
            | inr b ↦ rw (a, b) refl
            | inl b ↦ elim (Bool-cases (byte_at buf 1 / 128 % 2 == 1)) [
              | inr c ↦ rw (a, b, c) refl
              | inl c ↦
                  rw (a, b, c)
                    (parse_length-append buf rest max_payload (byte_at buf 0 / 128 % 2 == 1)
                      (byte_at buf 0 % 16) (byte_at buf 1 % 128) (λ q. h (rw (e, a, b, c) q)))
            ]
          ]
        ])
]

length-unmask :
    (n : ℕ) (buf : Bytes) (pos mask_pos i : ℕ) → length (unmask n buf pos mask_pos i) ≡ n
unfolding unmask
length-unmask zero buf pos mask_pos i = refl
length-unmask (suc n) buf pos mask_pos i = ap suc (length-unmask n buf pos mask_pos (i + 1))

-- What an accepted frame is: it lies in the buffer, behind a header of at least six bytes, its
-- payload is within the limit, and a control frame is whole and short.
pub record IsAccepted (buf : Bytes) (max_payload : ℕ) (f : WsFrame) (consumed : ℕ) : Type 0 where
  pub inside : consumed ≤ length buf
  pub header : 6 + length f.payload ≤ consumed
  pub limit : length f.payload ≤ max_payload
  pub opcode : is_opcode f.opcode ≡ true
  pub control : (f.opcode < 8) ⊎ ((f.fin ≡ true) × (length f.payload ≤ 125))

parse_body-IsAccepted :
    (buf : Bytes) (max_payload : ℕ) (fin : Bool) (op n pos : ℕ) (f : WsFrame) (k : ℕ)
    → is_opcode op ≡ true
    → 2 ≤ pos
    → parse_body buf max_payload fin op n pos ≡ frame f k
    → IsAccepted buf max_payload f k
unfolding parse_body
parse_body-IsAccepted buf max_payload fin op n pos f k ho hp h =
    let l = length-unmask n buf (pos + 4) pos 0 in
    record {
      inside = ground arith;
      header = ground arith;
      limit = ground arith;
      opcode = ground arith;
      control = ground arith;
    }

parse_length-IsAccepted :
    (buf : Bytes) (max_payload : ℕ) (fin : Bool) (op s : ℕ) (f : WsFrame) (k : ℕ)
    → is_opcode op ≡ true
    → parse_length buf max_payload fin op s ≡ frame f k
    → IsAccepted buf max_payload f k
unfolding parse_length
parse_length-IsAccepted buf max_payload fin op s f k ho h = elim (Bool-cases (s == 126)) [
  | inl e ↦ elim (Bool-cases (ltb (length buf) 4)) [
    | inl g ↦ absurd (let q : need_more ≡ frame f k = rw (e, g) at h in cc)
    | inr g ↦ parse_body-IsAccepted buf max_payload fin op _ 4 f k ho (omega arith) (rw (e, g) at h)
  ]
  | inr e ↦ elim (Bool-cases (s == 127)) [
    | inl d ↦ elim (Bool-cases (ltb (length buf) 10)) [
      | inl g ↦ absurd (let q : need_more ≡ frame f k = rw (e, d, g) at h in cc)
      | inr g ↦
          parse_body-IsAccepted buf max_payload fin op _ 10 f k ho (omega arith) (rw (e, d, g) at h)
    ]
    | inr d ↦ parse_body-IsAccepted buf max_payload fin op s 2 f k ho (omega arith) (rw (e, d) at h)
  ]
]

pub ws_parse_frame-IsAccepted :
    (buf : Bytes) (max_payload : ℕ) (f : WsFrame) (consumed : ℕ)
    → ws_parse_frame buf max_payload ≡ frame f consumed
    → IsAccepted buf max_payload f consumed
unfolding ws_parse_frame
ws_parse_frame-IsAccepted buf max_payload f k h = elim (Bool-cases (ltb (length buf) 2)) [
  | inl e ↦ absurd (let q : need_more ≡ frame f k = rw e at h in cc)
  | inr e ↦ elim (Bool-cases (byte_at buf 0 / 16 % 8 == 0)) [
    | inr a ↦ absurd (
        let q : error (codes "reserved bits set (no extensions negotiated)") ≡ frame f k =
          rw (e, a) at h in
        cc)
    | inl a ↦ elim (Bool-cases (is_opcode (byte_at buf 0 % 16))) [
      | inr b ↦ absurd (
          let q : error (codes "unknown opcode " ++ decimal 20 (byte_at buf 0 % 16)) ≡ frame f k =
            rw (e, a, b) at h in
          cc)
      | inl b ↦ elim (Bool-cases (byte_at buf 1 / 128 % 2 == 1)) [
        | inr c ↦ absurd (
            let q : error (codes "client frame is not masked") ≡ frame f k = rw (e, a, b, c) at h in
            cc)
        | inl c ↦
            parse_length-IsAccepted buf max_payload (byte_at buf 0 / 128 % 2 == 1)
              (byte_at buf 0 % 16) (byte_at buf 1 % 128) f k b (rw (e, a, b, c) at h)
      ]
    ]
  ]
]
