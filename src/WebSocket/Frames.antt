-- ===== src/WebSocket/Frames.antt =====
-- What ws_parse_frame makes of the frames of RFC 6455, section 5 (tools/ctl/backend/websocket.cpp).
use ipc_data_relay.Common.{
  ℕ, suc, ◌+◌, ◌*◌, ◌/◌, ◌%◌, ◌^◌, ◌<◌, ◌≤◌, ◌≡◌, refl, ap, ◌∙◌, ◌⊎◌, Bool, true, false, [], ◌∷◌,
  ◌++◌, ltb, ◌==◌, if◌then◌else◌, length, length-append, drop, Bool-cases, inl, inr, ltb→lt, ==_iff,
  arith, length-drop,
}
use ipc_data_relay.Byteorder.{Bytes, IsBytes, byte_at}
use ipc_data_relay.WebSocket.{
  WsFrame, frame, is_opcode, length_loop, parse_body, parse_length, ws_parse_frame,
}
use ipc_data_relay.WebSocket.Masks.{Mask, IsMask, masked, length-masked, unmask_all}

-- The length of the RFC in its shortest form, with the mask bit `high` (0 or 128).
abbrev pub length_field : ℕ → ℕ → Bytes
length_field high n =
    if ltb n 126
    then (high + n) ∷ []
    else if ltb n (2 ^ 16)
    then (high + 126) ∷ n / 2 ^ 8 ∷ n % 2 ^ 8 ∷ []
    else (high + 127)
      ∷ n / 2 ^ 56
      ∷ n / 2 ^ 48 % 2 ^ 8
      ∷ n / 2 ^ 40 % 2 ^ 8
      ∷ n / 2 ^ 32 % 2 ^ 8
      ∷ n / 2 ^ 24 % 2 ^ 8
      ∷ n / 2 ^ 16 % 2 ^ 8
      ∷ n / 2 ^ 8 % 2 ^ 8
      ∷ n % 2 ^ 8
      ∷ []

-- A frame as a client sends it.
unfoldable pub client_frame : WsFrame → Mask → Bytes
client_frame f m =
    ((if f.fin then 128 else 0) + f.opcode) ∷ length_field 128 (length f.payload)
    ++ m.m0 ∷ m.m1 ∷ m.m2 ∷ m.m3 ∷ masked m f.payload

-- The frames that a client may send: a control frame is whole and short.
pub record IsClientFrame (f : WsFrame) : Type 0 where
  pub opcode : is_opcode f.opcode ≡ true
  pub control : (f.opcode < 8) ⊎ ((f.fin ≡ true) × (length f.payload ≤ 125))
  pub bytes : IsBytes f.payload

length-behind :
    (buf : Bytes) (pos : ℕ) (m : Mask) (bs rest : Bytes)
    → drop pos buf ≡ m.m0 ∷ m.m1 ∷ m.m2 ∷ m.m3 ∷ masked m bs ++ rest
    → pos + 4 + length bs ≤ length buf
length-behind buf pos m bs rest d =
    omega (
      arith,
      length-drop pos buf,
      ap length d,
      length-append (masked m bs) rest,
      length-masked m bs,
    )

parse_body-masked :
    (buf : Bytes) (max_payload pos : ℕ) (f : WsFrame) (m : Mask) (rest : Bytes)
    → IsClientFrame f
    → IsMask m
    → length f.payload ≤ max_payload
    → drop pos buf ≡ m.m0 ∷ m.m1 ∷ m.m2 ∷ m.m3 ∷ masked m f.payload ++ rest
    → parse_body buf max_payload f.fin f.opcode (length f.payload) pos
      ≡ frame f (pos + 4 + length f.payload)
unfolding parse_body
parse_body-masked buf max_payload pos f m rest hf hm le d =
    let e = unmask_all buf pos m f.payload rest hf.bytes hm d in
    let l = length-behind buf pos m f.payload rest d in
    let c = hf.control in let o = hf.opcode in rw e (ground arith)

-- The first byte, taken apart.
opcode_bound : (op : ℕ) → is_opcode op ≡ true → op < 16
opcode_bound op h = ground arith

abbrev first_byte : Bool → ℕ → ℕ
first_byte fin op = (if fin then 128 else 0) + op

first_byte_opcode : (fin : Bool) (op : ℕ) → op < 16 → first_byte fin op % 16 ≡ op
first_byte_opcode true op h = omega arith
first_byte_opcode false op h = omega arith

first_byte_fin : (fin : Bool) (op : ℕ) → op < 16 → (first_byte fin op / 128 % 2 == 1) ≡ fin
first_byte_fin true op h = (==_iff _ 1).1 (omega arith)
first_byte_fin false op h = ground arith

first_byte_reserved : (fin : Bool) (op : ℕ) → op < 16 → first_byte fin op / 16 % 8 ≡ 0
first_byte_reserved true op h = omega arith
first_byte_reserved false op h = omega arith

-- A first byte and a second byte that the checks let through.
ws_parse_frame_head :
    (fin : Bool) (op s max_payload : ℕ) (tail : Bytes)
    → is_opcode op ≡ true
    → s < 128
    → ws_parse_frame (first_byte fin op ∷ (128 + s) ∷ tail) max_payload
      ≡ parse_length (first_byte fin op ∷ (128 + s) ∷ tail) max_payload fin op s
unfolding ws_parse_frame
ws_parse_frame_head fin op s max_payload tail ho h =
    let lt = opcode_bound op ho in
    let long : ltb (suc (suc (length tail))) 2 ≡ false = ground arith in
    let high : (128 + s) / 128 % 2 ≡ 1 = omega arith in
    let low : (128 + s) % 128 ≡ s = omega arith in
    rw (
      long,
      first_byte_reserved fin op lt,
      first_byte_opcode fin op lt,
      first_byte_fin fin op lt,
      ho,
      high,
      low,
    )

parse_length_short :
    (buf : Bytes) (max_payload : ℕ) (fin : Bool) (op s : ℕ)
    → s < 126
    → parse_length buf max_payload fin op s ≡ parse_body buf max_payload fin op s 2
unfolding parse_length
parse_length_short buf max_payload fin op s h = ground arith

parse_length_medium :
    (buf : Bytes) (max_payload : ℕ) (fin : Bool) (op n : ℕ)
    → 4 ≤ length buf
    → byte_at buf 2 * 2 ^ 8 + byte_at buf 3 ≡ n
    → parse_length buf max_payload fin op 126 ≡ parse_body buf max_payload fin op n 4
unfolding parse_length
parse_length_medium buf max_payload fin op n h e =
    let long : ltb (length buf) 4 ≡ false = ground arith in rw (long, e)

parse_length_long :
    (buf : Bytes) (max_payload : ℕ) (fin : Bool) (op n : ℕ)
    → 10 ≤ length buf
    → length_loop 8 buf 0 0 ≡ n
    → parse_length buf max_payload fin op 127 ≡ parse_body buf max_payload fin op n 10
unfolding parse_length
parse_length_long buf max_payload fin op n h e =
    let long : ltb (length buf) 10 ≡ false = ground arith in rw (long, e)

module _ (f : WsFrame) (m : Mask) (rest : Bytes) (max_payload : ℕ) (hf : IsClientFrame f)
    (hm : IsMask m) (le : length f.payload ≤ max_payload) where
  abbrev body : Bytes
  body = m.m0 ∷ m.m1 ∷ m.m2 ∷ m.m3 ∷ masked m f.payload ++ rest

  frame_short :
      length f.payload < 126
      → ws_parse_frame (first_byte f.fin f.opcode ∷ (128 + length f.payload) ∷ body) max_payload
        ≡ frame f (6 + length f.payload)
  frame_short h =
      ws_parse_frame_head f.fin f.opcode (length f.payload) max_payload body hf.opcode (omega arith)
      ∙ parse_length_short _ max_payload f.fin f.opcode (length f.payload) h
      ∙ parse_body-masked _ max_payload 2 f m rest hf hm le refl

  frame_medium :
      length f.payload < 2 ^ 16
      → ws_parse_frame
          (first_byte f.fin f.opcode
            ∷ 254
            ∷ length f.payload / 2 ^ 8
            ∷ length f.payload % 2 ^ 8
            ∷ body)
          max_payload
        ≡ frame f (8 + length f.payload)
  frame_medium h =
      ws_parse_frame_head f.fin f.opcode 126 max_payload _ hf.opcode (omega arith)
      ∙ parse_length_medium _ max_payload f.fin f.opcode (length f.payload) (omega arith)
          (omega arith)
      ∙ parse_body-masked _ max_payload 4 f m rest hf hm le refl

  frame_long :
      length f.payload < 2 ^ 64
      → ws_parse_frame
          (first_byte f.fin f.opcode
            ∷ 255
            ∷ length f.payload / 2 ^ 56
            ∷ length f.payload / 2 ^ 48 % 2 ^ 8
            ∷ length f.payload / 2 ^ 40 % 2 ^ 8
            ∷ length f.payload / 2 ^ 32 % 2 ^ 8
            ∷ length f.payload / 2 ^ 24 % 2 ^ 8
            ∷ length f.payload / 2 ^ 16 % 2 ^ 8
            ∷ length f.payload / 2 ^ 8 % 2 ^ 8
            ∷ length f.payload % 2 ^ 8
            ∷ body)
          max_payload
        ≡ frame f (14 + length f.payload)
  unfolding length_loop
  frame_long h =
      ws_parse_frame_head f.fin f.opcode 127 max_payload _ hf.opcode (omega arith)
      ∙ parse_length_long _ max_payload f.fin f.opcode (length f.payload) (omega arith)
          (omega arith)
      ∙ parse_body-masked _ max_payload 10 f m rest hf hm le refl

-- A frame of a client, with whatever stands behind it in the buffer, parses to that frame, and
-- exactly its bytes are consumed: for every opcode, payload, mask and form of the length, when the
-- payload is within the limit and below 2 ^ 64 bytes, and a control frame is whole and at most 125
-- bytes long.
pub ws_parse_frame-client_frame :
    (f : WsFrame) (m : Mask) (rest : Bytes) (max_payload : ℕ)
    → IsClientFrame f
    → IsMask m
    → length f.payload ≤ max_payload
    → length f.payload < 2 ^ 64
    → ws_parse_frame (client_frame f m ++ rest) max_payload ≡ frame f (length (client_frame f m))
unfolding client_frame
ws_parse_frame-client_frame f m rest max_payload hf hm le h =
    elim (Bool-cases (ltb (length f.payload) 126)) [
      | inl e ↦ rw e (
          frame_short f m rest max_payload hf hm le (ltb→lt _ _ e)
          ∙ ap (frame f) (omega (arith, length-masked m f.payload)))
      | inr e ↦ elim (Bool-cases (ltb (length f.payload) (2 ^ 16))) [
        | inl g ↦
            rw (e, g)
              (frame_medium f m rest max_payload hf hm le (ltb→lt _ _ g)
                ∙ ap (frame f) (omega (arith, length-masked m f.payload)))
        | inr g ↦
            rw (e, g)
              (frame_long f m rest max_payload hf hm le h
                ∙ ap (frame f) (omega (arith, length-masked m f.payload)))
      ]
    ]
