-- ===== src/WebSocket/Server.antt =====
-- What a client makes of the frames of ws_encode_frame (tools/ctl/backend/websocket.cpp).
use ipc_data_relay.Common.{
  ℕ, ◌+◌, ◌*◌, ◌/◌, ◌%◌, ◌^◌, ◌<◌, ◌≡◌, refl, true, [], ◌∷◌, ◌++◌, ltb, leb, ◌==◌, if◌then◌else◌,
  length, take, drop, Bool-cases, inl, inr, leb→le, ==_iff, arith, drop-append, take-append,
}
use ipc_data_relay.Byteorder.{Bytes, byte_at}
use ipc_data_relay.WebSocket.{WsFrame, put_length, ws_encode_frame}

-- Big-endian, as RFC 6455, section 5.2 reads an extended length.
abbrev pub big_endian : ℕ → Bytes → ℕ
big_endian acc [] = acc
big_endian acc (b ∷ bs) = big_endian (acc * 256 + b) bs

-- A frame, and what stands behind it.
pub record Received : Type 0 where
  pub frame : WsFrame
  pub rest : Bytes

abbrev pub receive_at : Bytes → ℕ → ℕ → Received
receive_at buf n pos = record {
  frame = record {
    fin = byte_at buf 0 / 128 == 1;
    opcode = byte_at buf 0 % 16;
    payload = take n (drop pos buf);
  };
  rest = drop n (drop pos buf);
}

-- How a client reads a frame that is not masked.
unfoldable pub receive : Bytes → Received
receive buf =
    let short = byte_at buf 1 in
    if ltb short 126
    then receive_at buf short 2
    else if short == 126
    then receive_at buf (big_endian 0 (take 2 (drop 2 buf))) 4
    else receive_at buf (big_endian 0 (take 8 (drop 2 buf))) 10

module _ (op : ℕ) (payload rest : Bytes) (lt : op < 16) where
  abbrev sent : WsFrame
  sent = record { fin = true; opcode = op; payload = payload }

  receive_at-sent :
      (buf : Bytes) (n pos : ℕ)
      → byte_at buf 0 ≡ 128 + op % 16
      → drop pos buf ≡ payload ++ rest
      → length payload ≡ n
      → receive_at buf n pos ≡ record { frame = sent; rest = rest }
  receive_at-sent buf n pos b d l =
      let fin : (byte_at buf 0 / 128 == 1) ≡ true = (==_iff _ 1).1 (omega arith) in
      let o : byte_at buf 0 % 16 ≡ op = omega arith in
      rw (fin, o, d, take-append n payload rest l, drop-append n payload rest l) refl

-- A client that reads what ws_encode_frame returns for an opcode below 16 and a payload of less
-- than 2 ^ 64 bytes gets a final frame with that opcode and that payload, and nothing of what
-- stands behind it.
pub receive-ws_encode_frame :
    (op : ℕ) (payload rest : Bytes)
    → op < 16
    → length payload < 2 ^ 64
    → receive (ws_encode_frame op payload ++ rest)
      ≡ record { frame = record { fin = true; opcode = op; payload = payload }; rest = rest }
unfolding receive ws_encode_frame put_length
receive-ws_encode_frame op payload rest lt h = elim (Bool-cases (ltb (length payload) 126)) [
  | inl e ↦
      rw (e, e)
        (receive_at-sent op payload rest lt ((128 + op % 16) ∷ length payload ∷ payload ++ rest)
          (length payload) 2 refl refl refl)
  | inr e ↦ elim (Bool-cases (leb (length payload) 0xFFFF)) [
    | inl g ↦
        rw (e, g)
          (receive_at-sent op payload rest lt
            ((128 + op % 16) ∷ 126 ∷ length payload / 2 ^ 8 % 256 ∷ length payload % 256 ∷ payload
              ++ rest)
            _ 4 refl refl (omega (arith, leb→le _ _ g)))
    | inr g ↦
        rw (e, g)
          (receive_at-sent op payload rest lt
            ((128 + op % 16) ∷ 127 ∷ put_length 8 (length payload) ++ payload ++ rest) _ 10 refl
            refl (omega arith))
  ]
]
