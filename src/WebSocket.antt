-- ===== src/WebSocket.antt =====
-- tools/ctl/backend/websocket.hpp and websocket.cpp: the frames of RFC 6455. A std::string is the list
-- of its bytes. `&` with a mask of ones and `>>` are remainder and division.
pub mod Masks
pub mod Frames
pub mod Server
pub mod Prefix
pub mod Sha1
pub mod Handshake
use Prim.Native.Nat.{bit_xor}
use ipc_data_relay.Common.{
  ℕ, zero, suc, ◌+◌, ◌-◌, ◌*◌, ◌/◌, ◌%◌, ◌^◌, Bool, true, false, not, ◌&&◌, ◌||◌, List, [], ◌∷◌,
  ◌++◌, ltb, leb, ◌==◌, if◌then◌else◌, length, take,
}
use ipc_data_relay.Byteorder.{Bytes, byte_at}
use ipc_data_relay.Text.{Text, codes}
use ipc_data_relay.Json.{decimal}

abbrev pub k_continuation : ℕ
k_continuation = 0x0

abbrev pub k_text : ℕ
k_text = 0x1

abbrev pub k_binary : ℕ
k_binary = 0x2

abbrev pub k_close : ℕ
k_close = 0x8

abbrev pub k_ping : ℕ
k_ping = 0x9

abbrev pub k_pong : ℕ
k_pong = 0xA

abbrev pub k_going_away : ℕ
k_going_away = 1001

abbrev pub k_protocol_error : ℕ
k_protocol_error = 1002

abbrev pub k_unsupported_data : ℕ
k_unsupported_data = 1003

abbrev pub k_too_big : ℕ
k_too_big = 1009

pub record WsFrame : Type 0 where
  pub fin : Bool
  pub opcode : ℕ
  pub payload : Bytes

-- The result with the out parameters that it sets.
pub data WsParse : Type 0 where
  need_more : WsParse
  frame : (f : WsFrame) (consumed : ℕ) → WsParse
  error : (message : Text) → WsParse

-- The cases of the switch on the opcode.
abbrev pub is_opcode : ℕ → Bool
is_opcode op =
    op == k_continuation
    || (op == k_text || (op == k_binary || (op == k_close || (op == k_ping || op == k_pong))))

-- The loop over the eight bytes of a length, of which `rounds` are left.
unfoldable pub length_loop : ℕ → Bytes → ℕ → ℕ → ℕ
length_loop zero buf i v = v
length_loop (suc rounds) buf i v =
    length_loop rounds buf (i + 1) (v * 2 ^ 8 % 2 ^ 64 + byte_at buf (2 + i))

-- The loop that unmasks, from place i on.
unfoldable pub unmask : ℕ → Bytes → ℕ → ℕ → ℕ → Bytes
unmask zero buf pos mask_pos i = []
unmask (suc rounds) buf pos mask_pos i =
    bit_xor (byte_at buf (pos + i)) (byte_at buf (mask_pos + i % 4))
    ∷ unmask rounds buf pos mask_pos (i + 1)

-- What follows once the length is known and `pos` stands behind it.
unfoldable pub parse_body : Bytes → ℕ → Bool → ℕ → ℕ → ℕ → WsParse
unfolding unmask decimal
parse_body buf max_payload fin opcode payload_len pos =
    if opcode / 8 % 2 == 1 && (not fin || ltb 125 payload_len)
    then error (codes "invalid control frame")
    else if ltb max_payload payload_len
    then error (codes "frame payload of " ++ decimal 20 payload_len ++ codes " bytes exceeds limit")
    else if ltb (length buf) (pos + 4)
    then need_more
    else if ltb (length buf - (pos + 4)) payload_len
    then need_more
    else frame
        (record { fin = fin; opcode = opcode; payload = unmask payload_len buf (pos + 4) pos 0 })
        (pos + 4 + payload_len)

-- The three forms of the length.
unfoldable pub parse_length : Bytes → ℕ → Bool → ℕ → ℕ → WsParse
unfolding length_loop parse_body
parse_length buf max_payload fin opcode short_len =
    if short_len == 126
    then (if ltb (length buf) 4
        then need_more
        else parse_body buf max_payload fin opcode (byte_at buf 2 * 2 ^ 8 + byte_at buf 3) 4)
    else if short_len == 127
    then (if ltb (length buf) 10
        then need_more
        else parse_body buf max_payload fin opcode (length_loop 8 buf 0 0) 10)
    else parse_body buf max_payload fin opcode short_len 2

unfoldable pub ws_parse_frame : Bytes → ℕ → WsParse
unfolding parse_length decimal
ws_parse_frame buf max_payload =
    let b0 = byte_at buf 0 in
    let b1 = byte_at buf 1 in
    if ltb (length buf) 2
    then need_more
    else if not (b0 / 16 % 8 == 0)
    then error (codes "reserved bits set (no extensions negotiated)")
    else if not (is_opcode (b0 % 16))
    then error (codes "unknown opcode " ++ decimal 20 (b0 % 16))
    else if not (b1 / 128 % 2 == 1)
    then error (codes "client frame is not masked")
    else parse_length buf max_payload (b0 / 128 % 2 == 1) (b0 % 16) (b1 % 128)

-- The loop over the eight bytes of the length: `shift` falls by 8 to 0.
unfoldable pub put_length : ℕ → ℕ → Bytes
put_length zero n = []
put_length (suc rounds) n = n / 2 ^ (8 * rounds) % 256 ∷ put_length rounds n

unfoldable pub ws_encode_frame : ℕ → Bytes → Bytes
unfolding put_length
ws_encode_frame opcode payload =
    let n = length payload in
    (128 + opcode % 16)
      ∷ (if ltb n 126
          then n ∷ []
          else if leb n 0xFFFF
          then 126 ∷ n / 2 ^ 8 % 256 ∷ n % 256 ∷ []
          else 127 ∷ put_length 8 n)
    ++ payload

unfoldable pub ws_close_payload : ℕ → Text → Bytes
ws_close_payload code reason = code / 2 ^ 8 % 256 ∷ code % 256 ∷ take 123 reason
