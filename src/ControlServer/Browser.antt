-- ===== src/ControlServer/Browser.antt =====
-- handle_ws_frames of tools/ctl/backend/control_server.cpp: the frames that a browser has sent.
use ipc_data_relay.Common.{
  ◌∷◌, ℕ, zero, suc, Bool, true, false, not, ◌||◌, [], ◌++◌, Option, none, some, ltb, ◌==◌,
  if◌then◌else◌, length, take, drop,
}
use ipc_data_relay.Byteorder.{Bytes}
use ipc_data_relay.Text.{Text, codes}
use ipc_data_relay.Http.{find}
use ipc_data_relay.WebSocket.{
  WsFrame, WsParse, need_more, frame, error, ws_parse_frame, ws_encode_frame, k_continuation,
  k_text, k_binary, k_close, k_ping, k_pong, k_protocol_error, k_unsupported_data, k_too_big,
}
use ipc_data_relay.ControlServer.{Client, ControlServer, World, Turn, k_max_ws_message}
use ipc_data_relay.ControlServer.Messages.{ws_fail, handle_ws_message}

-- The cases of the switch on the opcode.
pub data Kind : Type 0 where
  ping pong close binary text continuation other : Kind

abbrev pub kind : ℕ → Kind
kind op =
    if op == k_ping
    then ping
    else if op == k_pong
    then pong
    else if op == k_close
    then close
    else if op == k_binary
    then binary
    else if op == k_text
    then text
    else if op == k_continuation
    then continuation
    else other

-- Whether the loop goes on.
pub data Next : Type 0 where
  goes_on : Turn → Next
  returns : Turn → Next

abbrev pub fails : ControlServer → Client → ℕ → Text → Next
fails s c code reason = returns (record { server = s; client = ws_fail c code reason })

abbrev pub is_empty : Bytes → Bool
is_empty [] = true
is_empty (b ∷ bs) = false

abbrev pub put_out : Client → Bytes → Client
put_out c bytes = record c { out = c.out ++ bytes }

-- A message that is complete.
abbrev pub forget_message : Turn → Turn
forget_message t = record t { client = record t.client { message = [] } }

unfoldable pub complete : World → ControlServer → Client → Next
unfolding handle_ws_message
complete w s c = goes_on (forget_message (handle_ws_message w s c c.message))

-- c.message with the payload behind it; a text frame begins a message.
abbrev pub assemble : Client → Bool → WsFrame → Client
assemble c is_text f = record c {
  message = (if is_text then [] else c.message) ++ f.payload;
  in_message = not f.fin;
}

abbrev pub same_bool : Bool → Bool → Bool
same_bool true b = b
same_bool false b = not b

-- case kText and case kContinuation
unfoldable pub on_data : World → ControlServer → Client → Bool → WsFrame → Next
unfolding complete
on_data w s c is_text f =
    if same_bool is_text c.in_message
    then fails s c k_protocol_error (codes "unexpected continuation state")
    else if ltb k_max_ws_message (length (assemble c is_text f).message)
    then fails s (assemble c is_text f) k_too_big (codes "message too large")
    else if f.fin
    then complete w s (assemble c is_text f)
    else goes_on (record { server = s; client = assemble c is_text f })

unfoldable pub on_frame : Kind → World → ControlServer → Client → WsFrame → Next
unfolding on_data
on_frame ping w s c f =
    goes_on (record { server = s; client = put_out c (ws_encode_frame k_pong f.payload) })
on_frame pong w s c f = goes_on (record { server = s; client = c })
on_frame close w s c f = returns (record {
  server = s;
  client = record (put_out c (ws_encode_frame k_close (take 2 f.payload))) {
    close_after_write = true;
  };
})
on_frame binary w s c f = fails s c k_unsupported_data (codes "binary messages are not supported")
on_frame text w s c f = on_data w s c true f
on_frame continuation w s c f = on_data w s c false f
on_frame other w s c f = goes_on (record { server = s; client = c })

-- error.find("exceeds") != npos
abbrev pub mentions : Option ℕ → Bool
mentions none = false
mentions (some n) = true

abbrev pub code_for : Text → ℕ
code_for message = if mentions (find (codes "exceeds") message) then k_too_big else k_protocol_error

abbrev pub erase_front : Client → ℕ → Client
erase_front c n = record c { input = drop n c.input }

-- One round of the loop, on what the parser has found.
unfoldable pub on_parse : World → ControlServer → Client → WsParse → Next
unfolding on_frame find ws_fail
on_parse w s c need_more = returns (record { server = s; client = c })
on_parse w s c (error message) = fails s c (code_for message) message
on_parse w s c (frame f consumed) = on_frame (kind f.opcode) w s (erase_front c consumed) f

abbrev pub proceed : Next → (Turn → Turn) → Turn
proceed (goes_on t) next = next t
proceed (returns t) next = t

abbrev pub is_closing : Client → Bool
is_closing c = c.dead || c.close_after_write

unfoldable pub ws_round : World → Turn → Next
unfolding on_parse ws_parse_frame
ws_round w t = on_parse w t.server t.client (ws_parse_frame t.client.input k_max_ws_message)

-- The loop, on fuel.
unfoldable pub ws_loop : ℕ → World → Turn → Turn
unfolding ws_round
ws_loop zero w t = t
ws_loop (suc fuel) w t =
    if is_closing t.client then t else proceed (ws_round w t) (λ u. ws_loop fuel w u)

-- A frame takes six bytes at least, so that there are fewer rounds than bytes, and one.
unfoldable pub handle_ws_frames : World → Turn → Turn
unfolding ws_loop
handle_ws_frames w t = ws_loop (suc (length t.client.input)) w t
