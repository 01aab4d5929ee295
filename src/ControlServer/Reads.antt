-- ===== src/ControlServer/Reads.antt =====
-- Any number of reads from a browser (read_client and handle_ws_frames of
-- tools/ctl/backend/control_server.cpp).
use ipc_data_relay.Common.{
  ℕ, zero, suc, ◌≡◌, refl, sym, ap, ◌∙◌, Bool, true, false, List, [], ◌∷◌, ◌++◌, ltb, length,
  append_assoc, append-nil, map, Bool-cases, inl, inr,
}
use ipc_data_relay.Byteorder.{Bytes}
use ipc_data_relay.WebSocket.{WsFrame, WsParse, need_more, frame, error, ws_parse_frame}
use ipc_data_relay.ControlServer.{Client, ControlServer, World, Turn, k_max_ws_message}
use ipc_data_relay.ControlServer.Messages.{ws_send, ws_fail, answer_message, handle_ws_message}
use ipc_data_relay.ControlServer.Browser.{
  Kind, ping, pong, close, binary, text, continuation, other, kind, Next, goes_on, returns,
  complete, assemble, same_bool, on_data, on_frame, erase_front, on_parse, proceed, is_closing,
  ws_round, ws_loop, handle_ws_frames,
}
use ipc_data_relay.ControlServer.Chunks.{
  extend_client, extend, ws_loop_closed, handle_ws_frames-extend,
}
use ipc_data_relay.ControlServer.Clients.{
  received, append_input, recv_loop, after_recv, read_client,
}

-- The frames of a browser do not turn it into another client.
abbrev is_browser : Next → Bool
is_browser (goes_on t) = t.client.websocket
is_browser (returns t) = t.client.websocket

on_data_websocket :
    (w : World) (s : ControlServer) (c : Client) (is_text : Bool) (f : WsFrame)
    → is_browser (on_data w s c is_text f) ≡ c.websocket
unfolding on_data complete handle_ws_message answer_message ws_send ws_fail
on_data_websocket w s c is_text f = elim (Bool-cases (same_bool is_text c.in_message)) [
  | inl e ↦ rw e refl
  | inr e ↦ elim (Bool-cases (ltb k_max_ws_message (length (assemble c is_text f).message))) [
    | inl g ↦ rw (e, g) refl
    | inr g ↦ elim (Bool-cases f.fin) [ inl h ↦ rw (e, g, h) refl | inr h ↦ rw (e, g, h) refl ]
  ]
]

on_frame_websocket :
    (k : Kind) (w : World) (s : ControlServer) (c : Client) (f : WsFrame)
    → is_browser (on_frame k w s c f) ≡ c.websocket
unfolding on_frame ws_fail
on_frame_websocket ping w s c f = refl
on_frame_websocket pong w s c f = refl
on_frame_websocket close w s c f = refl
on_frame_websocket binary w s c f = refl
on_frame_websocket text w s c f = on_data_websocket w s c true f
on_frame_websocket continuation w s c f = on_data_websocket w s c false f
on_frame_websocket other w s c f = refl

on_parse_websocket :
    (w : World) (s : ControlServer) (c : Client) (p : WsParse)
    → is_browser (on_parse w s c p) ≡ c.websocket
unfolding on_parse ws_fail
on_parse_websocket w s c need_more = refl
on_parse_websocket w s c (error message) = refl
on_parse_websocket w s c (frame f n) = on_frame_websocket (kind f.opcode) w s (erase_front c n) f

proceed_websocket :
    (r : Next) (b : Bool) (next : Turn → Turn)
    → is_browser r ≡ b
    → ((u : Turn) → (next u).client.websocket ≡ u.client.websocket)
    → (proceed r next).client.websocket ≡ b
proceed_websocket (goes_on u) b next e h = h u ∙ e
proceed_websocket (returns u) b next e h = e

ws_loop_websocket :
    (fuel : ℕ) (w : World) (t : Turn) → (ws_loop fuel w t).client.websocket ≡ t.client.websocket
unfolding ws_loop ws_round
ws_loop_websocket zero w t = refl
ws_loop_websocket (suc fuel) w t = elim (Bool-cases (is_closing t.client)) [
  | inl e ↦ rw e refl
  | inr e ↦ rw e (
      proceed_websocket
        (on_parse w t.server t.client (ws_parse_frame t.client.input k_max_ws_message))
        t.client.websocket (λ u. ws_loop fuel w u)
        (on_parse_websocket w t.server t.client (ws_parse_frame t.client.input k_max_ws_message))
        (λ u. ws_loop_websocket fuel w u))
]

-- The bytes of all answers.
abbrev pub all_bytes : List Bytes → Bytes
all_bytes [] = []
all_bytes (b ∷ bs) = b ++ all_bytes bs

-- One call of read_client on a turn: `recv` answers with these bytes, and then it would block.
abbrev pub read : World → Turn → List Bytes → Turn
read w t bs = read_client w t.server t.client (map received bs)

-- Calls of read_client, one after the other.
abbrev pub read_each : World → Turn → List (List Bytes) → Turn
read_each w t [] = t
read_each w t (bs ∷ calls) = read_each w (read w t bs) calls

abbrev pub concat : List (List Bytes) → List Bytes
concat [] = []
concat (bs ∷ calls) = bs ++ concat calls

-- The same server and the same client; only the input of a client that is about to be closed, at which
-- nothing looks any more, may differ.
abbrev pub without_input : Turn → Turn
without_input t = record t { client = record t.client { input = [] } }

abbrev pub AgreeOn : Turn → Turn → Type 0
AgreeOn t u = (without_input t ≡ without_input u) × (t.client.close_after_write ≡ false → t ≡ u)

recv_loop_closed :
    (c : Client) (bs : List Bytes)
    → c.close_after_write ≡ true
    → recv_loop c (map received bs) ≡ record { client = c; goes_on = true }
unfolding recv_loop
recv_loop_closed c [] e = refl
recv_loop_closed c (b ∷ bs) e =
    let same : append_input c b ≡ c = simp e refl in
    ap (λ d. recv_loop d (map received bs)) same ∙ recv_loop_closed c bs e

recv_loop_open :
    (c : Client) (bs : List Bytes)
    → c.close_after_write ≡ false
    → recv_loop c (map received bs)
      ≡ record { client = extend_client c (all_bytes bs); goes_on = true }
unfolding recv_loop
recv_loop_open c [] e =
    ap (λ i. record { client = record c { input = i }; goes_on = true }) (sym (append-nil c.input))
recv_loop_open c (b ∷ bs) e =
    let same : append_input c b ≡ extend_client c b = simp e refl in
    ap (λ d. recv_loop d (map received bs)) same
    ∙ recv_loop_open (extend_client c b) bs e
    ∙ ap (λ i. record { client = record c { input = i }; goes_on = true })
        (append_assoc c.input b (all_bytes bs))

after_recv_closed :
    (w : World) (s : ControlServer) (c : Client)
    → c.close_after_write ≡ true
    → after_recv w s (record { client = c; goes_on = true }) ≡ record { server = s; client = c }
unfolding after_recv
after_recv_closed w s c e = simp e refl

after_recv_open :
    (w : World) (s : ControlServer) (c : Client)
    → c.close_after_write ≡ false
    → c.websocket ≡ true
    → after_recv w s (record { client = c; goes_on = true })
      ≡ handle_ws_frames w (record { server = s; client = c })
unfolding after_recv
after_recv_open w s c e b = simp (e, b) refl

read_closed :
    (w : World) (t : Turn) (bs : List Bytes) → t.client.close_after_write ≡ true → read w t bs ≡ t
unfolding read_client
read_closed w t bs e =
    ap (after_recv w t.server) (recv_loop_closed t.client bs e)
    ∙ after_recv_closed w t.server t.client e

read_open :
    (w : World) (t : Turn) (bs : List Bytes)
    → t.client.close_after_write ≡ false
    → t.client.websocket ≡ true
    → read w t bs ≡ handle_ws_frames w (extend t (all_bytes bs))
unfolding read_client
read_open w t bs e b =
    ap (after_recv w t.server) (recv_loop_open t.client bs e)
    ∙ after_recv_open w t.server (extend_client t.client (all_bytes bs)) e b

handle_ws_frames_closed :
    (w : World) (t : Turn) → t.client.close_after_write ≡ true → handle_ws_frames w t ≡ t
unfolding handle_ws_frames
handle_ws_frames_closed w t e = ws_loop_closed (suc (length t.client.input)) w t e

handle_ws_frames_websocket :
    (w : World) (t : Turn) → (handle_ws_frames w t).client.websocket ≡ t.client.websocket
unfolding handle_ws_frames
handle_ws_frames_websocket w t = ws_loop_websocket (suc (length t.client.input)) w t

extend-extend : (t : Turn) (b c : Bytes) → extend (extend t b) c ≡ extend t (b ++ c)
extend-extend t b c =
    ap (λ i. record t { client = record t.client { input = i } }) (append_assoc t.client.input b c)

all_bytes-append : (xs bs : List Bytes) → all_bytes (xs ++ bs) ≡ all_bytes xs ++ all_bytes bs
all_bytes-append [] bs = refl
all_bytes-append (a ∷ xs) bs =
    ap (λ x. a ++ x) (all_bytes-append xs bs) ∙ sym (append_assoc a (all_bytes xs) (all_bytes bs))

-- A call of read_client, and then another one, agree with one call on the bytes of both.
read-read :
    (w : World) (t : Turn) (xs bs : List Bytes)
    → t.client.websocket ≡ true
    → AgreeOn (read w (read w t xs) bs) (read w t (xs ++ bs))
read-read w t xs bs b = elim (Bool-cases t.client.close_after_write) [
  | inl e ↦
      let first = read_closed w t xs e in
      let both : read w (read w t xs) bs ≡ read w t (xs ++ bs) =
        ap (λ u. read w u bs) first ∙ read_closed w t bs e ∙ sym (read_closed w t (xs ++ bs) e) in
      (ap without_input both, λ _. both)
  | inr e ↦
      let u = handle_ws_frames w (extend t (all_bytes xs)) in
      let first : read w t xs ≡ u = read_open w t xs e b in
      let whole : read w t (xs ++ bs) ≡ handle_ws_frames w (extend u (all_bytes bs)) =
        read_open w t (xs ++ bs) e b
        ∙ ap (λ x. handle_ws_frames w (extend t x)) (all_bytes-append xs bs)
        ∙ ap (handle_ws_frames w) (sym (extend-extend t (all_bytes xs) (all_bytes bs)))
        ∙ handle_ws_frames-extend w (extend t (all_bytes xs)) (all_bytes bs) in
      elim (Bool-cases u.client.close_after_write) [
        | inl shut ↦
            let stays : read w (read w t xs) bs ≡ u =
              ap (λ v. read w v bs) first ∙ read_closed w u bs shut in
            let end : read w t (xs ++ bs) ≡ extend u (all_bytes bs) =
              whole ∙ handle_ws_frames_closed w (extend u (all_bytes bs)) shut in
            (
              ap without_input stays ∙ sym (ap without_input end),
              λ o. absurd (cc (ap (λ v. v.client.close_after_write) stays, shut, o)),
            )
        | inr more ↦
            let both : read w (read w t xs) bs ≡ read w t (xs ++ bs) =
              ap (λ v. read w v bs) first
              ∙ read_open w u bs more (handle_ws_frames_websocket w (extend t (all_bytes xs)) ∙ b)
              ∙ sym whole in
            (ap without_input both, λ _. both)
      ]
]

read_websocket :
    (w : World) (t : Turn) (bs : List Bytes)
    → t.client.websocket ≡ true
    → (read w t bs).client.websocket ≡ true
read_websocket w t bs b = elim (Bool-cases t.client.close_after_write) [
  | inl e ↦ ap (λ u. u.client.websocket) (read_closed w t bs e) ∙ b
  | inr e ↦
      ap (λ u. u.client.websocket) (read_open w t bs e b)
      ∙ handle_ws_frames_websocket w (extend t (all_bytes bs))
      ∙ b
]

AgreeOn-trans : (t u v : Turn) → AgreeOn t u → AgreeOn u v → AgreeOn t v
AgreeOn-trans t u v p q = (
  p.0 ∙ q.0,
  λ o. let e = p.1 o in e ∙ q.1 (sym (ap (λ (x : Turn). x.client.close_after_write) e) ∙ o),
)

-- However the bytes of a browser are cut into calls of read_client, and into answers of recv within a
-- call, the server and the client come to the same as if all of them had come in one call: the state of
-- the server, what goes out to the browser, the message under assembly and every other member of the
-- client are the same, and so is the input that is left, unless the client is about to be closed, when
-- the program throws away what comes. Each call ends with a socket that would block, and the command
-- socket answers the same throughout.
pub read_client_whole :
    (w : World) (t : Turn) (bs : List Bytes) (calls : List (List Bytes))
    → t.client.websocket ≡ true
    → AgreeOn (read_each w t (bs ∷ calls)) (read w t (bs ++ concat calls))
read_client_whole w t bs [] b =
    let e : read w t bs ≡ read w t (bs ++ []) = ap (read w t) (sym (append-nil bs)) in
    (ap without_input e, λ _. e)
read_client_whole w t bs (next ∷ calls) b =
    AgreeOn-trans (read_each w (read w t bs) (next ∷ calls))
      (read w (read w t bs) (next ++ concat calls)) (read w t (bs ++ (next ++ concat calls)))
      (read_client_whole w (read w t bs) next calls (read_websocket w t bs b))
      (read-read w t bs (next ++ concat calls) b)
