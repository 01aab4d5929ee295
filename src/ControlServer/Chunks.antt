-- ===== src/ControlServer/Chunks.antt =====
-- handle_ws_frames of tools/ctl/backend/control_server.cpp does not depend on how the bytes of a browser
-- are cut into reads.
use ipc_data_relay.Common.{
  ℕ, zero, suc, ◌+◌, ◌-◌, ◌<◌, ◌≤◌, ◌≡◌, ◌≢◌, refl, sym, ap, ◌∙◌, ◌⊎◌, Bool, true, false, [], ◌∷◌,
  ◌++◌, ltb, length, drop, length-drop, length-append, Bool-cases, inl, inr, arith,
}
use ipc_data_relay.Byteorder.{Bytes}
use ipc_data_relay.WebSocket.{WsFrame, WsParse, need_more, frame, error, ws_parse_frame}
use ipc_data_relay.WebSocket.Prefix.{ws_parse_frame-append, ws_parse_frame-IsAccepted}
use ipc_data_relay.ControlServer.{Client, ControlServer, World, Turn, k_max_ws_message}
use ipc_data_relay.ControlServer.Messages.{ws_send, ws_fail, answer_message, handle_ws_message}
use ipc_data_relay.ControlServer.Browser.{
  Kind, ping, pong, close, binary, text, continuation, other, kind, Next, goes_on, returns,
  complete, assemble, same_bool, on_data, on_frame, erase_front, on_parse, proceed, is_closing,
  ws_round, ws_loop, handle_ws_frames,
}

-- More bytes have arrived.
abbrev pub extend_client : Client → Bytes → Client
extend_client c b = record c { input = c.input ++ b }

abbrev pub extend : Turn → Bytes → Turn
extend t b = record t { client = extend_client t.client b }

abbrev extend_next : Next → Bytes → Next
extend_next (goes_on t) b = goes_on (extend t b)
extend_next (returns t) b = returns (extend t b)

on_data-extend :
    (w : World) (s : ControlServer) (c : Client) (b : Bytes) (is_text : Bool) (f : WsFrame)
    → on_data w s (extend_client c b) is_text f ≡ extend_next (on_data w s c is_text f) b
unfolding on_data complete handle_ws_message answer_message ws_send ws_fail
on_data-extend w s c b is_text f = elim (Bool-cases (same_bool is_text c.in_message)) [
  | inl e ↦ rw e refl
  | inr e ↦ elim (Bool-cases (ltb k_max_ws_message (length (assemble c is_text f).message))) [
    | inl g ↦ rw (e, g) refl
    | inr g ↦ elim (Bool-cases f.fin) [ inl h ↦ rw (e, g, h) refl | inr h ↦ rw (e, g, h) refl ]
  ]
]

on_frame-extend :
    (k : Kind) (w : World) (s : ControlServer) (c : Client) (b : Bytes) (f : WsFrame)
    → on_frame k w s (extend_client c b) f ≡ extend_next (on_frame k w s c f) b
unfolding on_frame ws_fail
on_frame-extend ping w s c b f = refl
on_frame-extend pong w s c b f = refl
on_frame-extend close w s c b f = refl
on_frame-extend binary w s c b f = refl
on_frame-extend text w s c b f = on_data-extend w s c b true f
on_frame-extend continuation w s c b f = on_data-extend w s c b false f
on_frame-extend other w s c b f = refl

-- What a frame does: it leaves the input alone, or it closes.
abbrev Keeps : Client → Next → Type 0
Keeps c (goes_on t) = t.client.input ≡ c.input
Keeps c (returns t) = t.client.close_after_write ≡ true

on_data-Keeps :
    (w : World) (s : ControlServer) (c : Client) (is_text : Bool) (f : WsFrame)
    → Keeps c (on_data w s c is_text f)
unfolding on_data complete handle_ws_message answer_message ws_send ws_fail
on_data-Keeps w s c is_text f = elim (Bool-cases (same_bool is_text c.in_message)) [
  | inl e ↦ rw e refl
  | inr e ↦ elim (Bool-cases (ltb k_max_ws_message (length (assemble c is_text f).message))) [
    | inl g ↦ rw (e, g) refl
    | inr g ↦ elim (Bool-cases f.fin) [ inl h ↦ rw (e, g, h) refl | inr h ↦ rw (e, g, h) refl ]
  ]
]

on_frame-Keeps :
    (k : Kind) (w : World) (s : ControlServer) (c : Client) (f : WsFrame)
    → Keeps c (on_frame k w s c f)
unfolding on_frame ws_fail
on_frame-Keeps ping w s c f = refl
on_frame-Keeps pong w s c f = refl
on_frame-Keeps close w s c f = refl
on_frame-Keeps binary w s c f = refl
on_frame-Keeps text w s c f = on_data-Keeps w s c true f
on_frame-Keeps continuation w s c f = on_data-Keeps w s c false f
on_frame-Keeps other w s c f = refl

drop-append_left : (n : ℕ) (xs ys : Bytes) → n ≤ length xs → drop n (xs ++ ys) ≡ drop n xs ++ ys
drop-append_left zero xs ys h = refl
drop-append_left (suc n) [] ys h = absurd (omega arith)
drop-append_left (suc n) (x ∷ xs) ys h = drop-append_left n xs ys (omega arith)

-- A round that has found a frame or an error finds it with more bytes too.
on_parse-extend :
    (w : World) (t : Turn) (b : Bytes) (p : WsParse)
    → ws_parse_frame t.client.input k_max_ws_message ≡ p
    → p ≢ need_more
    → on_parse w t.server (extend_client t.client b) p
      ≡ extend_next (on_parse w t.server t.client p) b
unfolding on_parse ws_fail
on_parse-extend w t b need_more e h = absurd (h refl)
on_parse-extend w t b (error message) e h = refl
on_parse-extend w t b (frame f n) e h =
    let a = ws_parse_frame-IsAccepted t.client.input k_max_ws_message f n e in
    rw (drop-append_left n t.client.input b a.inside)
      (on_frame-extend (kind f.opcode) w t.server (erase_front t.client n) b f)

-- A round reads on, or it closes, or it waits for more.
abbrev Progress : Turn → WsParse → Next → Type 0
Progress t p (goes_on u) = length u.client.input < length t.client.input
Progress t p (returns u) = ((p ≡ need_more) × (u ≡ t)) ⊎ (u.client.close_after_write ≡ true)

Keeps-Progress :
    (t : Turn) (f : WsFrame) (n : ℕ) (r : Next)
    → 1 ≤ n
    → n ≤ length t.client.input
    → Keeps (erase_front t.client n) r
    → Progress t (frame f n) r
Keeps-Progress t f n (goes_on u) one le k = omega (arith, ap length k, length-drop n t.client.input)
Keeps-Progress t f n (returns u) one le k = inr k

on_parse-Progress :
    (w : World) (t : Turn) (p : WsParse)
    → ws_parse_frame t.client.input k_max_ws_message ≡ p
    → Progress t p (on_parse w t.server t.client p)
unfolding on_parse ws_fail
on_parse-Progress w t need_more e = inl (refl, refl)
on_parse-Progress w t (error message) e = inr refl
on_parse-Progress w t (frame f n) e =
    let a = ws_parse_frame-IsAccepted t.client.input k_max_ws_message f n e in
    Keeps-Progress t f n (on_frame (kind f.opcode) w t.server (erase_front t.client n) f)
      (omega (arith, a.header)) a.inside
      (on_frame-Keeps (kind f.opcode) w t.server (erase_front t.client n) f)

-- More fuel than bytes changes nothing.
proceed_more :
    (fuel more : ℕ) (w : World) (t : Turn) (p : WsParse) (r : Next)
    → length t.client.input ≤ fuel
    → Progress t p r
    → ((u : Turn) → length u.client.input < fuel → ws_loop more w u ≡ ws_loop fuel w u)
    → proceed r (λ u. ws_loop more w u) ≡ proceed r (λ u. ws_loop fuel w u)
proceed_more fuel more w t p (goes_on u) le g ih = ih u (omega arith)
proceed_more fuel more w t p (returns u) le g ih = refl

round-Progress :
    (w : World) (t : Turn)
    → Progress t (ws_parse_frame t.client.input k_max_ws_message) (ws_round w t)
unfolding ws_round
round-Progress w t = on_parse-Progress w t (ws_parse_frame t.client.input k_max_ws_message) refl

pub ws_loop_more :
    (fuel more : ℕ) (w : World) (t : Turn)
    → length t.client.input < fuel
    → fuel ≤ more
    → ws_loop more w t ≡ ws_loop fuel w t
unfolding ws_loop
ws_loop_more zero more w t h le = absurd (omega arith)
ws_loop_more (suc fuel) zero w t h le = absurd (omega arith)
ws_loop_more (suc fuel) (suc more) w t h le = elim (Bool-cases (is_closing t.client)) [
  | inl e ↦ rw e refl
  | inr e ↦ rw e (
      proceed_more fuel more w t (ws_parse_frame t.client.input k_max_ws_message) (ws_round w t)
        (omega arith) (round-Progress w t) (λ u lt. ws_loop_more fuel more w u lt (omega arith)))
]

pub ws_loop_closed :
    (n : ℕ) (w : World) (t : Turn) → t.client.close_after_write ≡ true → ws_loop n w t ≡ t
unfolding ws_loop
ws_loop_closed zero w t h = refl
ws_loop_closed (suc n) w t h = let c : is_closing t.client ≡ true = ground arith in rw c refl

ws_loop_round :
    (n : ℕ) (w : World) (t : Turn)
    → is_closing t.client ≡ false
    → ws_loop (suc n) w t ≡ proceed (ws_round w t) (λ u. ws_loop n w u)
unfolding ws_loop
ws_loop_round n w t h = rw h refl

module _ (fuel n : ℕ) (w : World) (t : Turn) (b : Bytes) (open_now : is_closing t.client ≡ false)
    (enough : length t.client.input + length b < n)
    (ih : (u : Turn)
      → length u.client.input < length t.client.input
      → ws_loop n w (extend u b) ≡ ws_loop n w (extend (ws_loop fuel w u) b)) where
  extend_next_step :
      (m : ℕ) (p : WsParse) (r : Next)
      → n ≡ suc m
      → p ≢ need_more
      → ws_round w (extend t b) ≡ extend_next r b
      → Progress t p r
      → ws_loop n w (extend t b) ≡ ws_loop n w (extend (proceed r (λ u. ws_loop fuel w u)) b)
  extend_next_step m p (goes_on u) s ne e g =
      let l = length-append u.client.input b in
      rw s (
        ws_loop_round m w (extend t b) open_now
        ∙ rw e (
            sym (ws_loop_more m (suc m) w (extend u b) (omega arith) (omega arith))
            ∙ rw (sym s) (ih u g)))
  extend_next_step m p (returns u) s ne e (inl q) = absurd (ne q.0)
  extend_next_step m p (returns u) s ne e (inr q) = rw s (
      ws_loop_round m w (extend t b) open_now
      ∙ rw e refl
      ∙ sym (ws_loop_closed (suc m) w (extend u b) q))

  extend_parse :
      (p : WsParse)
      → ws_parse_frame t.client.input k_max_ws_message ≡ p
      → ws_loop n w (extend t b)
        ≡ ws_loop n w (extend (proceed (on_parse w t.server t.client p) (λ u. ws_loop fuel w u)) b)
  unfolding on_parse ws_round
  extend_parse need_more e = refl
  extend_parse (error message) e =
      let ne : error message ≢ need_more = λ q. cc in
      extend_next_step (n - 1) (error message) (on_parse w t.server t.client (error message))
        (omega arith) ne
        (rw (ws_parse_frame-append t.client.input b k_max_ws_message (λ q. ne (sym e ∙ q)), e)
          (on_parse-extend w t b (error message) e ne))
        (on_parse-Progress w t (error message) e)
  extend_parse (frame f k) e =
      let ne : frame f k ≢ need_more = λ q. cc in
      extend_next_step (n - 1) (frame f k) (on_parse w t.server t.client (frame f k)) (omega arith)
        ne
        (rw (ws_parse_frame-append t.client.input b k_max_ws_message (λ q. ne (sym e ∙ q)), e)
          (on_parse-extend w t b (frame f k) e ne))
        (on_parse-Progress w t (frame f k) e)

ws_loop-extend :
    (fuel n : ℕ) (w : World) (t : Turn) (b : Bytes)
    → length t.client.input < fuel
    → length t.client.input + length b < n
    → ws_loop n w (extend t b) ≡ ws_loop n w (extend (ws_loop fuel w t) b)
unfolding ws_loop ws_round
ws_loop-extend zero n w t b h k = absurd (omega arith)
ws_loop-extend (suc fuel) n w t b h k = elim (Bool-cases (is_closing t.client)) [
  | inl e ↦ rw e refl
  | inr e ↦ rw e (
      extend_parse fuel n w t b e k
        (λ u lt. ws_loop-extend fuel n w u b (omega arith) (omega arith))
        (ws_parse_frame t.client.input k_max_ws_message) refl)
]

handle_ws_frames_loop :
    (n : ℕ) (w : World) (t : Turn)
    → length t.client.input < n
    → ws_loop n w t ≡ handle_ws_frames w t
unfolding handle_ws_frames
handle_ws_frames_loop n w t h = ws_loop_more (suc (length t.client.input)) n w t (omega arith) h

-- However the bytes of a browser are cut into two reads, the server comes to the same state: to handle
-- the frames of the first part, and then those of what is left with the second part behind it, is to
-- handle the frames of both parts at once. The state of the server, what goes out to the browser, the
-- message under assembly and the input that is left are all the same.
pub handle_ws_frames-extend :
    (w : World) (t : Turn) (b : Bytes)
    → handle_ws_frames w (extend t b) ≡ handle_ws_frames w (extend (handle_ws_frames w t) b)
handle_ws_frames-extend w t b =
    let rest = extend (handle_ws_frames w t) b in
    let n = length t.client.input + length b + length rest.client.input + 1 in
    let l = length-append t.client.input b in
    sym (handle_ws_frames_loop n w (extend t b) (omega arith))
    ∙ ws_loop-extend n n w t b (omega arith) (omega arith)
    ∙ ap (λ u. ws_loop n w (extend u b)) (handle_ws_frames_loop n w t (omega arith))
    ∙ handle_ws_frames_loop n w rest (omega arith)
