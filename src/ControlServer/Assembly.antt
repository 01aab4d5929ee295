-- ===== src/ControlServer/Assembly.antt =====
-- The messages of a browser in tools/ctl/backend/control_server.cpp: how they are put together, and
-- what they can make the server send to the receiver.
use ipc_data_relay.Common.{
  ℕ, zero, suc, ◌≤◌, ◌≡◌, refl, ◌∙◌, ◌⊎◌, Bool, true, false, List, [], ◌∷◌, Option, none, some, ltb,
  if◌then◌else◌, length, Bool-cases, inl, inr, arith,
}
use ipc_data_relay.Text.{Text, codes, same_text}
use ipc_data_relay.JsonValue.{
  Value, null, boolean, number_of, string_of, array, object, Members, Document, accepted, rejected,
  stuck, find_member, parse,
}
use ipc_data_relay.WebSocket.{WsFrame, WsParse, need_more, frame, error, ws_parse_frame}
use ipc_data_relay.ControlServer.{Client, ControlServer, World, Turn, k_max_ws_message}
use ipc_data_relay.ControlServer.Messages.{
  ws_send, ws_fail, Asked, record_command, by_type, interpret, with_topic, Sending, note_sent,
  after_send, send_command, carry_out, answer_message, handle_ws_message,
}
use ipc_data_relay.ControlServer.Browser.{
  Kind, ping, pong, close, binary, text, continuation, other, kind, Next, goes_on, returns,
  complete, assemble, same_bool, on_data, on_frame, erase_front, on_parse, proceed, is_closing,
  ws_round, ws_loop, handle_ws_frames,
}

-- The command for the state of recording.
abbrev pub command_for : Bool → Text
command_for b = if b then codes "record on" else codes "record off"

-- A message that asks for `command`: a JSON object whose `type` is `record` and whose `enabled` is the
-- Boolean that the command stands for.
pub record IsRecord (d : Document) (asked : Text) : Type 0 where
  pub members : Members
  pub name : Text
  pub enabled : Bool
  pub parsed : d ≡ accepted (object members)
  pub type : find_member (codes "type") members ≡ some (string_of name)
  pub is_record : same_text name (codes "record") ≡ true
  pub boolean_enabled : find_member (codes "enabled") members ≡ some (boolean enabled)
  pub command : asked ≡ command_for enabled

record_command_asks :
    (ms : Members) (name : Text) (o id : Option Value)
    → find_member (codes "type") ms ≡ some (string_of name)
    → same_text name (codes "record") ≡ true
    → find_member (codes "enabled") ms ≡ o
    → ((record_command o id).command ≡ [])
      ⊎ IsRecord (accepted (object ms)) (record_command o id).command
record_command_asks ms name none id t s e = inl refl
record_command_asks ms name (some null) id t s e = inl refl
record_command_asks ms name (some (boolean true)) id t s e = inr (record {
  members = ms;
  name = name;
  enabled = true;
  parsed = refl;
  type = t;
  is_record = s;
  boolean_enabled = e;
  command = refl;
})
record_command_asks ms name (some (boolean false)) id t s e = inr (record {
  members = ms;
  name = name;
  enabled = false;
  parsed = refl;
  type = t;
  is_record = s;
  boolean_enabled = e;
  command = refl;
})
record_command_asks ms name (some (number_of n)) id t s e = inl refl
record_command_asks ms name (some (string_of n)) id t s e = inl refl
record_command_asks ms name (some (array n)) id t s e = inl refl
record_command_asks ms name (some (object n)) id t s e = inl refl

by_type_asks :
    (ms : Members) (o id : Option Value)
    → find_member (codes "type") ms ≡ o
    → ((by_type o (find_member (codes "enabled") ms) id).command ≡ [])
      ⊎ IsRecord (accepted (object ms)) (by_type o (find_member (codes "enabled") ms) id).command
by_type_asks ms none id t = inl refl
by_type_asks ms (some null) id t = inl refl
by_type_asks ms (some (boolean b)) id t = inl refl
by_type_asks ms (some (number_of n)) id t = inl refl
by_type_asks ms (some (string_of name)) id t = elim (Bool-cases (same_text name (codes "record"))) [
  | inl e ↦ rw e (record_command_asks ms name (find_member (codes "enabled") ms) id t e refl)
  | inr e ↦ rw e (inl refl)
]
by_type_asks ms (some (array n)) id t = inl refl
by_type_asks ms (some (object n)) id t = inl refl

interpret_asks : (d : Document) → ((interpret d).command ≡ []) ⊎ IsRecord d (interpret d).command
unfolding interpret
interpret_asks (rejected what) = inl refl
interpret_asks stuck = inl refl
interpret_asks (accepted (object ms)) =
    by_type_asks ms (find_member (codes "type") ms) (find_member (codes "id") ms) refl
interpret_asks (accepted null) = inl refl
interpret_asks (accepted (boolean b)) = inl refl
interpret_asks (accepted (number_of n)) = inl refl
interpret_asks (accepted (string_of n)) = inl refl
interpret_asks (accepted (array n)) = inl refl

after_send_sent :
    (o : Option Text) (s : ControlServer) (frames : List Text) (problem : Text)
    → ((after_send o s frames problem).server.sent ≡ s.sent)
      ⊎ ((after_send o s frames problem).server.sent ≡ frames ∷ s.sent)
after_send_sent none s frames problem = inr refl
after_send_sent (some what) s frames problem = inl refl

note_sent_sent : (r : Sending) → (note_sent r).server.sent ≡ r.server.sent
note_sent_sent r = elim (Bool-cases r.ok) [ inl e ↦ rw e refl | inr e ↦ rw e refl ]

carry_out_sent :
    (w : World) (s : ControlServer) (a : Asked)
    → ((carry_out w s a).server.sent ≡ s.sent)
      ⊎ ((same_text a.command [] ≡ false)
          × ((carry_out w s a).server.sent ≡ with_topic s.cfg.command_topic a.command ∷ s.sent))
unfolding send_command
carry_out_sent w s a = elim (Bool-cases (same_text a.command [])) [
  | inl e ↦ rw e (inl refl)
  | inr e ↦
      let frames = with_topic s.cfg.command_topic a.command in
      let r = after_send (w.zmq_send_frames frames) s frames a.problem in
      rw e (elim (after_send_sent (w.zmq_send_frames frames) s frames a.problem) [
        | inl q ↦ inl (note_sent_sent r ∙ q)
        | inr q ↦ inr (refl, note_sent_sent r ∙ q)
      ])
]

-- A message of a browser makes the server send nothing to the receiver, or exactly one command, behind
-- the topic if there is one. It sends one only for a JSON object whose `type` is `record` and whose
-- `enabled` is a Boolean, and the command is `record on` or `record off` as that Boolean says.
pub handle_ws_message_commands :
    (w : World) (s : ControlServer) (c : Client) (input : Text)
    → ((handle_ws_message w s c input).server.sent ≡ s.sent)
      ⊎ ((command : Text) × IsRecord (parse input 64) command
          × ((handle_ws_message w s c input).server.sent
              ≡ with_topic s.cfg.command_topic command ∷ s.sent))
unfolding handle_ws_message answer_message
handle_ws_message_commands w s c input =
    let a = interpret (parse input 64) in
    elim (carry_out_sent w s a) [
      | inl q ↦ inl q
      | inr (ne, q) ↦ elim (interpret_asks (parse input 64)) [
        | inl e ↦ absurd (let z : same_text [] [] ≡ false = rw e at ne in cc)
        | inr h ↦ inr (a.command, h, q)
      ]
    ]

-- What the server keeps of a browser's message: it is within the limit, and it is empty between
-- messages. A browser that is about to be closed is left alone.
pub record IsAssembling (c : Client) : Type 0 where
  pub bound : (length c.message ≤ k_max_ws_message) ⊎ (c.close_after_write ≡ true)
  pub idle : (c.in_message ≡ true) ⊎ ((c.message ≡ []) ⊎ (c.close_after_write ≡ true))

abbrev NextIsAssembling : Next → Type 0
NextIsAssembling (goes_on t) = IsAssembling t.client
NextIsAssembling (returns t) = IsAssembling t.client

on_data-IsAssembling :
    (w : World) (s : ControlServer) (c : Client) (is_text : Bool) (f : WsFrame)
    → NextIsAssembling (on_data w s c is_text f)
unfolding on_data complete handle_ws_message answer_message ws_send ws_fail
on_data-IsAssembling w s c is_text f = elim (Bool-cases (same_bool is_text c.in_message)) [
  | inl e ↦ rw e (record { bound = inr refl; idle = inr (inr refl) })
  | inr e ↦ elim (Bool-cases (ltb k_max_ws_message (length (assemble c is_text f).message))) [
    | inl g ↦ rw (e, g) (record { bound = inr refl; idle = inr (inr refl) })
    | inr g ↦ elim (Bool-cases f.fin) [
      | inl h ↦ rw (e, g, h) (record { bound = inl (omega arith); idle = inr (inl refl) })
      | inr h ↦ rw (e, g, h) (record { bound = inl (within g); idle = inl refl })
    ]
  ]
]
  where
    within :
        ltb k_max_ws_message (length (assemble c is_text f).message) ≡ false
        → length (assemble c is_text f).message ≤ k_max_ws_message
    within g = ground arith

on_frame-IsAssembling :
    (k : Kind) (w : World) (s : ControlServer) (c : Client) (f : WsFrame)
    → IsAssembling c
    → NextIsAssembling (on_frame k w s c f)
unfolding on_frame ws_fail
on_frame-IsAssembling ping w s c f h = record { bound = h.bound; idle = h.idle }
on_frame-IsAssembling pong w s c f h = h
on_frame-IsAssembling close w s c f h = record { bound = inr refl; idle = inr (inr refl) }
on_frame-IsAssembling binary w s c f h = record { bound = inr refl; idle = inr (inr refl) }
on_frame-IsAssembling text w s c f h = on_data-IsAssembling w s c true f
on_frame-IsAssembling continuation w s c f h = on_data-IsAssembling w s c false f
on_frame-IsAssembling other w s c f h = h

on_parse-IsAssembling :
    (w : World) (s : ControlServer) (c : Client) (p : WsParse)
    → IsAssembling c
    → NextIsAssembling (on_parse w s c p)
unfolding on_parse ws_fail
on_parse-IsAssembling w s c need_more h = h
on_parse-IsAssembling w s c (error message) h = record { bound = inr refl; idle = inr (inr refl) }
on_parse-IsAssembling w s c (frame f n) h =
    on_frame-IsAssembling (kind f.opcode) w s (erase_front c n) f
      (record { bound = h.bound; idle = h.idle })

proceed-IsAssembling :
    (r : Next) (next : Turn → Turn)
    → NextIsAssembling r
    → ((t : Turn) → IsAssembling t.client → IsAssembling (next t).client)
    → IsAssembling (proceed r next).client
proceed-IsAssembling (goes_on t) next h k = k t h
proceed-IsAssembling (returns t) next h k = h

ws_loop-IsAssembling :
    (fuel : ℕ) (w : World) (t : Turn)
    → IsAssembling t.client
    → IsAssembling (ws_loop fuel w t).client
unfolding ws_loop ws_round
ws_loop-IsAssembling zero w t h = h
ws_loop-IsAssembling (suc fuel) w t h = elim (Bool-cases (is_closing t.client)) [
  | inl e ↦ rw e h
  | inr e ↦ rw e (
      proceed-IsAssembling
        (on_parse w t.server t.client (ws_parse_frame t.client.input k_max_ws_message))
        (λ u. ws_loop fuel w u)
        (on_parse-IsAssembling w t.server t.client (ws_parse_frame t.client.input k_max_ws_message)
          h)
        (λ u k. ws_loop-IsAssembling fuel w u k))
]

-- Whatever frames a browser sends, handle_ws_frames keeps at most 64 KiB of its message, and keeps none
-- of it between messages, unless it is about to close the connection.
pub handle_ws_frames-IsAssembling :
    (w : World) (t : Turn) → IsAssembling t.client → IsAssembling (handle_ws_frames w t).client
unfolding handle_ws_frames
handle_ws_frames-IsAssembling w t h = ws_loop-IsAssembling (suc (length t.client.input)) w t h
