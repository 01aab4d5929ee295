-- ===== src/ControlServer/Messages.antt =====
-- The messages between the server and a browser (handle_ws_message, hello_json and stats_envelope of
-- tools/ctl/backend/control_server.cpp).
use ipc_data_relay.Common.{
  ℕ, ◌+◌, ◌-◌, ◌/◌, ◌%◌, ◌^◌, ltb, Bool, true, false, not, ◌&&◌, List, [], ◌∷◌, ◌++◌, Option, none,
  some, leb, ◌==◌, if◌then◌else◌,
}
use ipc_data_relay.Text.{Text, codes, same_text}
use ipc_data_relay.Json.{
  JsonWriter, new_json, begin_object, end_object, key, value_text, value_number, value_bool, raw,
  decimal,
}
use ipc_data_relay.Json
use ipc_data_relay.JsonValue.{
  Value, boolean, number_of, string_of, object, Document, accepted, rejected, stuck, find_member,
  parse,
}
use ipc_data_relay.WebSocket.{ws_encode_frame, ws_close_payload, k_text, k_close}
use ipc_data_relay.ControlServer.{
  Client, ControlServer, Double, whole, broken, World, Turn, k_protocol_version, k_ns_per_ms,
}

unfoldable pub ws_send : Client → Text → Client
ws_send c text = record c { out = c.out ++ ws_encode_frame k_text text }

unfoldable pub ws_fail : Client → ℕ → Text → Client
ws_fail c code reason = record c {
  out = c.out ++ ws_encode_frame k_close (ws_close_payload code reason);
  close_after_write = true;
}

-- The command that a message asks for, empty if there is none, the error, and the message's id.
pub record Asked : Type 0 where
  pub command : Text
  pub problem : Text
  pub id : Option Value

abbrev pub asks : Text → Option Value → Asked
asks command id = record { command = command; problem = []; id = id }

abbrev pub complains : Text → Option Value → Asked
complains problem id = record { command = []; problem = problem; id = id }

-- enabled->boolean, if it is there and a Boolean
abbrev pub record_command : Option Value → Option Value → Asked
record_command (some (boolean b)) id =
    if b then asks (codes "record on") id else asks (codes "record off") id
record_command enabled id = complains (codes "\"record\" needs a boolean \"enabled\"") id

abbrev pub by_type : Option Value → Option Value → Option Value → Asked
by_type (some (string_of t)) enabled id =
    if same_text t (codes "record")
    then record_command enabled id
    else complains (codes "unknown message type '" ++ t ++ codes "'") id
by_type type enabled id = complains (codes "missing \"type\"") id

-- The first part of handle_ws_message. `stuck` is no answer of the parser.
unfoldable pub interpret : Document → Asked
unfolding find_member
interpret (rejected what) = complains (codes "invalid JSON: " ++ what) none
interpret stuck = complains (codes "invalid JSON: ") none
interpret (accepted (object ms)) =
    by_type (find_member (codes "type") ms) (find_member (codes "enabled") ms)
      (find_member (codes "id") ms)
interpret (accepted v) = complains (codes "message must be a JSON object") none

abbrev pub with_topic : Text → Text → List Text
with_topic [] command = command ∷ []
with_topic (t ∷ ts) command = (t ∷ ts) ∷ command ∷ []

-- send_command: the server, and whether and how it failed.
pub record Sending : Type 0 where
  pub server : ControlServer
  pub ok : Bool
  pub problem : Text

abbrev pub after_send : Option Text → ControlServer → List Text → Text → Sending
after_send none s frames problem = record {
  server = record s { sent = frames ∷ s.sent };
  ok = true;
  problem = problem;
}
after_send (some what) s frames problem = record { server = s; ok = false; problem = what }

unfoldable pub send_command : World → ControlServer → Text → Text → Sending
send_command w s command problem =
    let frames = with_topic s.cfg.command_topic command in
    after_send (w.zmq_send_frames frames) s frames problem

-- A command that has been sent makes the next statistics go out at once.
abbrev pub note_sent : Sending → Sending
note_sent r =
    if r.ok then record r { server = record r.server { push_on_next_stats = true } } else r

-- An empty command is not sent.
abbrev pub carry_out : World → ControlServer → Asked → Sending
carry_out w s a =
    if same_text a.command []
    then record { server = s; ok = false; problem = a.problem }
    else note_sent (send_command w s a.command a.problem)

-- A double that is finite, whole and below 9.0e15 in size is written as an int64_t.
unfoldable pub write_json_number : JsonWriter → Double → JsonWriter
unfolding value_number decimal
write_json_number j (whole sign size text) =
    if ltb size 9000000000000000
    then (if sign && ltb 0 size then raw j (45 ∷ decimal 20 size) else value_number j size)
    else raw j text
write_json_number j (broken text) = raw j text

-- The id goes back if it is a number or a string.
abbrev pub write_id : World → JsonWriter → Option Value → JsonWriter
write_id w j (some (number_of t)) = write_json_number j (w.strtod t)
write_id w j (some (string_of t)) = value_text j t
write_id w j v = Json.null j

unfoldable pub command_result : World → Asked → Bool → Text → Text
unfolding begin_object end_object key value_text value_bool
command_result w a ok problem =
    let j1 = value_text (key (begin_object new_json) (codes "type")) (codes "command_result") in
    let j2 = write_id w (key j1 (codes "id")) a.id in
    let j3 = value_text (key j2 (codes "command")) a.command in
    let j4 = value_bool (key j3 (codes "ok")) ok in
    let j5 = value_text (key j4 (codes "error")) problem in (end_object j5).out

unfoldable pub answer_message : World → ControlServer → Client → Asked → Turn
unfolding ws_send command_result send_command
answer_message w s c a =
    let r = carry_out w s a in
    record { server = r.server; client = ws_send c (command_result w a r.ok r.problem) }

unfoldable pub handle_ws_message : World → ControlServer → Client → Text → Turn
unfolding answer_message interpret parse
handle_ws_message w s c text = answer_message w s c (interpret (parse text 64))

unfoldable pub hello_json : World → ControlServer → Text
unfolding begin_object end_object key value_text value_number
hello_json w s =
    let j1 = value_text (key (begin_object new_json) (codes "type")) (codes "hello") in
    let j2 = value_number (key j1 (codes "protocol_version")) k_protocol_version in
    let j3 = value_text (key j2 (codes "tool_version")) w.tool_version in
    let j4 = value_number (key j3 (codes "update_interval_ms")) s.cfg.update_interval_ms in
    let j5 = value_number (key j4 (codes "stale_after_ms")) s.cfg.stale_after_ms in
    let j6 = value_text (key j5 (codes "stats_endpoint")) s.cfg.stats_endpoint in
    let j7 = value_text (key j6 (codes "command_endpoint")) s.cfg.command_endpoint in
    (end_object j7).out

-- An answer of the server, and the server with its counter of updates.
pub record Envelope : Type 0 where
  pub server : ControlServer
  pub text : Text

abbrev pub age_ms : World → ControlServer → ℕ
age_ms w s = (w.monotonic_ns + 2 ^ 64 - s.latest_stats_ns) % 2 ^ 64 / k_ns_per_ms

-- latest_stats_ns_ != 0
abbrev pub have_stats : ControlServer → Bool
have_stats s = not (s.latest_stats_ns == 0)

unfoldable pub receiver_online : World → ControlServer → Bool
receiver_online w s = have_stats s && leb (age_ms w s) s.cfg.stale_after_ms

unfoldable pub stats_envelope : World → ControlServer → Envelope
unfolding begin_object end_object key value_text value_number value_bool raw receiver_online
stats_envelope w s =
    let j1 = value_text (key (begin_object new_json) (codes "type")) (codes "stats") in
    let j2 = value_number (key j1 (codes "update")) ((s.updates_sent + 1) % 2 ^ 64) in
    let j3 = value_number (key j2 (codes "server_time_ns")) w.realtime_ns in
    let j4 = value_bool (key j3 (codes "receiver_online")) (receiver_online w s) in
    let k5 = key j4 (codes "stats_age_ms") in
    let j5 = if have_stats s then value_number k5 (age_ms w s) else Json.null k5 in
    let j6 = value_number (key j5 (codes "stats_received")) s.stats_received in
    let k7 = key j6 (codes "stats") in
    let j7 = if have_stats s then raw k7 s.latest_stats else Json.null k7 in
    record {
      server = record s { updates_sent = (s.updates_sent + 1) % 2 ^ 64 };
      text = (end_object j7).out;
    }
