-- ===== src/ControlServer/Clients.antt =====
-- The clients of tools/ctl/backend/control_server.cpp: accept_clients, read_client, write_client,
-- close_client and broadcast_stats. The answers of the sockets are arguments.
use ipc_data_relay.Common.{
  ℕ, Bool, true, false, not, ◌&&◌, ◌||◌, List, [], ◌∷◌, ◌++◌, Option, none, some, ltb, leb,
  if◌then◌else◌, length, drop,
}
use ipc_data_relay.Byteorder.{Bytes}
use ipc_data_relay.Text.{Text, codes}
use ipc_data_relay.Http.{http_response}
use ipc_data_relay.WebSocket.{ws_encode_frame, k_text}
use ipc_data_relay.ControlServer.{
  Client, ControlServer, World, Turn, new_client, k_max_output_backlog,
}
use ipc_data_relay.ControlServer.Messages.{stats_envelope}
use ipc_data_relay.ControlServer.Browser.{is_empty, put_out, handle_ws_frames}
use ipc_data_relay.ControlServer.Serve.{plain_text, handle_http}

-- A connection that accept4 returns.
pub record Accepted : Type 0 where
  pub fd : ℕ
  pub peer : Text

-- A client of accept_clients, when `n` are connected.
unfoldable pub accepted_client : ControlServer → ℕ → Accepted → Client
unfolding http_response
accepted_client s n a =
    if leb s.cfg.max_clients n
    then record (new_client a.fd a.peer) {
      out = http_response 503 plain_text (codes "too many clients" ++ 10 ∷ []) false [];
      close_after_write = true;
    }
    else new_client a.fd a.peer

-- The loop, over the connections that wait; it ends when accept4 has no more.
unfoldable pub accept_clients : ControlServer → List Client → List Accepted → List Client
unfolding accepted_client
accept_clients s clients [] = clients
accept_clients s clients (a ∷ rest) =
    accept_clients s (clients ++ accepted_client s (length clients) a ∷ []) rest

-- The answers of recv.
pub data Recv : Type 0 where
  received : Bytes → Recv
  closed interrupted would_block broken : Recv

-- The client after the loop, and whether what it sent is looked at.
pub record Reading : Type 0 where
  pub client : Client
  pub goes_on : Bool

abbrev pub append_input : Client → Bytes → Client
append_input c bytes = if c.close_after_write then c else record c { input = c.input ++ bytes }

-- The loop of read_client; an answer that is not there would block.
unfoldable pub recv_loop : Client → List Recv → Reading
recv_loop c [] = record { client = c; goes_on = true }
recv_loop c (received bytes ∷ rest) = recv_loop (append_input c bytes) rest
recv_loop c (closed ∷ rest) = record { client = record c { dead = true }; goes_on = false }
recv_loop c (interrupted ∷ rest) = recv_loop c rest
recv_loop c (would_block ∷ rest) = record { client = c; goes_on = true }
recv_loop c (broken ∷ rest) = record { client = record c { dead = true }; goes_on = true }

unfoldable pub after_recv : World → ControlServer → Reading → Turn
unfolding handle_ws_frames handle_http
after_recv w s r =
    let t : Turn = record { server = s; client = r.client } in
    if not r.goes_on || r.client.close_after_write
    then t
    else if r.client.websocket
    then handle_ws_frames w t
    else handle_http w t

unfoldable pub read_client : World → ControlServer → Client → List Recv → Turn
unfolding after_recv recv_loop
read_client w s c answers = after_recv w s (recv_loop c answers)

-- The answers of send; a count is at least 1.
pub data Send : Type 0 where
  took : ℕ → Send
  again full failed : Send

-- Behind the loop.
abbrev pub written : Client → Client
written c = if c.close_after_write then record c { dead = true } else c

-- The loop of write_client; an answer that is not there would block.
unfoldable pub write_client : Client → List Send → Client
write_client c [] = if is_empty c.out then written c else c
write_client c (took n ∷ rest) =
    let more = write_client (record c { out = drop n c.out }) rest in
    if is_empty c.out then written c else more
write_client c (again ∷ rest) =
    let more = write_client c rest in if is_empty c.out then written c else more
write_client c (full ∷ rest) = if is_empty c.out then written c else c
write_client c (failed ∷ rest) = if is_empty c.out then written c else record c { dead = true }

-- close, on the descriptor if there is one
abbrev pub close_fd : Option ℕ → List ℕ → List ℕ
close_fd none fds = fds
close_fd (some fd) fds = fd ∷ fds

unfoldable pub close_client : ControlServer → Client → Turn
close_client s c = record {
  server = record s { closed = close_fd c.fd s.closed };
  client = record c { fd = none };
}

-- The tests of broadcast_stats.
abbrev pub wants_update : Client → Bool
wants_update c = not (not c.websocket || (c.dead || c.close_after_write))

abbrev pub keeps_up : Client → Bool
keeps_up c = not (ltb k_max_output_backlog (length c.out))

abbrev pub gets_update : Client → Bool
gets_update c = wants_update c && keeps_up c

-- The frame of an update, once it has been made.
pub record Update : Type 0 where
  pub server : ControlServer
  pub frame : Option Bytes

abbrev pub make_update : World → ControlServer → Option Bytes → Update
make_update w s (some frame) = record { server = s; frame = some frame }
make_update w s none =
    let e = stats_envelope w s in
    record { server = e.server; frame = some (ws_encode_frame k_text e.text) }

abbrev pub frame_bytes : Option Bytes → Bytes
frame_bytes none = []
frame_bytes (some frame) = frame

-- The server and its clients.
pub record State : Type 0 where
  pub server : ControlServer
  pub clients : List Client

abbrev pub in_front : Client → State → State
in_front c t = record t { clients = c ∷ t.clients }

abbrev pub update_for : World → ControlServer → Option Bytes → Client → Update
update_for w s made c =
    if gets_update c then make_update w s made else record { server = s; frame = made }

abbrev pub updated : Client → Option Bytes → Client
updated c made = if gets_update c then put_out c (frame_bytes made) else c

-- The loop of broadcast_stats; the first client that gets the update makes its frame.
unfoldable pub broadcast_loop : World → ControlServer → Option Bytes → List Client → State
unfolding stats_envelope ws_encode_frame
broadcast_loop w s made [] = record { server = s; clients = [] }
broadcast_loop w s made (c ∷ rest) =
    let u = update_for w s made c in
    in_front (updated c u.frame) (broadcast_loop w u.server u.frame rest)

unfoldable pub broadcast_stats : World → State → State
unfolding broadcast_loop
broadcast_stats w t = broadcast_loop w t.server none t.clients
